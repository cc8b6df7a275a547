-- ===== src/Initrd/Image.antt =====
-- `facet_initrd_create` of src/dominit0/initrd.c: reading a CPIO image in the `newc` format.
-- The image is the list of its bytes, so offsets do not wrap. Allocation does not fail.
pub mod Stores
pub mod Entries
use facet_os.Prelude.{
  ℕ, zero, suc, ◌+◌, ◌-◌, ◌*◌, ◌/◌, ◌%◌, ◌^◌, ◌≤◌, ◌<◌, min, max, bit_and, bit_or, bit_xor, ◌≡◌,
  refl, sym, ap, ap₂, ◌∙◌, subst, ◌≢◌, ◌↔◌, ◌⊎◌, inl, inr, Bool, true, false, not, ◌&&◌, ◌||◌,
  Option, none, some, List, [], ◌∷◌, ◌++◌, map, append-nil, append_assoc, arith, ltb, leb, ◌==◌,
  if◌then◌else◌, ltb→lt, lt→ltb, leb→le, ==_iff, tests, Bool-cases, Option-cases, length, get_elem?,
  get_or, set, take, drop, replicate, length-append, length-set, get_elem?-set_self,
  get_elem?-set_ne, take-append-drop, length-take, length-drop, length-replicate, length-map, Bytes,
  bytes_equal, bytes_equal_iff, bytes_equal_refl, bytes_equal_symm,
}
use mathlib.Core.Bool.{false≢true}
use native.Mathlib.Nat.{add-zero}
use facet_os.Prelude.Monad.{Result, ok, err, ◌>>=◌, ◌>>◌, guard, >>=-eq-some, guard-eq-some}
use facet_os.Initrd.Path.{slash, dot, has_nul}

abbrev pub header_size : ℕ
header_size = 110

abbrev pub max_entries : ℕ
max_entries = 1024

abbrev pub kind_mask : ℕ
kind_mask = 0o170000

abbrev pub regular : ℕ
regular = 0o100000

abbrev pub folder : ℕ
folder = 0o040000

-- `InitrdEntry` without its owner and exported handles. `content` is what `data` points to.
pub record Entry : Type 0 where
  pub path : Bytes
  pub content : Bytes
  pub size : ℕ
  pub directory : Bool
  pub mode : ℕ
  pub uid : ℕ
  pub gid : ℕ

pub hex_digit : ℕ → Option ℕ
hex_digit c =
    if leb b'0' c && leb c b'9'
    then some (c - b'0')
    else if leb b'a' c && leb c b'f'
    then some (c - b'a' + 10)
    else if leb b'A' c && leb c b'F'
    then some (c - b'A' + 10)
    else none

-- the loop of `hex_field`; `SIZE_MAX` is `2 ^ 64 - 1`
pub hex_from : ℕ → Bytes → Option ℕ
unfolding hex_digit
hex_from value [] = some value
hex_from value (c ∷ text) = do
  digit ← hex_digit c
  guard (leb value ((2 ^ 64 - 1 - digit) / 16))
  hex_from (value * 16 + digit) text

unfoldable pub hex_field : Bytes → Option ℕ
unfolding hex_from
hex_field text = hex_from 0 text

abbrev pub align4 : ℕ → ℕ
align4 value = (value + 3) / 4 * 4

-- `while (length >= 2 && name[0] == '.' && name[1] == '/')`
pub skip_dot_slash : Bytes → Bytes
skip_dot_slash [] = []
skip_dot_slash (a ∷ []) = a ∷ []
skip_dot_slash (a ∷ b ∷ name) =
    let rest = skip_dot_slash name in if a == dot && b == slash then rest else a ∷ b ∷ name

pub skip_root : Bytes → Bytes
skip_root [] = []
skip_root (a ∷ name) = let rest = skip_root name in if a == slash then rest else a ∷ name

-- at the end of the name, or at a slash
abbrev pub ends : Bytes → Bool
ends [] = true
ends (c ∷ name) = c == slash

abbrev pub starts_with_slash : Bytes → Bool
starts_with_slash [] = false
starts_with_slash (c ∷ name) = c == slash

abbrev pub dot_then_end : Bytes → Bool
dot_then_end [] = false
dot_then_end (c ∷ name) = c == dot && ends name

-- The loop over `i`: a NUL, an empty component, or a component `..`. The flag says that the
-- byte stands first or behind a slash.
pub has_bad_part : Bool → Bytes → Bool
has_bad_part first [] = false
has_bad_part first (c ∷ name) =
    c == 0
    || c == slash && starts_with_slash name
    || c == dot && first && dot_then_end name
    || has_bad_part (c == slash) name

unfoldable pub canonical_path : Bytes → Option Bytes
unfolding skip_dot_slash skip_root has_bad_part
canonical_path name =
    let rest = skip_root (skip_dot_slash name) in
    if bytes_equal rest [] || bytes_equal rest (dot ∷ []) || has_bad_part true rest
    then none
    else some (slash ∷ rest)

-- the C string at the start of these bytes
unfoldable pub c_string : Bytes → Bytes
c_string [] = []
c_string (c ∷ text) = if c == 0 then [] else c ∷ c_string text

pub holds_path : Bytes → List Entry → Bool
holds_path path [] = false
holds_path path (e ∷ es) = bytes_equal path e.path || holds_path path es

-- what one header announces: the end, a member to pass over, or an entry; with the next offset
pub data Member : Type 0 where
  trailer : Member
  passed : ℕ → Member
  entry : Entry → ℕ → Member

abbrev pub bytes_at : Bytes → ℕ → ℕ → Bytes
bytes_at image offset count = take count (drop offset image)

-- `TRAILER!!!`
abbrev pub trailer_name : Bytes
trailer_name = b'T' ∷ b'R' ∷ b'A' ∷ b'I' ∷ b'L' ∷ b'E' ∷ b'R' ∷ b'!' ∷ b'!' ∷ b'!' ∷ []

abbrev pub made_entry : Bytes → Bytes → ℕ → ℕ → ℕ → ℕ → ℕ → Entry
made_entry image path data_offset size mode uid gid = record {
  path = path;
  content = bytes_at image data_offset size;
  size = size;
  directory = bit_and mode kind_mask == folder;
  mode = mode % 2 ^ 32;
  uid = uid % 2 ^ 32;
  gid = gid % 2 ^ 32;
}

-- the entry of a member that is neither the trailer nor `.`
pub new_entry : Bytes → List Entry → Bytes → ℕ → ℕ → ℕ → ℕ → ℕ → Option Member
new_entry image entries name data_offset size mode uid gid = do
  let kind = bit_and mode kind_mask
  guard (kind == regular || kind == folder)
  guard (not (length entries == max_entries))
  path ← canonical_path name
  guard (not (holds_path path entries))
  some (entry (made_entry image path data_offset size mode uid gid) (align4 (data_offset + size)))

-- `070701` or `070702`
pub has_magic : Bytes → Bool
has_magic magic =
    bytes_equal magic (b'0' ∷ b'7' ∷ b'0' ∷ b'7' ∷ b'0' ∷ b'1' ∷ [])
    || bytes_equal magic (b'0' ∷ b'7' ∷ b'0' ∷ b'7' ∷ b'0' ∷ b'2' ∷ [])

-- One round of the loop, at an offset with room for a header; `none` is `goto fail`.
pub read_member : Bytes → List Entry → ℕ → Option Member
read_member image entries offset = do
  let total = length image
  guard (has_magic (bytes_at image offset 6))
  mode ← hex_field (bytes_at image (offset + 14) 8)
  uid ← hex_field (bytes_at image (offset + 22) 8)
  gid ← hex_field (bytes_at image (offset + 30) 8)
  size ← hex_field (bytes_at image (offset + 54) 8)
  name_size ← hex_field (bytes_at image (offset + 94) 8)
  guard (not (name_size == 0))
  let name_offset = offset + header_size
  guard (leb name_size (total - name_offset))
  let name = bytes_at image name_offset name_size
  guard (get_or name (name_size - 1) 1 == 0)
  let data_offset = align4 (name_offset + name_size)
  guard (leb data_offset total && leb size (total - data_offset))
  if bytes_equal (c_string name) trailer_name
      then some trailer
      else if bytes_equal (c_string name) (dot ∷ [])
      then some (passed (align4 (data_offset + size)))
      else new_entry image entries (take (name_size - 1) name) data_offset size mode uid gid

pub data Loaded : Type 0 where
  rejected : Loaded
  loaded : List Entry → Loaded
  out_of_fuel : Loaded

pub read_members : ℕ → Bytes → List Entry → ℕ → Loaded
read_members zero image entries offset = out_of_fuel
read_members (suc fuel) image entries offset = elim (leb (offset + header_size) (length image)) [
  | false ↦ loaded entries
  | true ↦ elim (read_member image entries offset) [
    | none ↦ rejected
    | some trailer ↦ loaded entries
    | some (passed offset') ↦ read_members fuel image entries offset'
    | some (entry e offset') ↦ read_members fuel image (entries ++ e ∷ []) offset'
  ]
]

abbrev pub root : Entry
root = record {
  path = slash ∷ [];
  content = [];
  size = 0;
  directory = true;
  mode = 0o040755;
  uid = 0;
  gid = 0;
}

-- Every round moves on by a header at least, so the size of the image is fuel enough.
unfoldable pub create : Bytes → Loaded
unfolding read_members read_member new_entry hex_field canonical_path c_string holds_path has_magic
create image =
    if ltb (length image) header_size
    then rejected
    else read_members (suc (length image)) image (root ∷ []) 0
