-- ===== src/Initrd/Access.antt =====
-- Lookup, permissions and the node primitives of src/dominit0/initrd.c, on a store that
-- `facet_initrd_create` returned. Pointers are not null; a node is its entry.
pub mod Modes
pub mod Execute
use facet_os.Prelude.{
  ℕ, zero, suc, ◌+◌, ◌-◌, ◌*◌, ◌/◌, ◌%◌, ◌^◌, ◌≤◌, ◌<◌, min, max, bit_and, bit_or, bit_xor, ◌≡◌,
  refl, sym, ap, ap₂, ◌∙◌, subst, ◌≢◌, ◌↔◌, ◌⊎◌, inl, inr, Bool, true, false, not, ◌&&◌, ◌||◌,
  Option, none, some, List, [], ◌∷◌, ◌++◌, map, append-nil, append_assoc, arith, ltb, leb, ◌==◌,
  if◌then◌else◌, ltb→lt, lt→ltb, leb→le, ==_iff, tests, Bool-cases, Option-cases, length, get_elem?,
  get_or, set, take, drop, replicate, length-append, length-set, get_elem?-set_self,
  get_elem?-set_ne, take-append-drop, length-take, length-drop, length-replicate, length-map, Bytes,
  bytes_equal, bytes_equal_iff, bytes_equal_refl, bytes_equal_symm,
}
use mathlib.Core.Bool.{false≢true}
use native.Mathlib.Nat.{add-zero}
use facet_os.Prelude.Monad.{Result, ok, err, ◌>>=◌, ◌>>◌, guard, >>=-eq-some, guard-eq-some}
use facet_os.Prelude.Monad.{invalid_argument, not_found, access_denied, not_supported}
use facet_os.Initrd.Path.{
  slash, path_max, resolve_path, is_absolute, skip_slashes, name, after_name,
}
use facet_os.Initrd.Image.{Entry}

abbrev pub same_kind : Bool → Bool → Bool
same_kind true b = b
same_kind false b = not b

-- the loop of `find_entry`
unfoldable pub lookup : Bytes → Bool → List Entry → Option Entry
lookup path directory [] = none
lookup path directory (e ∷ es) =
    if same_kind e.directory directory && bytes_equal e.path path
    then some e
    else lookup path directory es

unfoldable pub find_entry : List Entry → Bytes → Bool → Option Entry
unfolding lookup
find_entry es path directory = if is_absolute path then lookup path directory es else none

-- `entry_allows`: the mode bits of the class that the caller falls in
unfoldable pub entry_allows : Entry → ℕ → ℕ → Bool → ℕ → Bool
entry_allows e uid gid admin requested =
    if admin || uid == 0
    then not (not (bit_and requested 1 == 0) && bit_and e.mode 0o111 == 0)
    else (let granted =
          if uid == e.uid
          then e.mode / 64 % 8
          else if gid == e.gid
          then e.mode / 8 % 8
          else e.mode % 8 in
        bit_and granted requested == requested)

-- `facet_initrd_find_file`
unfoldable pub find_file : List Entry → Bytes → Result (Bytes × ℕ)
find_file es path =
    if length path == 0 || ltb path_max (length path) || not (is_absolute path)
    then err not_found
    else elim (find_entry es path false) [ none ↦ err not_found | some e ↦ ok (e.content, e.size) ]

-- One turn of the loop of `facet_initrd_check_execute` at a prefix of the path.
unfoldable pub check_directory : List Entry → ℕ → ℕ → Bool → Bytes → Result (Unit {0})
check_directory es uid gid admin prefix = elim (find_entry es prefix true) [
  | none ↦ err not_found
  | some e ↦ if entry_allows e uid gid admin 1 then ok tt else err access_denied
]

abbrev pub leading_slashes : Bytes → Bytes
leading_slashes [] = []
leading_slashes (c ∷ p) = if c == slash then c ∷ leading_slashes p else []

-- The loop over `i`, with the bytes before `i` and those behind. It ends at the last name. Each
-- round takes a byte at least, so the length is fuel enough.
unfoldable pub check_prefixes : ℕ → List Entry → ℕ → ℕ → Bool → Bytes → Bytes → Result (Unit {0})
check_prefixes zero es uid gid admin before rest = ok tt
check_prefixes (suc fuel) es uid gid admin before rest =
    let prefix = before ++ leading_slashes rest ++ name (skip_slashes rest) in
    elim (after_name (skip_slashes rest)) [
      | [] ↦ ok tt
      | c ∷ behind ↦ elim (check_directory es uid gid admin prefix) [
        | err e ↦ err e
        | ok _ ↦ check_prefixes fuel es uid gid admin prefix (c ∷ behind)
      ]
    ]

unfoldable pub check_file : List Entry → ℕ → ℕ → Bool → Bytes → Result (Unit {0})
check_file es uid gid admin path = elim (find_entry es path false) [
  | none ↦ err not_found
  | some e ↦ if entry_allows e uid gid admin 1 then ok tt else err access_denied
]

-- `facet_initrd_check_execute`
unfoldable pub check_execute : List Entry → Bytes → ℕ → ℕ → Bool → Result (Unit {0})
check_execute es path uid gid admin =
    if not (is_absolute path) || ltb path_max (length path)
    then err invalid_argument
    else elim (find_entry es (slash ∷ []) true) [
      | none ↦ err access_denied
      | some root ↦
          if entry_allows root uid gid admin 1
          then elim (check_prefixes (length path) es uid gid admin (take 1 path) (drop 1 path)) [
            | err e ↦ err e
            | ok _ ↦ check_file es uid gid admin path
          ]
          else err access_denied
    ]

-- `facet_initrd_open_node`
unfoldable pub open_node : List Entry → Bytes → Bytes → Bool → Result Entry
open_node es base path directory = elim (resolve_path base path) [
  | err e ↦ err e
  | ok (resolved, requires_directory) ↦
      if requires_directory && not directory
      then err not_found
      else elim (find_entry es resolved directory) [ none ↦ err not_found | some e ↦ ok e ]
]

-- `file_read_at`
unfoldable pub read_at : Entry → ℕ → ℕ → Result Bytes
read_at e offset maximum =
    if ltb e.size offset
    then err invalid_argument
    else ok (take (min (e.size - offset) maximum) (drop offset e.content))

-- `facet_initrd_node_size`, `facet_initrd_node_read` and `facet_initrd_node_metadata`
unfoldable pub node_size : Entry → Result ℕ
node_size e = if e.directory then err invalid_argument else ok e.size

unfoldable pub node_read : Entry → ℕ → ℕ → Result Bytes
unfolding read_at
node_read e offset maximum = if e.directory then err invalid_argument else read_at e offset maximum

unfoldable pub node_metadata : Entry → ℕ × ℕ × ℕ
node_metadata e = (e.mode, e.uid, e.gid)

-- `file_write_at` stores nothing: the bytes written are 0.
unfoldable pub write_at : Entry → ℕ → Bytes → Result (Unit {0})
write_at e offset data' = err not_supported
