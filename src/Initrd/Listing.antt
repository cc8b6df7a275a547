-- ===== src/Initrd/Listing.antt =====
-- `directory_list` of src/dominit0/initrd.c: one page of the names in a directory.
pub mod Pages
use facet_os.Prelude.{
  ℕ, zero, suc, ◌+◌, ◌-◌, ◌*◌, ◌/◌, ◌%◌, ◌^◌, ◌≤◌, ◌<◌, min, max, bit_and, bit_or, bit_xor, ◌≡◌,
  refl, sym, ap, ap₂, ◌∙◌, subst, ◌≢◌, ◌↔◌, ◌⊎◌, inl, inr, Bool, true, false, not, ◌&&◌, ◌||◌,
  Option, none, some, List, [], ◌∷◌, ◌++◌, map, append-nil, append_assoc, arith, ltb, leb, ◌==◌,
  if◌then◌else◌, ltb→lt, lt→ltb, leb→le, ==_iff, tests, Bool-cases, Option-cases, length, get_elem?,
  get_or, set, take, drop, replicate, length-append, length-set, get_elem?-set_self,
  get_elem?-set_ne, take-append-drop, length-take, length-drop, length-replicate, length-map, Bytes,
  bytes_equal, bytes_equal_iff, bytes_equal_refl, bytes_equal_symm,
}
use mathlib.Core.Bool.{false≢true}
use native.Mathlib.Nat.{add-zero}
use facet_os.Prelude.Monad.{Result, ok, err, ◌>>=◌, ◌>>◌, guard, >>=-eq-some, guard-eq-some}
use facet_os.Prelude.Monad.{invalid_argument}
use facet_os.Initrd.Path.{slash}
use facet_os.Initrd.Image.{Entry}

pub strip_prefix : Bytes → Bytes → Option Bytes
strip_prefix [] path = some path
strip_prefix (c ∷ d) [] = none
strip_prefix (c ∷ d) (e ∷ path) = let rest = strip_prefix d path in if c == e then rest else none

pub has_slash : Bytes → Bool
has_slash [] = false
has_slash (c ∷ n) = c == slash || has_slash n

-- behind the directory: a slash, and a name with no slash in it
pub child_name : Bytes → Option Bytes
child_name [] = none
child_name (c ∷ []) = none
child_name (c ∷ d ∷ n) = if c == slash && not (has_slash (d ∷ n)) then some (d ∷ n) else none

unfoldable pub immediate_child : Bytes → Bytes → Option Bytes
unfolding strip_prefix has_slash child_name
immediate_child directory path =
    if bytes_equal directory (slash ∷ [])
    then child_name path
    else strip_prefix directory path >>= child_name

-- `Entry` of the interface: the name, and whether it is a directory
abbrev pub Item : Type 0
Item = Bytes × Bool

abbrev pub add : Item → List Item × Bool → List Item × Bool
add item (items, end) = (item ∷ items, end)

-- The loop over `i`: what is added to `result`, and `*end`.
pub list_from : Bytes → ℕ → ℕ → ℕ → ℕ → List Entry → List Item × Bool
list_from directory cursor maximum seen count [] = ([], true)
list_from directory cursor maximum seen count (e ∷ es) = elim (immediate_child directory e.path) [
  | none ↦ list_from directory cursor maximum seen count es
  | some name ↦ elim (ltb seen cursor) [
    | true ↦ list_from directory cursor maximum (seen + 1) count es
    | false ↦ elim (count == maximum) [
      | true ↦ ([], false)
      | false ↦
          add (name, e.directory) (list_from directory cursor maximum (seen + 1) (count + 1) es)
    ]
  ]
]

-- the entries, the next cursor, and whether the end is reached
unfoldable pub directory_list : List Entry → Bytes → ℕ → ℕ → Result (List Item × ℕ × Bool)
unfolding list_from
directory_list es directory cursor maximum =
    if ltb (length es) cursor
    then err invalid_argument
    else (let (items, end) = list_from directory cursor maximum 0 0 es in
        ok (items, cursor + length items, end))
