-- ===== src/Libc/Environment.antt =====
-- src/libc/common/runtime.c and auxv.c: the environment and the auxiliary vector that start-up
-- hands to the library.
pub mod Lookup
use facet_os.Prelude.{
  ℕ, zero, suc, ◌+◌, ◌-◌, ◌*◌, ◌/◌, ◌%◌, ◌^◌, ◌≤◌, ◌<◌, min, max, bit_and, bit_or, bit_xor, ◌≡◌,
  refl, sym, ap, ap₂, ◌∙◌, subst, ◌≢◌, ◌↔◌, ◌⊎◌, inl, inr, Bool, true, false, not, ◌&&◌, ◌||◌,
  Option, none, some, List, [], ◌∷◌, ◌++◌, map, append-nil, append_assoc, arith, ltb, leb, ◌==◌,
  if◌then◌else◌, ltb→lt, lt→ltb, leb→le, ==_iff, tests, Bool-cases, Option-cases, length, get_elem?,
  get_or, set, take, drop, replicate, length-append, length-set, get_elem?-set_self,
  get_elem?-set_ne, take-append-drop, length-take, length-drop, length-replicate, length-map, Bytes,
  bytes_equal, bytes_equal_iff, bytes_equal_refl, bytes_equal_symm,
}
use mathlib.Core.Bool.{false≢true}
use native.Mathlib.Nat.{add-zero}
use facet_os.Prelude.Monad.{Result, ok, err, ◌>>=◌, ◌>>◌, guard, >>=-eq-some, guard-eq-some}
use facet_os.Libc.Text.{char_at, strncmp, strchr}

-- `facet_environment` and `facet_auxiliary_vector`, of which either may be null. An entry of the
-- vector is a type and a value; the entry of type 0 at the end is left out.
pub record Runtime : Type 0 where
  pub environment : Option (List Bytes)
  pub auxiliary_vector : Option (List (ℕ × ℕ))

-- `facet_libc_initialize`
unfoldable pub initialize_runtime : Option (List Bytes) → Option (List (ℕ × ℕ)) → Runtime
initialize_runtime environment vector = record {
  environment = environment;
  auxiliary_vector = vector;
}

abbrev pub equal : ℕ × ℕ → Bool
equal (a, b) = a == b

-- `strncmp(*environment, name, length) == 0 && (*environment)[length] == '='`
unfoldable pub entry_matches : Bytes → Bytes → Bool
entry_matches entry name =
    equal (strncmp entry name (length name)) && char_at entry (length name) == b'='

-- the loop of `getenv`
unfoldable pub find_entry_of : Bytes → List Bytes → Option Bytes
find_entry_of name [] = none
find_entry_of name (entry ∷ entries) =
    if entry_matches entry name
    then some (drop (length name + 1) entry)
    else find_entry_of name entries

abbrev pub is_some : {A : Type 0} → Option A → Bool
is_some none = false
is_some (some a) = true

unfoldable pub getenv : Runtime → Bytes → Option Bytes
getenv r name =
    if char_at name 0 == 0 || is_some (strchr name b'=')
    then none
    else elim r.environment [ none ↦ none | some entries ↦ find_entry_of name entries ]

-- the loop of `getauxval`
unfoldable pub find_value : ℕ → List (ℕ × ℕ) → Option ℕ
find_value type [] = none
find_value type ((t, value) ∷ vector) = if t == type then some value else find_value type vector

-- `getauxval`: the value, and whether `errno` is set to `ENOENT`
unfoldable pub getauxval : Runtime → ℕ → ℕ × Bool
unfolding find_value
getauxval r type = elim r.auxiliary_vector [
  | none ↦ (0, true)
  | some vector ↦ elim (find_value type vector) [ none ↦ (0, true) | some value ↦ (value, false) ]
]
