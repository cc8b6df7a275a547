-- ===== src/Initrd/Path.antt =====
-- Path resolution of src/dominit0/initrd.c. A C string is the list of its bytes before the NUL.
-- Allocation does not fail: in dominit0 `malloc` is `kmalloc`, which panics.
pub mod Names
pub mod Stack
use facet_os.Prelude.{
  ℕ, zero, suc, ◌+◌, ◌-◌, ◌*◌, ◌/◌, ◌%◌, ◌^◌, ◌≤◌, ◌<◌, min, max, bit_and, bit_or, bit_xor, ◌≡◌,
  refl, sym, ap, ap₂, ◌∙◌, subst, ◌≢◌, ◌↔◌, ◌⊎◌, inl, inr, Bool, true, false, not, ◌&&◌, ◌||◌,
  Option, none, some, List, [], ◌∷◌, ◌++◌, map, append-nil, append_assoc, arith, ltb, leb, ◌==◌,
  if◌then◌else◌, ltb→lt, lt→ltb, leb→le, ==_iff, tests, Bool-cases, Option-cases, length, get_elem?,
  get_or, set, take, drop, replicate, length-append, length-set, get_elem?-set_self,
  get_elem?-set_ne, take-append-drop, length-take, length-drop, length-replicate, length-map, Bytes,
}
use mathlib.Core.Bool.{false≢true}
use native.Mathlib.Nat.{add-zero}
use facet_os.Prelude.Monad.{Result, ok, err, invalid_argument}
use mathlib.Core.List.{reverse}

abbrev pub path_max : ℕ
path_max = 4096

abbrev pub slash : ℕ
slash = b'/'

abbrev pub dot : ℕ
dot = b'.'

abbrev pub is_dot : Bytes → Bool
is_dot [] = false
is_dot (a ∷ []) = a == dot
is_dot (a ∷ b ∷ r) = false

abbrev pub is_dot_dot : Bytes → Bool
is_dot_dot [] = false
is_dot_dot (a ∷ []) = false
is_dot_dot (a ∷ b ∷ []) = a == dot && b == dot
is_dot_dot (a ∷ b ∷ c ∷ r) = false

-- `while (offset < length && data[offset] == '/') offset++`
abbrev pub skip_slashes : Bytes → Bytes
skip_slashes [] = []
skip_slashes (c ∷ p) = if c == slash then skip_slashes p else c ∷ p

-- `while (offset < length && data[offset] != '/') offset++`: the bytes passed, and the rest
abbrev pub name : Bytes → Bytes
name [] = []
name (c ∷ p) = if c == slash then [] else c ∷ name p

abbrev pub after_name : Bytes → Bytes
after_name [] = []
after_name (c ∷ p) = if c == slash then c ∷ p else after_name p

abbrev pub has_nul : Bytes → Bool
has_nul [] = false
has_nul (c ∷ p) = c == 0 || has_nul p

-- The output buffer is kept with its last byte first. `while (output_length > 1 &&
-- output[output_length - 1] != '/') output_length--;`
pub pop_name : Bytes → Bytes
pop_name [] = []
pop_name (c ∷ []) = c ∷ []
pop_name (c ∷ d ∷ out) = if c == slash then c ∷ d ∷ out else pop_name (d ∷ out)

-- `if (output_length > 1) output_length--;`
pub pop_slash : Bytes → Bytes
pop_slash [] = []
pop_slash (c ∷ []) = c ∷ []
pop_slash (c ∷ d ∷ out) = d ∷ out

-- the case of `..`; on the root both leave the buffer alone, as the outer test does
pub pop : Bytes → Bytes
pop out = pop_slash (pop_name out)

-- a component of its own
unfoldable pub push : Bytes → Bytes → Result Bytes
push out component =
    let separator = if length out == 1 then 0 else 1 in
    if ltb path_max (length out + separator)
      || ltb (path_max - (length out + separator)) (length component)
    then err invalid_argument
    else ok (reverse component ++ (if separator == 0 then out else slash ∷ out))

-- one component
unfoldable pub enter : Bytes → Bytes → Result Bytes
enter out component =
    if length component == 0 || is_dot component
    then ok out
    else if is_dot_dot component
    then ok (pop out)
    else push out component

-- The loop over `offset`. Each round takes a byte at least, so the length is fuel enough.
unfoldable pub walk : ℕ → Bytes → Bytes → Result Bytes
walk fuel out [] = ok out
walk zero out (c ∷ p) = ok out
walk (suc fuel) out (c ∷ p) =
    let rest = skip_slashes (c ∷ p) in
    elim (enter out (name rest)) [ ok out' ↦ walk fuel out' (after_name rest) | err e ↦ err e ]

-- `path_requires_directory`, on a path that is not empty
unfoldable pub requires_directory : Bytes → Bool
requires_directory path = elim (reverse path) [
  | [] ↦ false
  | c ∷ r ↦ c == slash || is_dot (name (c ∷ r)) || is_dot_dot (name (c ∷ r))
]

abbrev pub is_absolute : Bytes → Bool
is_absolute [] = false
is_absolute (c ∷ p) = c == slash

unfoldable pub resolve_path : Bytes → Bytes → Result (Bytes × Bool)
resolve_path base path =
    if not (is_absolute base) || length path == 0 || ltb path_max (length path) || has_nul path
    then err invalid_argument
    else if not (is_absolute path) && ltb path_max (length base)
    then err invalid_argument
    else elim (walk (length path) (if is_absolute path then slash ∷ [] else reverse base) path) [
      | ok out ↦ ok (reverse out, requires_directory path)
      | err e ↦ err e
    ]
