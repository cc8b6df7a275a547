-- ===== src/Libc/Memory.antt =====
-- src/libc/common/memory.c: the functions on bytes of memory. The memory is a list, and a pointer
-- is an index.
pub mod Laws
use facet_os.Prelude.{
  ℕ, zero, suc, ◌+◌, ◌-◌, ◌*◌, ◌/◌, ◌%◌, ◌^◌, ◌≤◌, ◌<◌, min, max, bit_and, bit_or, bit_xor, ◌≡◌,
  refl, sym, ap, ap₂, ◌∙◌, subst, ◌≢◌, ◌↔◌, ◌⊎◌, inl, inr, Bool, true, false, not, ◌&&◌, ◌||◌,
  Option, none, some, List, [], ◌∷◌, ◌++◌, map, append-nil, append_assoc, arith, ltb, leb, ◌==◌,
  if◌then◌else◌, ltb→lt, lt→ltb, leb→le, ==_iff, tests, Bool-cases, Option-cases, length, get_elem?,
  get_or, set, take, drop, replicate, length-append, length-set, get_elem?-set_self,
  get_elem?-set_ne, take-append-drop, length-take, length-drop, length-replicate, length-map, Bytes,
  bytes_equal, bytes_equal_iff, bytes_equal_refl, bytes_equal_symm,
}
use mathlib.Core.Bool.{false≢true}
use native.Mathlib.Nat.{add-zero}
use facet_os.Prelude.Monad.{Result, ok, err, ◌>>=◌, ◌>>◌, guard, >>=-eq-some, guard-eq-some}

-- `out[i] = in[i]`
abbrev pub copy_byte : Bytes → ℕ → ℕ → Bytes
copy_byte mem out from = set mem out (get_or mem from 0)

-- the loop of `memcpy` and the upward one of `memmove`
pub copy_up : Bytes → ℕ → ℕ → ℕ → Bytes
copy_up mem out from zero = mem
copy_up mem out from (suc n) = copy_up (copy_byte mem out from) (out + 1) (from + 1) n

-- the downward loop of `memmove`
pub copy_down : Bytes → ℕ → ℕ → ℕ → Bytes
copy_down mem out from zero = mem
copy_down mem out from (suc n) = copy_down (copy_byte mem (out + n) (from + n)) out from n

unfoldable pub memcpy : Bytes → ℕ → ℕ → ℕ → Bytes
unfolding copy_up
memcpy mem destination source count = copy_up mem destination source count

unfoldable pub memmove : Bytes → ℕ → ℕ → ℕ → Bytes
memmove mem destination source count =
    if ltb destination source
    then copy_up mem destination source count
    else if ltb source destination
    then copy_down mem destination source count
    else mem

unfoldable pub memset : Bytes → ℕ → ℕ → ℕ → Bytes
memset mem destination value zero = mem
memset mem destination value (suc n) =
    memset (set mem destination (value % 256)) (destination + 1) value n

-- `memcmp` of two buffers with `count` bytes: equal, or the first difference is less or greater.
pub data Order : Type 0 where
  less same greater : Order

unfoldable pub memcmp : Bytes → Bytes → ℕ → Order
memcmp a b zero = same
memcmp [] b (suc n) = same
memcmp (x ∷ a) [] (suc n) = same
memcmp (x ∷ a) (y ∷ b) (suc n) =
    let rest = memcmp a b n in if x == y then rest else if ltb x y then less else greater
