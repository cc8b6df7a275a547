-- ===== src/Config/Integers.antt =====
-- src/config.c: integers.
pub mod Range
pub mod Progress
use facet_os.Prelude.{
  ℕ, zero, suc, ◌+◌, ◌-◌, ◌*◌, ◌/◌, ◌%◌, ◌^◌, ◌≤◌, ◌<◌, min, max, bit_and, bit_or, bit_xor, ◌≡◌,
  refl, sym, ap, ap₂, ◌∙◌, subst, ◌≢◌, ◌↔◌, ◌⊎◌, inl, inr, Bool, true, false, not, ◌&&◌, ◌||◌,
  Option, none, some, List, [], ◌∷◌, ◌++◌, map, append-nil, append_assoc, arith, ltb, leb, ◌==◌,
  if◌then◌else◌, ltb→lt, lt→ltb, leb→le, ==_iff, tests, Bool-cases, Option-cases, length, get_elem?,
  get_or, set, take, drop, replicate, length-append, length-set, get_elem?-set_self,
  get_elem?-set_ne, take-append-drop, length-take, length-drop, length-replicate, length-map,
  take_none, take_all, take-append, take_prefix, Bytes, bytes_equal, bytes_equal_iff,
  bytes_equal_refl, bytes_equal_symm,
}
use mathlib.Core.Bool.{false≢true}
use native.Mathlib.Nat.{add-zero}
use facet_os.Prelude.Monad.{Result, ok, err, ◌>>=◌, ◌>>◌, guard, >>=-eq-some, guard-eq-some}
use facet_os.Config.Cursor.{Cursor, syntax, Parsed, fail, after}

abbrev pub is_digit : ℕ → Bool
is_digit c = leb b'0' c && leb c b'9'

-- An `int64_t` by its sign and magnitude.
pub record Integer : Type 0 where
  pub negative : Bool
  pub magnitude : ℕ

-- `limit`: `INT64_MAX`, and one more behind a minus sign
abbrev pub magnitude_limit : Bool → ℕ
magnitude_limit negative = if negative then 2 ^ 63 else 2 ^ 63 - 1

-- The loop over the digits: the magnitude, their number and the place behind them.
unfoldable pub digits_from : Bool → ℕ → ℕ → Bytes → Cursor → Parsed (ℕ × ℕ)
digits_from negative magnitude count [] p = inr ((magnitude, count), p)
digits_from negative magnitude count (c ∷ rest) p =
    let behind = after c rest p in
    let digit = c - b'0' in
    let more = digits_from negative (magnitude * 10 + digit) (count + 1) rest behind in
    if is_digit c
    then (if ltb ((magnitude_limit negative - digit) / 10) magnitude
        then fail syntax behind
        else more)
    else inr ((magnitude, count), p)

-- `if (current(parser) == '+' || current(parser) == '-')`
unfoldable pub sign : Bytes → Cursor → Bool × Cursor
sign [] p = (false, p)
sign (c ∷ rest) p = if c == b'+' || c == b'-' then (c == b'-', after c rest p) else (false, p)

abbrev pub starts_with_zero : Bytes → Bool
starts_with_zero [] = false
starts_with_zero (c ∷ rest) = c == b'0'

-- what follows the loop; `start` is the place of the first digit
unfoldable pub finish : Bool → Cursor → Parsed (ℕ × ℕ) → Parsed Integer
finish negative start (inl d) = inl d
finish negative start (inr ((magnitude, count), p)) =
    if count == 0
    then fail syntax p
    else if ltb 1 count && starts_with_zero start.rest
    then fail syntax p
    else inr (record { negative = negative; magnitude = magnitude }, p)

-- `parse_integer`
unfoldable pub parse_integer : Cursor → Parsed Integer
parse_integer p =
    let (negative, start) = sign p.rest p in
    finish negative start (digits_from negative 0 0 start.rest start)
