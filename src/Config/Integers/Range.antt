-- ===== src/Config/Integers/Range.antt =====
-- src/config.c, parse_integer: the range of integers.
use facet_os.Prelude.{
  ℕ, ◌+◌, ◌-◌, ◌*◌, ◌≤◌, ◌<◌, ◌≡◌, ◌⊎◌, inl, inr, Bool, true, false, not, ◌&&◌, [], ◌∷◌, ltb,
  length, Bytes,
}
use facet_os.Config.Cursor.{Cursor, Diagnostic, Parsed}
use facet_os.Config.Integers.{is_digit, Integer, magnitude_limit, starts_with_zero}

abbrev pub AllDigits : Bytes → Type 0
AllDigits [] = Unit
AllDigits (c ∷ ds) = (is_digit c ≡ true) × AllDigits ds

-- the value of digits behind a number
abbrev pub value_from : ℕ → Bytes → ℕ
value_from m [] = m
value_from m (c ∷ ds) = value_from (m * 10 + (c - b'0')) ds

abbrev pub no_digit : Bytes → Bool
no_digit [] = true
no_digit (c ∷ rest) = not (is_digit c)

module _ (negative : Bool) where
  abbrev Read : ℕ → ℕ → Bytes → Bytes → Parsed (ℕ × ℕ) → Type 0
  Read m n ds tail o =
      (value_from m ds ≤ magnitude_limit negative)
        × ((p' : Cursor) × (o ≡ inr ((value_from m ds, n + length ds), p')) × (p'.rest ≡ tail))
      ⊎ (magnitude_limit negative < value_from m ds) × ((d : Diagnostic) × (o ≡ inl d))

-- no sign, and no zero before another digit
abbrev pub IsCanonical : Bytes → Type 0
IsCanonical ds = (0 < length ds) × ((ltb 1 (length ds) && starts_with_zero ds) ≡ false)

module _ (negative : Bool) (ds tail : Bytes) where
  -- the value of the digits is read, with the sign and the place behind them, or is too big
  abbrev pub Parses : Parsed Integer → Type 0
  Parses o =
      (value_from 0 ds ≤ magnitude_limit negative)
        × ((p' : Cursor) × (o
              ≡ inr (record { negative = negative; magnitude = value_from 0 ds }, p'))
            × (p'.rest ≡ tail))
      ⊎ (magnitude_limit negative < value_from 0 ds) × ((d : Diagnostic) × (o ≡ inl d))

-- the text of an integer
abbrev pub integer_text : Bool → Bytes → Bytes
integer_text true ds = b'-' ∷ ds
integer_text false ds = ds
