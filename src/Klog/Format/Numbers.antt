-- ===== src/Klog/Format/Numbers.antt =====
-- src/dominit0/klog.c: the text of numbers, and how it is read.
use facet_os.Prelude.{
  ℕ, zero, suc, ◌+◌, ◌-◌, ◌*◌, ◌/◌, ◌%◌, ◌^◌, ◌≤◌, ◌<◌, ◌≡◌, refl, ◌∙◌, ◌⊎◌, inl, inr, [], ◌∷◌,
  arith, leb, ◌==◌, if◌then◌else◌, leb→le, Bool-cases, get_or, Bytes,
}
use mathlib.Core.List.{reverse, reverse-reverse}
use facet_os.Klog.Format.{digits, digit_room, uint_digits, emit_uint, emit_int, emit_int64}

-- the value of a digit
abbrev pub digit_value : ℕ → ℕ
digit_value c = if leb b'a' c then c - b'a' + 10 else c - b'0'

-- digits, the last one first
abbrev pub number : ℕ → Bytes → ℕ
number base [] = 0
number base (c ∷ cs) = number base cs * base + digit_value c

-- the value of a printed number
abbrev pub read : ℕ → Bytes → ℕ
read base s = number base (reverse s)

digit_value-digits : (d : ℕ) → d < 16 → digit_value (get_or digits d 0) ≡ d
digit_value-digits zero h = refl
digit_value-digits (suc zero) h = refl
digit_value-digits (suc (suc zero)) h = refl
digit_value-digits (suc (suc (suc zero))) h = refl
digit_value-digits (suc (suc (suc (suc zero)))) h = refl
digit_value-digits (suc (suc (suc (suc (suc zero))))) h = refl
digit_value-digits (suc (suc (suc (suc (suc (suc zero)))))) h = refl
digit_value-digits (suc (suc (suc (suc (suc (suc (suc zero))))))) h = refl
digit_value-digits (suc (suc (suc (suc (suc (suc (suc (suc d)))))))) h = high d (omega arith)
  where
    high :
        (d : ℕ)
        → d < 8
        → digit_value (get_or digits (suc (suc (suc (suc (suc (suc (suc (suc d)))))))) 0)
          ≡ suc (suc (suc (suc (suc (suc (suc (suc d)))))))
    high zero h = refl
    high (suc zero) h = refl
    high (suc (suc zero)) h = refl
    high (suc (suc (suc zero))) h = refl
    high (suc (suc (suc (suc zero)))) h = refl
    high (suc (suc (suc (suc (suc zero))))) h = refl
    high (suc (suc (suc (suc (suc (suc zero)))))) h = refl
    high (suc (suc (suc (suc (suc (suc (suc zero))))))) h = refl
    high (suc (suc (suc (suc (suc (suc (suc (suc d)))))))) h = absurd (omega arith)

div_half : (v b n : ℕ) → 2 ≤ b → v < n * 2 → v / b < n
div_half v b n lo h = grind arith

pow_suc : (n : ℕ) → 2 ^ suc n ≡ 2 ^ n * 2
pow_suc n = omega arith

rem_less : (v b : ℕ) → 0 < b → v % b < b
rem_less v b h = grind arith

div_rem : (v b : ℕ) → v / b * b + v % b ≡ v
div_rem v b = grind arith

number-uint_digits :
    (room value base : ℕ)
    → 2 ≤ base
    → base ≤ 16
    → value < 2 ^ room
    → number base (uint_digits room value base) ≡ value
unfolding uint_digits
number-uint_digits zero value base lo hi h = omega arith
number-uint_digits (suc room) value base lo hi h = elim (Bool-cases (value == 0)) [
  | inl e ↦ rw e (ground arith)
  | inr e ↦
      let rest =
        number-uint_digits room (value / base) base lo hi
          (div_half value base (2 ^ room) lo (omega (arith, pow_suc room))) in
      rw
        (
          e,
          rest,
          digit_value-digits (value % base) (omega (arith, rem_less value base (omega arith))),
        )
        (div_rem value base)
]

pub read-emit_uint :
    (value base : ℕ)
    → 2 ≤ base
    → base ≤ 16
    → value < 2 ^ 64
    → read base (emit_uint value base) ≡ value
unfolding emit_uint
read-emit_uint value base lo hi h = elim (Bool-cases (value == 0)) [
  | inl e ↦ rw e (ground arith)
  | inr e ↦
      rw (e, reverse-reverse (uint_digits digit_room value base))
        (number-uint_digits digit_room value base lo hi h)
]

-- a text is a decimal number, with a sign if it is negative; the value is given by its bits
abbrev pub Signed : ℕ → ℕ → Bytes → Type 0
Signed width bits s =
    (bits < 2 ^ (width - 1)) × (read 10 s ≡ bits)
    ⊎ (2 ^ (width - 1) ≤ bits)
      × ((rest : Bytes) × (s ≡ b'-' ∷ rest) × (read 10 rest ≡ 2 ^ width - bits))

-- What is printed for an `int` or an `int64_t` is its absolute value, behind a minus sign exactly
-- if it is negative; this includes the least value.
pub emit_int-Signed :
    (i l : ℕ) → i < 2 ^ 32 → l < 2 ^ 64 → Signed 32 i (emit_int i) × Signed 64 l (emit_int64 l)
unfolding emit_int emit_int64
emit_int-Signed i l hi hl = (small, large)
  where
    small :
        Signed 32 i
          (if leb (2 ^ 31) i then b'-' ∷ emit_uint (2 ^ 32 - 1 - i + 1) 10 else emit_uint i 10)
    small = elim (Bool-cases (leb (2 ^ 31) i)) [
      | inl e ↦ rw e (
          inr (
            leb→le _ _ e,
            (
              _,
              refl,
              (read-emit_uint (2 ^ 32 - 1 - i + 1) 10 (omega arith) (omega arith) (omega arith)
                  ∙ omega arith),
            ),
          ))
      | inr e ↦
          rw e (inl (ground arith, read-emit_uint i 10 (omega arith) (omega arith) (omega arith)))
    ]

    large :
        Signed 64 l
          (if leb (2 ^ 63) l then b'-' ∷ emit_uint (2 ^ 64 - 1 - l + 1) 10 else emit_uint l 10)
    large = elim (Bool-cases (leb (2 ^ 63) l)) [
      | inl e ↦ rw e (
          inr (
            leb→le _ _ e,
            (
              _,
              refl,
              (read-emit_uint (2 ^ 64 - 1 - l + 1) 10 (omega arith) (omega arith)
                    (omega (arith, leb→le _ _ e))
                  ∙ omega (arith, leb→le _ _ e)),
            ),
          ))
      | inr e ↦ rw e (inl (ground arith, read-emit_uint l 10 (omega arith) (omega arith) hl))
    ]
