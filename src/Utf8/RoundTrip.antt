-- ===== src/Utf8/RoundTrip.antt =====
-- include/facetos/utf8.h: the check and the encoder.
use facet_os.Prelude.{
  ℕ, zero, suc, ◌+◌, ◌*◌, ◌/◌, ◌%◌, ◌≤◌, ◌<◌, true, false, some, List, [], ◌∷◌, ◌++◌, ◌≡◌, refl,
  ◌∙◌, ap, inl, inr, arith, leb, leb→le, ltb, ltb→lt, Bool-cases, Option-cases, ◌&&◌, ◌≢◌, length,
  length-append, Bytes,
}
use mathlib.Core.Bool.{false≢true}
use facet_os.Utf8.{sequence, scan, is_valid, is_scalar, encode}

abbrev pub encode_all : List ℕ → Bytes
encode_all [] = []
encode_all (s ∷ ss) = encode s ++ encode_all ss

abbrev pub AllScalars : List ℕ → Type 0
AllScalars [] = Unit
AllScalars (s ∷ ss) = (is_scalar s ≡ true) × AllScalars ss

-- One lemma for each length of the encoding.
module _ (s : ℕ) (rest : Bytes) where
  sequence_one : s ≤ 0x7f → sequence s rest ≡ some rest
  unfolding sequence
  sequence_one h = ground arith

  sequence_two :
      0x7f < s → s ≤ 0x7ff → sequence (0xc0 + s / 64) ((0x80 + s % 64) ∷ rest) ≡ some rest
  unfolding sequence
  sequence_two lo hi = ground arith

  sequence_three :
      0x7ff < s
      → s ≤ 0xffff
      → is_scalar s ≡ true
      → sequence (0xe0 + s / 4096) ((0x80 + s / 64 % 64) ∷ (0x80 + s % 64) ∷ rest) ≡ some rest
  unfolding sequence is_scalar
  sequence_three lo hi h = ground arith

  sequence_four :
      0xffff < s
      → is_scalar s ≡ true
      → sequence
          (0xf0 + s / 262144)
          ((0x80 + s / 4096 % 64) ∷ (0x80 + s / 64 % 64) ∷ (0x80 + s % 64) ∷ rest)
        ≡ some rest
  unfolding sequence is_scalar
  sequence_four lo h = ground arith

length-encode : (s : ℕ) → 0 < length (encode s)
unfolding encode
length-encode s = ground arith

scan-sequence :
    (fuel first : ℕ) (d rest : Bytes)
    → sequence first d ≡ some rest
    → scan (suc fuel) (first ∷ d) ≡ scan fuel rest
unfolding scan
scan-sequence fuel first d rest e = rw (e, scan)

sequence-encode :
    (s fuel : ℕ) (rest : Bytes)
    → is_scalar s ≡ true
    → scan (suc fuel) (encode s ++ rest) ≡ scan fuel rest
unfolding encode
sequence-encode s fuel rest h = elim (Bool-cases (leb s 0x7f)) [
  | inl one ↦ rw one (scan-sequence fuel _ _ _ (sequence_one s rest (leb→le _ _ one)))
  | inr p ↦ elim (Bool-cases (leb s 0x7ff)) [
    | inl two ↦
        rw (p, two) (scan-sequence fuel _ _ _ (sequence_two s rest (ground arith) (leb→le _ _ two)))
    | inr q ↦ elim (Bool-cases (leb s 0xffff)) [
      | inl three ↦
          rw (p, q, three)
            (scan-sequence fuel _ _ _ (sequence_three s rest (ground arith) (leb→le _ _ three) h))
      | inr r ↦ rw (p, q, r) (scan-sequence fuel _ _ _ (sequence_four s rest (ground arith) h))
    ]
  ]
]

scan-encode_all :
    (ss : List ℕ) (fuel : ℕ)
    → AllScalars ss
    → length (encode_all ss) ≤ fuel
    → scan fuel (encode_all ss) ≡ true
scan-encode_all [] fuel h l = unfold scan in refl
scan-encode_all (s ∷ ss) zero h l =
    absurd (omega (arith, length-encode s, length-append (encode s) (encode_all ss)))
scan-encode_all (s ∷ ss) (suc fuel) h l =
    sequence-encode s fuel (encode_all ss) h.0
    ∙ scan-encode_all ss fuel h.1
        (omega (arith, length-encode s, length-append (encode s) (encode_all ss)))

-- The check accepts the encoding of every sequence of Unicode scalar values.
pub is_valid-encode_all : (ss : List ℕ) → AllScalars ss → is_valid (encode_all ss) ≡ true
unfolding is_valid
is_valid-encode_all ss h = scan-encode_all ss (length (encode_all ss)) h (omega arith)

-- What the check reads as one character is the encoding of a scalar value.
abbrev Decoded : ℕ → Bytes → Bytes → Type 0
Decoded first data' rest = (s : ℕ) × (is_scalar s ≡ true) × (encode s ++ rest ≡ first ∷ data')

abbrev cont : ℕ → ℕ → ℕ
cont value next = value * 64 + next % 64

Decoded-ascii : (f : ℕ) (d rest : Bytes) → f < 0x80 → sequence f d ≡ some rest → Decoded f d rest
unfolding sequence is_scalar encode
Decoded-ascii f d rest lo h = (f, ground arith, ground arith)

Decoded-two :
    (f : ℕ) (d rest : Bytes) → 0xc2 ≤ f → f ≤ 0xdf → sequence f d ≡ some rest → Decoded f d rest
unfolding sequence is_scalar encode
Decoded-two f [] rest lo hi h = absurd (ground arith)
Decoded-two f (a ∷ d) rest lo hi h = (cont (f % 32) a, ground arith, ground arith)

Decoded-three :
    (f : ℕ) (d rest : Bytes) → 0xe0 ≤ f → f ≤ 0xef → sequence f d ≡ some rest → Decoded f d rest
unfolding sequence is_scalar encode
Decoded-three f [] rest lo hi h = absurd (ground arith)
Decoded-three f (a ∷ []) rest lo hi h = absurd (ground arith)
Decoded-three f (a ∷ b ∷ d) rest lo hi h = (cont (cont (f % 16) a) b, ground arith, ground arith)

Decoded-four :
    (f : ℕ) (d rest : Bytes) → 0xf0 ≤ f → f ≤ 0xf4 → sequence f d ≡ some rest → Decoded f d rest
unfolding sequence is_scalar encode
Decoded-four f [] rest lo hi h = absurd (ground arith)
Decoded-four f (a ∷ []) rest lo hi h = absurd (ground arith)
Decoded-four f (a ∷ b ∷ []) rest lo hi h = absurd (ground arith)
Decoded-four f (a ∷ b ∷ c ∷ d) rest lo hi h =
    (cont (cont (cont (f % 8) a) b) c, ground arith, ground arith)

no_lead :
    (f : ℕ) (d rest : Bytes)
    → ltb f 0x80 ≡ false
    → (leb 0xc2 f && leb f 0xdf) ≡ false
    → (leb 0xe0 f && leb f 0xef) ≡ false
    → (leb 0xf0 f && leb f 0xf4) ≡ false
    → sequence f d ≢ some rest
unfolding sequence
no_lead f d rest p q r t h = ground (arith, h)

sequence-Decoded : (f : ℕ) (d rest : Bytes) → sequence f d ≡ some rest → Decoded f d rest
sequence-Decoded f d rest h = elim (Bool-cases (ltb f 0x80)) [
  | inl one ↦ Decoded-ascii f d rest (ltb→lt _ _ one) h
  | inr p ↦ elim (Bool-cases (leb 0xc2 f && leb f 0xdf)) [
    | inl two ↦ Decoded-two f d rest (ground arith) (ground arith) h
    | inr q ↦ elim (Bool-cases (leb 0xe0 f && leb f 0xef)) [
      | inl three ↦ Decoded-three f d rest (ground arith) (ground arith) h
      | inr r ↦ elim (Bool-cases (leb 0xf0 f && leb f 0xf4)) [
        | inl four ↦ Decoded-four f d rest (ground arith) (ground arith) h
        | inr t ↦ absurd (no_lead f d rest p q r t h)
      ]
    ]
  ]
]

-- The characters of an accepted sequence.
scan-Encoded :
    (fuel : ℕ) (d : Bytes)
    → scan fuel d ≡ true
    → (ss : List ℕ) × AllScalars ss × (encode_all ss ≡ d)
unfolding scan
scan-Encoded fuel [] h = ([], tt, refl)
scan-Encoded zero (f ∷ d) h = cc
scan-Encoded (suc fuel) (f ∷ d) h = elim (Option-cases (sequence f d)) [
  | inl e ↦ absurd (false≢true (rw (e, scan) at h))
  | inr (rest, e) ↦
      let (s, scalar, joined) = sequence-Decoded f d rest e in
      let (ss, all, same) = scan-Encoded fuel rest (rw (e, scan) at h) in
      (s ∷ ss, (scalar, all), ap (λ (r : Bytes). encode s ++ r) same ∙ joined)
]

-- What the check accepts is the encoding of a sequence of Unicode scalar values, so it refuses
-- overlong forms, surrogates, values above 0x10ffff and truncated sequences.
pub is_valid-Encoded :
    (d : Bytes) → is_valid d ≡ true → (ss : List ℕ) × AllScalars ss × (encode_all ss ≡ d)
unfolding is_valid
is_valid-Encoded d h = scan-Encoded (length d) d h
