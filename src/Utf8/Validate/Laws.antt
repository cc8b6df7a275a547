-- ===== src/Utf8/Validate/Laws.antt =====
-- src/config.c: utf8_validate, beside the check of include/facetos/utf8.h.
use facet_os.Prelude.{
  ℕ, zero, suc, ◌+◌, ◌*◌, ◌/◌, ◌%◌, ◌≤◌, ◌<◌, ◌≡◌, refl, ◌⊎◌, inl, inr, Bool, true, false, Option,
  none, some, [], ◌∷◌, arith, ltb, ◌==◌, if◌then◌else◌, Bool-cases, length, Bytes,
}
use facet_os.Utf8
use facet_os.Utf8.{lead, in_range, is_valid}
use facet_os.Utf8.Validate.{continuation, check_range, multibyte, sequence, scan, utf8_validate}

abbrev right? : ℕ ⊎ (ℕ × Bytes) → Option (ℕ × Bytes)
right? (inl bad) = none
right? (inr r) = some r

abbrev rest? : ℕ ⊎ (ℕ × Bytes) → Option Bytes
rest? (inl bad) = none
rest? (inr (i, r)) = some r

continuation-right? :
    (i j v : ℕ) (d : Bytes) → right? (continuation i j v d) ≡ Utf8.continuation j v d
unfolding continuation Utf8.continuation
continuation-right? i zero v d = refl
continuation-right? i (suc j) v [] = refl
continuation-right? i (suc j) v (next ∷ d) =
    ground (arith, continuation-right? (i + 1) j (v * 64 + next % 64) d)

sequence-rest? : (i f : ℕ) (d : Bytes) → rest? (sequence i f d) ≡ Utf8.sequence f d
unfolding sequence Utf8.sequence
sequence-rest? i f d = ground (
  arith,
  continuation-right? (i + 1) 1 (f % 32) d,
  continuation-right? (i + 1) 2 (f % 16) d,
  continuation-right? (i + 1) 3 (f % 8) d,
)

abbrev pub accepted : Option ℕ → Bool
accepted none = true
accepted (some bad) = false

scan-accepted : (fuel i : ℕ) (d : Bytes) → accepted (scan fuel i d) ≡ Utf8.scan fuel d
unfolding scan Utf8.scan
scan-accepted fuel i [] = refl
scan-accepted zero i (f ∷ d) = refl
scan-accepted (suc fuel) i (f ∷ d) =
    next (sequence i f d) (sequence-rest? i f d) (scan-accepted fuel)
  where
    next :
        (r : ℕ ⊎ (ℕ × Bytes))
        → rest? r ≡ Utf8.sequence f d
        → ((j : ℕ) (rest : Bytes) → accepted (scan fuel j rest) ≡ Utf8.scan fuel rest)
        → accepted (elim r [ inl bad ↦ some bad | inr (i', rest) ↦ scan fuel i' rest ])
          ≡ elim (Utf8.sequence f d) [ none ↦ false | some rest ↦ Utf8.scan fuel rest ]
    next (inl bad) e ih = rw (← e)
    next (inr (i', rest)) e ih = rw (← e) (ih i' rest)

-- A bad offset lies between `lo` and the end, and what is left behind `n` bytes has its length.
abbrev Counts : ℕ → ℕ → ℕ → ℕ ⊎ (ℕ × Bytes) → Type 0
Counts lo n size (inl bad) = (lo ≤ bad) × (bad < lo + size)
Counts lo n size (inr (v, rest)) = length rest + n ≡ size

continuation-Counts :
    (i j v : ℕ) (d : Bytes) → j ≤ length d → Counts i j (length d) (continuation i j v d)
unfolding continuation
continuation-Counts i zero v d h = omega arith
continuation-Counts i (suc j) v [] h = absurd (omega arith)
continuation-Counts i (suc j) v (next ∷ d) h =
    step (continuation (i + 1) j (v * 64 + next % 64) d) (next / 64 == 2)
      (continuation-Counts (i + 1) j (v * 64 + next % 64) d (omega arith))
  where
    step :
        (r : ℕ ⊎ (ℕ × Bytes)) (b : Bool)
        → Counts (i + 1) j (length d) r
        → Counts i (suc j) (suc (length d)) (if b then r else inl i)
    step (inl bad) true c = omega arith
    step (inr r) true c = omega arith
    step r false c = omega arith

abbrev Advances : ℕ → ℕ → ℕ ⊎ (ℕ × Bytes) → Type 0
Advances i size (inl bad) = (i ≤ bad) × (bad < i + suc size)
Advances i size (inr (i', rest)) = (i ≤ i') × (i' + length rest ≡ i + suc size)

check_range-Advances :
    (i n size : ℕ) (r : ℕ ⊎ (ℕ × Bytes))
    → n ≤ size
    → Counts (i + 1) n size r
    → Advances i size (check_range i n r)
unfolding check_range
check_range-Advances i n size (inl bad) h c = omega arith
check_range-Advances i n size (inr (v, rest)) h c = elim (Bool-cases (in_range n v)) [
  | inl e ↦ rw e (omega arith)
  | inr e ↦ rw e (omega arith)
]

multibyte-Advances :
    (i : ℕ) (l : Option (ℕ × ℕ)) (d : Bytes) → Advances i (length d) (multibyte i l d)
unfolding multibyte
multibyte-Advances i none d = omega arith
multibyte-Advances i (some (n, v)) d = elim (Bool-cases (ltb (length d) n)) [
  | inl e ↦ rw e (omega arith)
  | inr e ↦
      let fits : n ≤ length d = ground arith in
      rw e (check_range-Advances i n (length d) _ fits (continuation-Counts (i + 1) n v d fits))
]

sequence-Advances : (i f : ℕ) (d : Bytes) → Advances i (length d) (sequence i f d)
unfolding sequence
sequence-Advances i f d = elim (Bool-cases (ltb f 0x80)) [
  | inl e ↦ rw e (omega arith)
  | inr e ↦ rw e (multibyte-Advances i (lead f) d)
]

scan_bound :
    (fuel i : ℕ) (d : Bytes) {bad : ℕ} → scan fuel i d ≡ some bad → (i ≤ bad) × (bad < i + length d)
unfolding scan
scan_bound fuel i [] h = cc
scan_bound zero i (f ∷ d) h = ground arith
scan_bound (suc fuel) i (f ∷ d) {bad} h =
    next (sequence i f d) (sequence-Advances i f d) (λ j r e. scan_bound fuel j r e) h
  where
    next :
        (r : ℕ ⊎ (ℕ × Bytes))
        → Advances i (length d) r
        → ((j : ℕ) (rest : Bytes)
            → scan fuel j rest ≡ some bad
            → (j ≤ bad) × (bad < j + length rest))
        → elim r [ inl bad ↦ some bad | inr (i', rest) ↦ scan fuel i' rest ] ≡ some bad
        → (i ≤ bad) × (bad < i + suc (length d))
    next (inl b) a ih e = ground arith
    next (inr (i', rest)) a ih e = omega (arith, ih i' rest e)

-- `utf8_validate` returns 0 for exactly the inputs that `facet_utf8_is_valid` accepts.
pub utf8_validate-is_valid : (d : Bytes) → accepted (utf8_validate d) ≡ is_valid d
unfolding utf8_validate is_valid
utf8_validate-is_valid d = scan-accepted (length d) 0 d

-- The offset that `utf8_validate` gives for a refused input lies in that input.
pub utf8_validate_bound : (d : Bytes) {bad : ℕ} → utf8_validate d ≡ some bad → bad < length d
unfolding utf8_validate
utf8_validate_bound d h = omega (arith, (scan_bound (length d) 0 d h).1)
