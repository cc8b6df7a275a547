-- ===== src/Config/Integers/Progress.antt =====
-- src/config.c: the text that is left behind an integer.
use facet_os.Prelude.{
  ℕ, suc, ◌+◌, ◌-◌, ◌*◌, ◌/◌, ◌≤◌, ◌<◌, ◌≡◌, refl, inl, inr, Bool, true, false, ◌&&◌, ◌||◌, [], ◌∷◌,
  arith, ltb, ◌==◌, Bool-cases, length, Bytes, if◌then◌else◌,
}
use facet_os.Config.Cursor.{Cursor, Parsed, fail, after}
use facet_os.Config.Cursor.Progress.{left, Reads, after-rest}
use facet_os.Config.Integers.{
  is_digit, magnitude_limit, digits_from, sign, starts_with_zero, finish, parse_integer,
}

abbrev Counts : ℕ → Parsed (ℕ × ℕ) → Type 0
Counts total (inl d) = Unit
Counts total (inr ((m, count), p)) = left p + count ≡ total

if-Counts :
    (total : ℕ) (test : Bool) (o o' : Parsed (ℕ × ℕ))
    → Counts total o
    → Counts total o'
    → Counts total (if test then o else o')
if-Counts total true o o' h k = h
if-Counts total false o o' h k = k

digits_from-Counts :
    (negative : Bool) (m count : ℕ) (text : Bytes) (p : Cursor)
    → p.rest ≡ text
    → Counts (length text + count) (digits_from negative m count text p)
unfolding digits_from fail
digits_from-Counts negative m count [] p e = rw e (omega arith)
digits_from-Counts negative m count (c ∷ rest) p e =
    if-Counts _ (is_digit c) _ _
      (if-Counts _ (ltb ((magnitude_limit negative - (c - b'0')) / 10) m) _ _ tt (
        moved _ _ (
          digits_from-Counts negative (m * 10 + (c - b'0')) (count + 1) rest (after c rest p)
            (after-rest c rest p))))
      (rw e (omega arith))
  where
    moved : (n : ℕ) (o : Parsed (ℕ × ℕ)) → Counts (n + (count + 1)) o → Counts (suc n + count) o
    moved n (inl d) h = tt
    moved n (inr ((m, k), p)) h = omega (arith, h)

sign-left : (text : Bytes) (p : Cursor) → p.rest ≡ text → left (sign text p).1 ≤ left p
unfolding sign
sign-left [] p e = omega arith
sign-left (c ∷ rest) p e = elim (Bool-cases (c == b'+' || c == b'-')) [
  | inl f ↦ rw (f, e, after-rest c rest p) (omega arith)
  | inr f ↦ rw f (omega arith)
]

finish-Reads :
    (negative : Bool) (start : Cursor) (o : Parsed (ℕ × ℕ)) (n : ℕ)
    → left start ≤ n
    → Counts (left start + 0) o
    → Reads (λ i. 0 < n) (n - 1) (finish negative start o)
unfolding finish fail
finish-Reads negative start (inl d) n h k = tt
finish-Reads negative start (inr ((m, count), p)) n h k = elim (Bool-cases (count == 0)) [
  | inl e ↦ rw e tt
  | inr e ↦ elim (Bool-cases (ltb 1 count && starts_with_zero start.rest)) [
    | inl f ↦ rw (e, f) tt
    | inr f ↦ rw (e, f) (ground (arith, e, k, h), ground (arith, e, k, h))
  ]
]

pub parse_integer-Reads : (p : Cursor) → Reads (λ i. 0 < left p) (left p - 1) (parse_integer p)
unfolding parse_integer
parse_integer-Reads p =
    let (negative, start) = sign p.rest p in
    finish-Reads negative start _ (left p) (sign-left p.rest p refl)
      (digits_from-Counts negative 0 0 start.rest start refl)
