-- ===== src/Config/Cursor/Progress.antt =====
-- src/config.c: the text that the lexical level leaves.
use facet_os.Prelude.{
  ℕ, zero, suc, ◌-◌, ◌≤◌, ◌<◌, ◌≡◌, refl, inl, inr, Bool, true, false, some, [], ◌∷◌, arith, ◌==◌,
  if◌then◌else◌, Bool-cases, Option-cases, length, Bytes,
}
use facet_os.Config.Cursor.{
  Cursor, Parsed, current_of, current, after, take_from, take_byte, skip_comment, is_space,
  skip_from, skip_space_and_comments,
}

pub after-rest : (c : ℕ) (rest : Bytes) (p : Cursor) → (after c rest p).rest ≡ rest
after-rest c rest p = elim (Bool-cases (c == b'\n')) [ inl e ↦ rw e | inr e ↦ rw e ]

abbrev pub left : Cursor → ℕ
left p = length p.rest

-- a result with a property, and at most `n` bytes left behind it
abbrev pub Reads : {A : Type 0} → (A → Type 0) → ℕ → Parsed A → Type 0
Reads P n (inl d) = Unit
Reads P n (inr (a, p)) = P a × (left p ≤ n)

take_from-left :
    (text : Bytes) (p : Cursor) → p.rest ≡ text → left (take_from text p).1 ≡ length text - 1
take_from-left [] p e = rw e
take_from-left (c ∷ rest) p e = rw (after-rest c rest p) (omega arith)

pub take_byte-left : (p : Cursor) → left (take_byte p).1 ≡ left p - 1
take_byte-left p = take_from-left p.rest p refl

pub current-left : (p : Cursor) {c : ℕ} → current p ≡ some c → 0 < left p
current-left p e = by_text p.rest e
  where
    by_text : (text : Bytes) {c : ℕ} → current_of text ≡ some c → 0 < length text
    by_text [] e = cc
    by_text (d ∷ rest) e = omega arith

if-left :
    (test : Bool) (p q : Cursor) {n : ℕ}
    → left p ≤ n
    → left q ≤ n
    → left (if test then p else q) ≤ n
if-left true p q h k = h
if-left false p q h k = k

skip_comment-left :
    (text : Bytes) (p : Cursor) → p.rest ≡ text → left (skip_comment text p) ≤ length text
unfolding skip_comment
skip_comment-left [] p e = rw e (omega arith)
skip_comment-left (c ∷ rest) p e =
    if-left (c == b'\n') p (skip_comment rest (after c rest p)) (rw e (omega arith))
      (suc_le (skip_comment-left rest (after c rest p) (after-rest c rest p)))
  where
    suc_le : {m n : ℕ} → m ≤ n → m ≤ suc n
    suc_le k = omega arith

skip_from-left :
    (fuel : ℕ) (allow_newline : Bool) (p : Cursor) → left (skip_from fuel allow_newline p) ≤ left p
unfolding skip_from
skip_from-left zero b p = omega arith
skip_from-left (suc fuel) b p = elim (Option-cases (current p)) [
  | inl e ↦ rw (e, skip_from) (omega arith)
  | inr (c, e) ↦
      rw (e, skip_from)
        (if-left (is_space b c) _ _
          (omega (arith, skip_from-left fuel b (take_byte p).1, take_byte-left p))
          (if-left (c == b'#') _ _
            (if-left b _ _
              (omega (
                arith,
                skip_from-left fuel b (skip_comment p.rest p),
                skip_comment-left p.rest p refl,
              ))
              (skip_comment-left p.rest p refl))
            (omega arith)))
]

pub skip-left :
    (allow_newline : Bool) (p : Cursor) → left (skip_space_and_comments allow_newline p) ≤ left p
unfolding skip_space_and_comments
skip-left b p = skip_from-left (length p.rest) b p
