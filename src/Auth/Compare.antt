-- ===== src/Auth/Compare.antt =====
-- src/dominit0/auth.c: the comparison in constant time.
use facet_os.Prelude.{
  sym, ◌↔◌, ℕ, ◌≡◌, refl, ap, ◌∙◌, Bool, true, [], ◌∷◌, arith, bit_or, bit_xor, ◌==◌, ==_iff,
  length, Bytes,
}
use facet_os.Prelude.Bits.{bit_or-zero, bit_xor-zero, bit_xor_self}

-- The loop, over the bytes of the two. Its accumulator holds a byte, as `|` and `^` of bytes do.
pub difference : ℕ → Bytes → Bytes → ℕ
difference d (a ∷ left) (b ∷ right) = difference (bit_or d (bit_xor a b)) left right
difference d _ _ = d

-- `constant_time_equal`, for two buffers of `size` bytes
unfoldable pub constant_time_equal : Bytes → Bytes → Bool
unfolding difference
constant_time_equal left right = difference 0 left right == 0

difference-zero :
    (d : ℕ) (left right : Bytes)
    → length left ≡ length right
    → difference d left right ≡ 0
    → (d ≡ 0) × (left ≡ right)
unfolding difference
difference-zero d [] [] e h = (h, refl)
difference-zero d [] (b ∷ right) e h = absurd (omega (arith, e))
difference-zero d (a ∷ left) [] e h = absurd (omega (arith, e))
difference-zero d (a ∷ left) (b ∷ right) e h =
    let (x, y) = difference-zero (bit_or d (bit_xor a b)) left right (omega (arith, e)) h in
    let (z, w) = bit_or-zero d (bit_xor a b) x in
    (z, ap (λ (c : ℕ). c ∷ left) (bit_xor-zero a b w) ∙ ap (λ (t : Bytes). b ∷ t) y)

difference_self : (left : Bytes) → difference 0 left left ≡ 0
unfolding difference
difference_self [] = refl
difference_self (a ∷ left) = rw (bit_xor_self a) (difference_self left)

-- On two buffers of one length, the comparison in constant time is true exactly when they hold the
-- same bytes.
pub constant_time_equal_iff :
    (left right : Bytes)
    → length left ≡ length right
    → (constant_time_equal left right ≡ true) ↔ (left ≡ right)
unfolding constant_time_equal
constant_time_equal_iff left right h =
    (λ e. (difference-zero 0 left right h ((==_iff (difference 0 left right) 0).0 e)).1, same)
  where
    same : left ≡ right → (difference 0 left right == 0) ≡ true
    same e =
        (==_iff (difference 0 left right) 0).1
          (ap (λ (r : Bytes). difference 0 left r) (sym e) ∙ difference_self left)
