-- ===== src/Prelude/Text.antt =====
-- Byte strings compared.
use Prim.Native.Nat.{ℕ}
use Prim.Native.Char.{code}
use Prim.Native.String.{String}
use mathlib.Core.Bool.{Bool, true, false, ◌&&◌}
use mathlib.Core.List.{List, [], ◌∷◌}
use mathlib.Core.Logic.{◌↔◌}
use mathlib.Core.Path.{◌≡◌, refl}
use native.Mathlib.Omega.{arith}
use facet_os.Prelude.Tests.{◌==◌}

-- Equal length and equal bytes, as `strlen` with `memcmp`, and `strcmp`, test it.
abbrev pub bytes_equal : List ℕ → List ℕ → Bool
bytes_equal [] [] = true
bytes_equal (x ∷ xs) (y ∷ ys) = x == y && bytes_equal xs ys
bytes_equal _ _ = false

pub bytes_equal_iff : (xs ys : List ℕ) → (bytes_equal xs ys ≡ true) ↔ (xs ≡ ys)
bytes_equal_iff [] [] = ground arith
bytes_equal_iff (x ∷ xs) [] = ground arith
bytes_equal_iff [] (y ∷ ys) = ground arith
bytes_equal_iff (x ∷ xs) (y ∷ ys) = ground (arith, bytes_equal_iff xs ys)

pub bytes_equal_refl : (xs : List ℕ) → bytes_equal xs xs ≡ true
bytes_equal_refl xs = (bytes_equal_iff xs xs).1 refl

pub bytes_equal_symm : (xs ys : List ℕ) → bytes_equal xs ys ≡ bytes_equal ys xs
bytes_equal_symm [] [] = refl
bytes_equal_symm (x ∷ xs) [] = refl
bytes_equal_symm [] (y ∷ ys) = refl
bytes_equal_symm (x ∷ xs) (y ∷ ys) = ground (arith, bytes_equal_symm xs ys)

-- The bytes of a literal, which is ASCII.
abbrev pub codes : String → List ℕ
codes String.[] = []
codes (String.◌∷◌ c s) = code c ∷ codes s
