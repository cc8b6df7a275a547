-- ===== src/Config/Validation/Apart.antt =====
-- src/config.c: the comparisons of `validate_required` in pairs, as a relation on lists.
use facet_os.Prelude.{
  ℕ, zero, suc, ◌≡◌, refl, sym, ap, ◌∙◌, subst, ◌⊎◌, inl, inr, Bool, true, false, ◌||◌, Option,
  none, some, List, [], ◌∷◌, ◌++◌, map, if◌then◌else◌, length, get_elem?,
}
use facet_os.Config.Validation.Definitions.{any, find_index}

module _ {A : Type 0} where
  pub get_elem?-snoc :
      (xs : List A) (x : A) (i : ℕ) {y : A}
      → get_elem? (xs ++ x ∷ []) i ≡ some y
      → (get_elem? xs i ≡ some y) ⊎ (i ≡ length xs) × (x ≡ y)
  get_elem?-snoc [] x zero h = inr (refl, cc)
  get_elem?-snoc [] x (suc i) h = cc
  get_elem?-snoc (z ∷ xs) x zero h = inl h
  get_elem?-snoc (z ∷ xs) x (suc i) h = elim (get_elem?-snoc xs x i h) [
    | inl e ↦ inl e
    | inr e ↦ inr (ap suc e.0, e.1)
  ]

  pub any-get_elem? :
      (f : A → Bool) (xs : List A) (i : ℕ) {x : A}
      → get_elem? xs i ≡ some x
      → f x ≡ true
      → any f xs ≡ true
  any-get_elem? f [] i h e = cc
  any-get_elem? f (y ∷ xs) zero h e = rw (some_eq h, e) refl
    where
      some_eq : {y x : A} → some y ≡ some x → y ≡ x
      some_eq h = cc
  any-get_elem? f (y ∷ xs) (suc i) h e = or_true (f y) (any-get_elem? f xs i h e)
    where
      or_true : (b : Bool) {c : Bool} → c ≡ true → (b || c) ≡ true
      or_true true h = refl
      or_true false h = h

  pub any-append : (f : A → Bool) (xs ys : List A) → any f (xs ++ ys) ≡ (any f xs || any f ys)
  any-append f [] ys = refl
  any-append f (x ∷ xs) ys = or_assoc (f x) _ _ (any-append f xs ys)
    where
      or_assoc : (a : Bool) {b : Bool} (c e : Bool) → b ≡ (c || e) → (a || b) ≡ ((a || c) || e)
      or_assoc true c e h = refl
      or_assoc false c e h = h

pub any-map :
    {A B : Type 0} (f : B → Bool) (g : A → B) (xs : List A)
    → any f (map g xs) ≡ any (λ (x : A). f (g x)) xs
any-map f g [] = refl
any-map f g (x ∷ xs) = ap (λ (b : Bool). f (g x) || b) (any-map f g xs)

module _ {A : Type 0} (same : A → A → Bool) where
  -- two elements that agree stand at one place
  abbrev pub Apart : List A → Type 0
  Apart xs =
      (i j : ℕ) (x y : A)
      → get_elem? xs i ≡ some x
      → get_elem? xs j ≡ some y
      → same x y ≡ true
      → i ≡ j

  pub Apart-none : Apart []
  Apart-none i j x y h k e = cc

  pub Apart-add :
      ((x y : A) → same x y ≡ same y x)
      → (xs : List A) (x : A) → Apart xs
      → any (same x) xs ≡ false
      → Apart (xs ++ x ∷ [])
  Apart-add symm xs x h none' i j y z hy hz e = elim (get_elem?-snoc xs x i hy) [
    | inl a ↦ elim (get_elem?-snoc xs x j hz) [
      | inl b ↦ h i j y z a b e
      | inr b ↦ clash (
          any-get_elem? (same x) xs i a (symm x y ∙ subst (λ (w : A). same y w ≡ true) (sym b.1) e))
    ]
    | inr a ↦ elim (get_elem?-snoc xs x j hz) [
      | inl b ↦
          clash (any-get_elem? (same x) xs j b (subst (λ (w : A). same w z ≡ true) (sym a.1) e))
      | inr b ↦ a.0 ∙ sym b.0
    ]
  ]
    where
      clash : any (same x) xs ≡ true → i ≡ j
      clash k = cc

module _ {A : Type 0} where
  -- each element has the property
  abbrev pub Every : (A → Type 0) → List A → Type 0
  Every P xs = (i : ℕ) (x : A) → get_elem? xs i ≡ some x → P x

  pub Every-none : (P : A → Type 0) → Every P []
  Every-none P i x h = cc

  pub Every-add : (P : A → Type 0) (xs : List A) (x : A) → Every P xs → P x → Every P (xs ++ x ∷ [])
  Every-add P xs x h k i y e = elim (get_elem?-snoc xs x i e) [
    | inl a ↦ h i y a
    | inr a ↦ subst P a.1 k
  ]

  pub find_index-get_elem? :
      (f : A → Bool) (xs : List A) (k : ℕ)
      → find_index f xs ≡ some k
      → (x : A) × (get_elem? xs k ≡ some x) × (f x ≡ true)
  find_index-get_elem? f [] k h = cc
  find_index-get_elem? f (x ∷ xs) k h =
      by_test (f x) refl (find_index f xs) (λ i g. find_index-get_elem? f xs i g) refl h
    where
      Found : ℕ → Type 0
      Found n = (y : A) × (get_elem? (x ∷ xs) n ≡ some y) × (f y ≡ true)

      some_eq : {m n : ℕ} → some m ≡ some n → m ≡ n
      some_eq h = cc

      by_test :
          (b : Bool)
          → f x ≡ b
          → (o : Option ℕ)
          → ((i : ℕ)
              → find_index f xs ≡ some i
              → (y : A) × (get_elem? xs i ≡ some y) × (f y ≡ true))
          → find_index f xs ≡ o
          → (if b then some 0 else elim o [ none ↦ none | some i ↦ some (suc i) ]) ≡ some k
          → (y : A) × (get_elem? (x ∷ xs) k ≡ some y) × (f y ≡ true)
      by_test true e o later g h = subst Found (some_eq h) (x, refl, e)
      by_test false e none later g h = cc
      by_test false e (some i) later g h = subst Found (some_eq h) (later i g)
