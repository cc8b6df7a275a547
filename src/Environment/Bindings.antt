-- ===== src/Environment/Bindings.antt =====
-- src/dominit0/environment.c: one binding more.
use facet_os.Prelude.{
  ℕ, ◌≡◌, refl, Bool, true, false, not, ◌||◌, Option, none, some, List, [], ◌∷◌, ◌++◌, ◌==◌,
  if◌then◌else◌, length, Bytes, bytes_equal, bytes_equal_refl, codes,
}
use facet_os.Prelude.Monad.{Result, ok, err, invalid_argument}
use facet_os.Environment.{
  Binding, Environment, max_extra_bindings, Iids, is_name, bound, find_extra, binding_of,
  process_binding, is_ok, bind_named,
}

abbrev pub new_binding : Bytes → ℕ → ℕ → Binding
new_binding name iid object = record { name = name; primary_iid = iid; handle = some object }

abbrev pub is_some : Option ℕ → Bool
is_some none = false
is_some (some n) = true

-- no handle of the extra bindings is null
abbrev pub AllHandled : List Binding → Type 0
AllHandled [] = Unit
AllHandled (b ∷ bs) = (is_some b.handle ≡ true) × AllHandled bs

-- a name found stays found behind more bindings
find_extra-kept :
    (bs cs : List Binding) (name : Bytes) (r : ℕ × ℕ)
    → find_extra bs name ≡ ok r
    → find_extra (bs ++ cs) name ≡ ok r
find_extra-kept [] cs name r h = cc
find_extra-kept (b ∷ bs) cs name r h =
    by_name (bytes_equal name b.name) (find_extra-kept bs cs name r) h
  where
    by_name :
        (test : Bool)
        → (find_extra bs name ≡ ok r → find_extra (bs ++ cs) name ≡ ok r)
        → (if test then bound b.primary_iid b.handle else find_extra bs name) ≡ ok r
        → (if test then bound b.primary_iid b.handle else find_extra (bs ++ cs) name) ≡ ok r
    by_name true kept h = h
    by_name false kept h = kept h

pub find_extra-new :
    (bs : List Binding) (name : Bytes) (iid object : ℕ)
    → AllHandled bs
    → is_ok (find_extra bs name) ≡ false
    → find_extra (bs ++ new_binding name iid object ∷ []) name ≡ ok (iid, object)
find_extra-new [] name iid object h k = rw (bytes_equal_refl name) refl
find_extra-new (b ∷ bs) name iid object h k =
    by_name (bytes_equal name b.name) (find_extra-new bs name iid object h.1) k
  where
    handled : (o : Option ℕ) → is_some o ≡ true → is_ok (bound b.primary_iid o) ≡ true
    handled none e = cc
    handled (some n) e = refl

    clash : {x : Bool} → x ≡ true → x ≡ false → ⊥
    clash e f = cc

    by_name :
        (test : Bool)
        → (is_ok (find_extra bs name) ≡ false
            → find_extra (bs ++ new_binding name iid object ∷ []) name ≡ ok (iid, object))
        → is_ok (if test then bound b.primary_iid b.handle else find_extra bs name) ≡ false
        → (if test
            then bound b.primary_iid b.handle
            else find_extra (bs ++ new_binding name iid object ∷ []) name)
          ≡ ok (iid, object)
    by_name true later k = absurd (clash (handled b.handle h.0) k)
    by_name false later k = later k

pub if-kept :
    (test : Bool) (z x y : Result (ℕ × ℕ)) (r : ℕ × ℕ)
    → (x ≡ ok r → y ≡ ok r)
    → (if test then z else x) ≡ ok r
    → (if test then z else y) ≡ ok r
if-kept true z x y r k h = h
if-kept false z x y r k h = k h

module _ (iids : Iids) where
  abbrev pub with_extra : Environment → List Binding → Environment
  with_extra e cs = record e { extra_bindings = e.extra_bindings ++ cs }

  pub process_binding-kept :
      (e : Environment) (cs : List Binding) (name : Bytes) (r : ℕ × ℕ)
      → process_binding iids e (some name) ≡ ok r
      → process_binding iids (with_extra e cs) (some name) ≡ ok r
  unfolding process_binding
  process_binding-kept e cs name r h = by_test (is_name name) h
    where
      inside : binding_of iids e name ≡ ok r → binding_of iids (with_extra e cs) name ≡ ok r
      inside = if-kept (bytes_equal name (codes "logger")) _ _ _ r (
          if-kept (bytes_equal name (codes "memory.pages")) _ _ _ r (
            if-kept (bytes_equal name (codes "domain.config")) _ _ _ r (
              if-kept (bytes_equal name (codes "files")) _ _ _ r
                (find_extra-kept e.extra_bindings cs name r))))

      by_test :
          (b : Bool)
          → (if b then binding_of iids e name else err invalid_argument) ≡ ok r
          → (if b then binding_of iids (with_extra e cs) name else err invalid_argument) ≡ ok r
      by_test true h = inside h
      by_test false h = h

  -- what a binding that is accepted has passed
  abbrev pub Accepts : Environment → Bytes → ℕ → Option ℕ → Environment → Type 0
  Accepts e name iid o e' =
      (object : ℕ) × (o ≡ some object)
      × (is_name name ≡ true)
      × ((length e.extra_bindings == max_extra_bindings) ≡ false)
      × (is_ok (process_binding iids e (some name)) ≡ false)
      × (e' ≡ with_extra e (new_binding name iid object ∷ []))

  pub bind_named-Accepts :
      (e : Environment) (name : Bytes) (iid : ℕ) (o : Option ℕ) (e' : Environment)
      → bind_named iids e name iid o ≡ some e'
      → Accepts e name iid o e'
  unfolding bind_named
  bind_named-Accepts e name iid none e' h = cc
  bind_named-Accepts e name iid (some object) e' h =
      by_tests (is_name name) refl (length e.extra_bindings == max_extra_bindings) refl
        (is_ok (process_binding iids e (some name))) refl h
    where
      by_tests :
          (a : Bool)
          → is_name name ≡ a
          → (b : Bool) → (length e.extra_bindings == max_extra_bindings) ≡ b
          → (c : Bool) → is_ok (process_binding iids e (some name)) ≡ c
          → (if not a || b
              then none
              else if c
              then none
              else some (with_extra e (new_binding name iid object ∷ [])))
            ≡ some e'
          → Accepts e name iid (some object) e'
      by_tests false p b q c r h = cc
      by_tests true p true q c r h = cc
      by_tests true p false q true r h = cc
      by_tests true p false q false r h = (object, refl, p, q, r, some_eq h)
        where
          some_eq : {x y : Environment} → some x ≡ some y → y ≡ x
          some_eq h = cc
