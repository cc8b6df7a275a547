-- ===== src/Environment/Resolve.antt =====
-- src/dominit0/environment.c: looking up a name that was bound.
use facet_os.Prelude.{
  ℕ, ◌≡◌, refl, sym, ap, ◌∙◌, subst, ◌⊎◌, inl, inr, Bool, true, false, ◌||◌, Option, none, some, [],
  ◌∷◌, if◌then◌else◌, Bytes, bytes_equal, codes,
}
use facet_os.Prelude.Monad.{Result, ok, err, invalid_argument, invalid_handle}
use facet_os.Environment.{
  Environment, Iids, is_name, bound, binding_of, process_binding, is_ok, bind_named,
}
use facet_os.Environment.Bindings.{
  AllHandled, new_binding, find_extra-new, with_extra, bind_named-Accepts,
}
use facet_os.Environment.Stable.{IsSound}

-- one of the four names that each environment has
abbrev pub is_fixed : Bytes → Bool
is_fixed name =
    bytes_equal name (codes "logger")
    || (bytes_equal name (codes "memory.pages")
        || (bytes_equal name (codes "domain.config") || bytes_equal name (codes "files")))

-- the name leads to the object, or is a fixed one without a handle
abbrev pub Leads : Bytes → ℕ → ℕ → Result (ℕ × ℕ) → Type 0
Leads name iid object r = (r ≡ ok (iid, object)) ⊎ (is_fixed name ≡ true) × (r ≡ err invalid_handle)

module _ (name : Bytes) (iid object : ℕ) where
  if-Leads :
      (test : Bool) (i : ℕ) (slot : Option ℕ) (x y : Result (ℕ × ℕ))
      → (test ≡ true → is_fixed name ≡ true)
      → (is_ok x ≡ false → Leads name iid object y)
      → is_ok (if test then bound i slot else x) ≡ false
      → Leads name iid object (if test then bound i slot else y)
  if-Leads true i none x y f k h = inr (f refl, refl)
  if-Leads true i (some o) x y f k h = cc
  if-Leads false i slot x y f k h = k h

  or_left : (a b : Bool) → a ≡ true → (a || b) ≡ true
  or_left true b h = refl
  or_left false b h = cc

  or_right : (a b : Bool) → b ≡ true → (a || b) ≡ true
  or_right true b h = refl
  or_right false b h = h

  binding_of-Leads :
      (iids : Iids) (e : Environment)
      → AllHandled e.extra_bindings
      → is_ok (binding_of iids e name) ≡ false
      → Leads name iid object
          (binding_of iids (with_extra iids e (new_binding name iid object ∷ [])) name)
  unfolding binding_of
  binding_of-Leads iids e handled =
      let a = bytes_equal name (codes "logger") in
      let b = bytes_equal name (codes "memory.pages") in
      let c = bytes_equal name (codes "domain.config") in
      let d = bytes_equal name (codes "files") in
      if-Leads a iids.logger_iid e.logger_handle _ _ (or_left a (b || (c || d))) (
        if-Leads b iids.page_allocator_iid e.page_allocator_handle _ _
          (λ h. or_right a (b || (c || d)) (or_left b (c || d) h))
          (if-Leads c iids.domain_config_iid e.domain_config_handle _ _
            (λ h. or_right a (b || (c || d)) (or_right b (c || d) (or_left c d h)))
            (if-Leads d iids.file_store_iid e.file_store_handle _ _
              (λ h. or_right a (b || (c || d)) (or_right b (c || d) (or_right c d h)))
              (λ h. inl (find_extra-new e.extra_bindings name iid object handled h)))))

-- When a sound environment accepts a binding of a name, the name then leads to the interface and the
-- object that were bound; or it is one of the four fixed names, which had no handle, and resolving
-- it still fails with an invalid handle.
pub bind_named-Leads :
    (iids : Iids) (e e' : Environment) (name : Bytes) (iid object : ℕ)
    → IsSound e
    → bind_named iids e name iid (some object) ≡ some e'
    → Leads name iid object (process_binding iids e' (some name))
unfolding process_binding
bind_named-Leads iids e e' name iid object s h =
    let (o, a, b, c, d, f) = bind_named-Accepts iids e name iid (some object) e' h in
    let same : o ≡ object = some_eq a in
    subst (λ (x : Environment). Leads name iid object (process_binding iids x (some name)))
      (sym (f ∙ ap (λ (n : ℕ). with_extra iids e (new_binding name iid n ∷ [])) same))
      (by_name (is_name name) b d)
  where
    some_eq : {m n : ℕ} → some m ≡ some n → n ≡ m
    some_eq h = cc

    by_name :
        (valid : Bool)
        → valid ≡ true
        → is_ok (if valid then binding_of iids e name else err invalid_argument) ≡ false
        → Leads name iid object (
            if valid
            then binding_of iids (with_extra iids e (new_binding name iid object ∷ [])) name
            else err invalid_argument)
    by_name true b d = binding_of-Leads name iid object iids e s.1 d
    by_name false b d = cc
