-- ===== src/Environment/Stable.antt =====
-- src/dominit0/environment.c: sequences of calls that bind names.
use facet_os.Prelude.{
  ℕ, ◌≡◌, ◌≤◌, refl, sym, subst, Bool, true, false, Option, none, some, List, [], ◌∷◌, ◌++◌, arith,
  if◌then◌else◌, length, length-append, Bytes, bytes_equal, codes,
}
use facet_os.Prelude.Monad.{Result, ok, err, invalid_argument}
use facet_os.Environment.{
  Binding, Environment, max_extra_bindings, Iids, is_name, bound, binding_of, process_binding,
  bind_named, bind_page_allocator, bind_file_store,
}
use facet_os.Environment.Bindings.{
  AllHandled, new_binding, if-kept, process_binding-kept, bind_named-Accepts,
}

-- a call that binds something and succeeds
pub data Step (iids : Iids) : Environment → Environment → Type 0 where
  named :
      {e e' : Environment} (name : Bytes) (iid : ℕ) (o : Option ℕ)
      → bind_named iids e name iid o ≡ some e'
      → Step iids e e'
  pages : {e e' : Environment} (o : Option ℕ) → bind_page_allocator e o ≡ some e' → Step iids e e'
  files :
      {e e' : Environment} (image o : Option ℕ)
      → bind_file_store e image o ≡ some e'
      → Step iids e e'

pub data Steps (iids : Iids) (e : Environment) : Environment → Type 0 where
  no_step : Steps iids e e
  then_step : {e' e'' : Environment} → Steps iids e e' → Step iids e' e'' → Steps iids e e''

-- the extra bindings within their array, each with a handle
abbrev pub IsSound : Environment → Type 0
IsSound e = (length e.extra_bindings ≤ max_extra_bindings) × AllHandled e.extra_bindings

AllHandled-add :
    (bs : List Binding) (name : Bytes) (iid object : ℕ)
    → AllHandled bs
    → AllHandled (bs ++ new_binding name iid object ∷ [])
AllHandled-add [] name iid object h = (refl, tt)
AllHandled-add (b ∷ bs) name iid object h = (h.0, AllHandled-add bs name iid object h.1)

-- what binding the page allocator or the file store leaves
abbrev GivesPages : Environment → Environment → Type 0
GivesPages e e' =
    (o : ℕ) × (e.page_allocator_handle ≡ none) × (e' ≡ record e { page_allocator_handle = some o })

abbrev GivesFiles : Environment → Environment → Type 0
GivesFiles e e' =
    (i o : ℕ) × (e.file_store_handle ≡ none)
    × (e' ≡ record e { initrd = some i; file_store_handle = some o })

bind_page_allocator-Gives :
    (e : Environment) (o : Option ℕ) (e' : Environment)
    → bind_page_allocator e o ≡ some e'
    → GivesPages e e'
unfolding bind_page_allocator
bind_page_allocator-Gives e none e' h = cc
bind_page_allocator-Gives e (some o) e' h = by_slot e.page_allocator_handle refl h
  where
    by_slot :
        (slot : Option ℕ)
        → e.page_allocator_handle ≡ slot
        → (elim slot [ none ↦ some (record e { page_allocator_handle = some o }) | some p ↦ none ])
          ≡ some e'
        → GivesPages e e'
    by_slot none q h = (o, q, some_eq h)
      where
        some_eq : {x y : Environment} → some x ≡ some y → y ≡ x
        some_eq h = cc
    by_slot (some p) q h = cc

bind_file_store-Gives :
    (e : Environment) (image o : Option ℕ) (e' : Environment)
    → bind_file_store e image o ≡ some e'
    → GivesFiles e e'
unfolding bind_file_store
bind_file_store-Gives e none o e' h = cc
bind_file_store-Gives e (some i) none e' h = cc
bind_file_store-Gives e (some i) (some o) e' h = by_slot e.file_store_handle refl h
  where
    by_slot :
        (slot : Option ℕ)
        → e.file_store_handle ≡ slot
        → (elim slot [
          | none ↦ some (record e { initrd = some i; file_store_handle = some o })
          | some p ↦ none
        ])
          ≡ some e'
        → GivesFiles e e'
    by_slot none q h = (i, o, q, some_eq h)
      where
        some_eq : {x y : Environment} → some x ≡ some y → y ≡ x
        some_eq h = cc
    by_slot (some p) q h = cc

module _ (iids : Iids) where
  Step-IsSound : {e e' : Environment} → Step iids e e' → IsSound e → IsSound e'
  Step-IsSound (named {e = e} {e' = e'} name iid o h) s =
      let (object, a, b, c, d, f) = bind_named-Accepts iids e name iid o e' h in
      subst IsSound (sym f) (
        ground (arith, c, s.0, length-append e.extra_bindings (new_binding name iid object ∷ [])),
        AllHandled-add e.extra_bindings name iid object s.1,
      )
  Step-IsSound (pages {e = e} {e' = e'} o h) s =
      let (p, a, f) = bind_page_allocator-Gives e o e' h in subst IsSound (sym f) s
  Step-IsSound (files {e = e} {e' = e'} image o h) s =
      let (i, p, a, f) = bind_file_store-Gives e image o e' h in subst IsSound (sym f) s

  -- Whatever is bound to a sound environment, the extra bindings stay within their array and none
  -- of their handles is null.
  pub Steps-IsSound : {e e' : Environment} → Steps iids e e' → IsSound e → IsSound e'
  Steps-IsSound no_step s = s
  Steps-IsSound (then_step r t) s = Step-IsSound t (Steps-IsSound r s)

  if-right :
      (test : Bool) (z x y : Result (ℕ × ℕ)) (r : ℕ × ℕ)
      → (z ≡ ok r → x ≡ ok r)
      → (if test then z else y) ≡ ok r
      → (if test then x else y) ≡ ok r
  if-right true z x y r k h = k h
  if-right false z x y r k h = h

  -- a slot that is empty answers to no call
  empty_slot :
      (slot : Option ℕ) (iid o : ℕ) (r : ℕ × ℕ)
      → slot ≡ none
      → bound iid slot ≡ ok r
      → bound iid (some o) ≡ ok r
  empty_slot none iid o r e h = cc
  empty_slot (some n) iid o r e h = cc

  by_name_kept :
      (e e' : Environment) (name : Bytes) (r : ℕ × ℕ)
      → (binding_of iids e name ≡ ok r → binding_of iids e' name ≡ ok r)
      → process_binding iids e (some name) ≡ ok r
      → process_binding iids e' (some name) ≡ ok r
  unfolding process_binding
  by_name_kept e e' name r k h = by_test (is_name name) h
    where
      by_test :
          (b : Bool)
          → (if b then binding_of iids e name else err invalid_argument) ≡ ok r
          → (if b then binding_of iids e' name else err invalid_argument) ≡ ok r
      by_test true h = k h
      by_test false h = h

  pages-kept :
      (e : Environment) (o : ℕ) (name : Bytes) (r : ℕ × ℕ)
      → e.page_allocator_handle ≡ none
      → binding_of iids e name ≡ ok r
      → binding_of iids (record e { page_allocator_handle = some o }) name ≡ ok r
  unfolding binding_of
  pages-kept e o name r q = if-kept (bytes_equal name (codes "logger")) _ _ _ r (
      if-right (bytes_equal name (codes "memory.pages")) _ _ _ r
        (empty_slot e.page_allocator_handle iids.page_allocator_iid o r q))

  files-kept :
      (e : Environment) (image o : ℕ) (name : Bytes) (r : ℕ × ℕ)
      → e.file_store_handle ≡ none
      → binding_of iids e name ≡ ok r
      → binding_of iids (record e { initrd = some image; file_store_handle = some o }) name ≡ ok r
  unfolding binding_of
  files-kept e image o name r q = if-kept (bytes_equal name (codes "logger")) _ _ _ r (
      if-kept (bytes_equal name (codes "memory.pages")) _ _ _ r (
        if-kept (bytes_equal name (codes "domain.config")) _ _ _ r (
          if-right (bytes_equal name (codes "files")) _ _ _ r
            (empty_slot e.file_store_handle iids.file_store_iid o r q))))

  Step-kept :
      {e e' : Environment} (name : Bytes) (r : ℕ × ℕ)
      → Step iids e e'
      → process_binding iids e (some name) ≡ ok r
      → process_binding iids e' (some name) ≡ ok r
  Step-kept name r (named {e = e} {e' = e'} n iid o h) k =
      let (object, a, b, c, d, f) = bind_named-Accepts iids e n iid o e' h in
      subst (λ (x : Environment). process_binding iids x (some name) ≡ ok r) (sym f)
        (process_binding-kept iids e (new_binding n iid object ∷ []) name r k)
  Step-kept name r (pages {e = e} {e' = e'} o h) k =
      let (p, a, f) = bind_page_allocator-Gives e o e' h in
      subst (λ (x : Environment). process_binding iids x (some name) ≡ ok r) (sym f)
        (by_name_kept e (record e { page_allocator_handle = some p }) name r
          (pages-kept e p name r a) k)
  Step-kept name r (files {e = e} {e' = e'} image o h) k =
      let (i, p, a, f) = bind_file_store-Gives e image o e' h in
      subst (λ (x : Environment). process_binding iids x (some name) ≡ ok r) (sym f)
        (by_name_kept e (record e { initrd = some i; file_store_handle = some p }) name r
          (files-kept e i p name r a) k)

  -- Once a name of an environment leads to an interface and an object, it leads to them after any
  -- number of calls that bind other things.
  pub Steps-kept :
      {e e' : Environment} (name : Bytes) (r : ℕ × ℕ)
      → Steps iids e e'
      → process_binding iids e (some name) ≡ ok r
      → process_binding iids e' (some name) ≡ ok r
  Steps-kept name r no_step h = h
  Steps-kept name r (then_step s t) h = Step-kept name r t (Steps-kept name r s h)
