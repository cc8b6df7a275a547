-- ===== src/Config/Validation/Roots.antt =====
-- src/config.c: the root of the domains, the providers of the authentication sources and the users.
use facet_os.Prelude.{
  ℕ, zero, suc, ◌+◌, ◌≡◌, ◌≢◌, refl, sym, ap, ◌∙◌, subst, inl, inr, Bool, true, Option, none, some,
  List, [], ◌∷◌, arith, get_elem?, ==_iff, if◌then◌else◌, Bool-cases, Option-cases,
}
use facet_os.Config.Schema.Gives.{Gives, Gives->>=, Gives-eq}
use facet_os.Config.Schema.Records.{AuthenticationSource, Domain, SystemConfig}
use facet_os.Config.Schema.Tables.{Document}
use facet_os.Config.Validation.{
  count_roots, last_root, find_provider, check_providers, validate_required,
}
use facet_os.Config.Validation.Definitions.{is_number}
use facet_os.Config.Validation.Domains.{has_id}
use facet_os.Config.Validation.Apart.{find_index-get_elem?}
use facet_os.Config.Validation.Facts.{ConfigFacts, validate_required-Facts}

last_root-none :
    (i found : ℕ) (ds : List Domain) → count_roots ds ≡ 0 → last_root i found ds ≡ found
last_root-none i found [] h = refl
last_root-none i found (d ∷ ds) h = elim (Bool-cases (has_id 0 d)) [
  | inl e ↦ absurd (
      some_root (count_roots ds)
        (subst (λ (b : Bool). (if b then suc (count_roots ds) else count_roots ds) ≡ 0) e h))
  | inr e ↦ rw e (
      last_root-none (i + 1) found ds
        (subst (λ (b : Bool). (if b then suc (count_roots ds) else count_roots ds) ≡ 0) e h))
]
  where
    some_root : (n : ℕ) → suc n ≢ 0
    some_root n h = omega arith

-- the root stands at an index
abbrev RootAt : ℕ → ℕ → List Domain → Type 0
RootAt i k ds =
    (j : ℕ) × (r : Domain) × (k ≡ i + j) × (get_elem? ds j ≡ some r) × (has_id 0 r ≡ true)

last_root-RootAt :
    (i found : ℕ) (ds : List Domain) → count_roots ds ≡ 1 → RootAt i (last_root i found ds) ds
last_root-RootAt i found [] h = absurd (omega arith)
last_root-RootAt i found (d ∷ ds) h = elim (Bool-cases (has_id 0 d)) [
  | inl e ↦
      let n : suc (count_roots ds) ≡ 1 =
        subst (λ (b : Bool). (if b then suc (count_roots ds) else count_roots ds) ≡ 1) e h in
      rw e (0, d, last_root-none (i + 1) i ds (omega (arith, n)) ∙ omega arith, refl, e)
  | inr e ↦
      let n : count_roots ds ≡ 1 =
        subst (λ (b : Bool). (if b then suc (count_roots ds) else count_roots ds) ≡ 1) e h in
      rw e (later (last_root (i + 1) found ds) (last_root-RootAt (i + 1) found ds n))
]
  where
    later : (k : ℕ) → RootAt (i + 1) k ds → RootAt i k (d ∷ ds)
    later k (j, r, e, at, is) = (suc j, r, omega (arith, e), at, is)

-- In a configuration that is accepted, the domain at `root_index` exists and has the number 0.
pub validate_required-root :
    (d : Document) (c : SystemConfig)
    → validate_required d ≡ inr c
    → (r : Domain) × (get_elem? c.domains c.root_index ≡ some r) × (r.id ≡ some 0)
validate_required-root d c e =
    let facts = Gives-eq (ConfigFacts d) (validate_required d) (validate_required-Facts d) e in
    let (j, r, at, found, is) = last_root-RootAt 0 0 c.domains facts.one_root in
    let place : j ≡ c.root_index = sym (facts.root_is ∙ at ∙ omega arith) in
    (r, subst (λ (n : ℕ). get_elem? c.domains n ≡ some r) place found, number r.id is)
  where
    number : (o : Option ℕ) → is_number 0 o ≡ true → o ≡ some 0
    number none h = cc
    number (some n) h = ap some ((==_iff n 0).0 h)

-- a source whose provider is at its index
abbrev pub HasProvider : List Domain → AuthenticationSource → Type 0
HasProvider ds source =
    (provider : Domain) × (get_elem? ds source.provider_domain_index ≡ some provider)
    × (provider.id ≡ source.provider_domain_id)

abbrev AllProvided : List Domain → List AuthenticationSource → Type 0
AllProvided ds [] = Unit
AllProvided ds (source ∷ sources) = HasProvider ds source × AllProvided ds sources

find_provider-found :
    (ds : List Domain) (o : Option ℕ) (i : ℕ)
    → find_provider ds o ≡ some i
    → (provider : Domain) × (get_elem? ds i ≡ some provider) × (provider.id ≡ o)
find_provider-found ds none i h = cc
find_provider-found ds (some n) i h =
    let (provider, at, is) = find_index-get_elem? (has_id n) ds i h in
    (provider, at, number n provider.id is)
  where
    number : (n : ℕ) (o : Option ℕ) → is_number n o ≡ true → o ≡ some n
    number n none h = cc
    number n (some m) h = ap some ((==_iff m n).0 h)

check_providers-AllProvided :
    (ds : List Domain) (sources : List AuthenticationSource)
    → Gives (AllProvided ds) (check_providers ds sources)
unfolding check_providers
check_providers-AllProvided ds [] = tt
check_providers-AllProvided ds (source ∷ sources) =
    elim (Option-cases (find_provider ds source.provider_domain_id)) [
      | inl e ↦ rw (e, check_providers) tt
      | inr (i, e) ↦
          rw (e, check_providers)
            (Gives->>= (AllProvided ds) (AllProvided ds) (check_providers ds sources)
              (λ rest. inr (record source { provider_domain_index = i } ∷ rest))
              (check_providers-AllProvided ds sources)
              λ rest h. (find_provider-found ds source.provider_domain_id i e, h))
    ]

-- In a configuration that is accepted, each authentication source carries the index of the domain
-- that provides it.
pub validate_required-provider :
    (d : Document) (c : SystemConfig) (i : ℕ) (source : AuthenticationSource)
    → validate_required d ≡ inr c
    → get_elem? c.authentication_sources i ≡ some source
    → HasProvider c.domains source
validate_required-provider d c i source e h =
    let facts = Gives-eq (ConfigFacts d) (validate_required d) (validate_required-Facts d) e in
    at_index c.authentication_sources i
      (Gives-eq (AllProvided c.domains) (check_providers c.domains d.config.authentication_sources)
        (check_providers-AllProvided c.domains d.config.authentication_sources)
        facts.providers_checked)
      h
  where
    at_index :
        (sources : List AuthenticationSource) (i : ℕ)
        → AllProvided c.domains sources
        → get_elem? sources i ≡ some source
        → HasProvider c.domains source
    at_index [] i k h = cc
    at_index (x ∷ xs) zero k h = subst (HasProvider c.domains) (some_eq h) k.0
      where
        some_eq : {x y : AuthenticationSource} → some x ≡ some y → x ≡ y
        some_eq h = cc
    at_index (x ∷ xs) (suc i) k h = at_index xs i k.1 h
