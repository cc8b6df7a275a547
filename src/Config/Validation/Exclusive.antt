-- ===== src/Config/Validation/Exclusive.antt =====
-- src/config.c, validate_required: the terminals that domains take.
use facet_os.Prelude.{
  ℕ, ◌≡◌, refl, sym, ap, ◌∙◌, subst, inl, inr, Bool, true, not, ◌&&◌, ◌||◌, some, List, [], ◌∷◌,
  ◌++◌, map, append-nil, append_assoc, arith, get_elem?, ◌==◌,
}
use facet_os.Config.Cursor.{schema, duplicate, unresolved_reference}
use facet_os.Config.Schema.Checks.{Checked, ensure}
use facet_os.Config.Schema.Gives.{Gives, Gives->>=, Gives-any, Gives-ensure, Gives-eq}
use facet_os.Config.Schema.Records.{Terminal, Domain, SystemConfig}
use facet_os.Config.Schema.Tables.{Document}
use facet_os.Config.Validation.{check_domains, validate_required}
use facet_os.Config.Validation.Definitions.{nowhere, text_of, list_of, is_empty, any}
use facet_os.Config.Validation.Terminals.{
  is_native, is_posix, has_expected, empty_if_given, knows_run_as, device_taken, reference_parts,
  same_terminal, is_assigned, resolve_terminal, check_terminal, check_terminals,
}
use facet_os.Config.Validation.Domains.{check_domain}
use facet_os.Config.Validation.Facts.{
  not-true, DomainFacts, check_domain-Facts, ConfigFacts, validate_required-Facts,
}
use facet_os.Config.Validation.Apart.{any-append, any-map, Apart, Apart-none, Apart-add}

-- the seat and the terminal that an assignment stands for
abbrev pub place_of : Terminal → ℕ × ℕ
place_of t = (t.seat_index, t.terminal_index)

abbrev pub placed : List Terminal → List (ℕ × ℕ)
placed ts = map place_of ts

-- those of all assignments, in their order
abbrev pub places : List Domain → List (ℕ × ℕ)
places [] = []
places (d ∷ ds) = placed (list_of d.terminals) ++ places ds

abbrev same_place : ℕ × ℕ → ℕ × ℕ → Bool
same_place (k, m) (k', m') = k' == k && m' == m

same_place_symm : (p q : ℕ × ℕ) → same_place p q ≡ same_place q p
same_place_symm (k, m) (k', m') = ground arith

same_place_refl : (p : ℕ × ℕ) → same_place p p ≡ true
same_place_refl (k, m) = ground arith

any-places :
    (p : ℕ × ℕ) (ds : List Domain)
    → any (λ (d : Domain). any (same_terminal p) (list_of d.terminals)) ds
      ≡ any (same_place p) (places ds)
any-places p [] = refl
any-places p (d ∷ ds) =
    rw
      (
        any-append (same_place p) (placed (list_of d.terminals)) (places ds),
        any-map (same_place p) place_of (list_of d.terminals),
        any-places p ds,
      )
      refl

is_assigned-any :
    (ds : List Domain) (before : List Terminal) (p : ℕ × ℕ)
    → is_assigned ds before p ≡ any (same_place p) (places ds ++ placed before)
is_assigned-any ds before p =
    rw
      (
        any-append (same_place p) (places ds) (placed before),
        any-map (same_place p) place_of before,
        any-places p ds,
      )
      refl

map-append : {A B : Type 0} (f : A → B) (xs ys : List A) → map f (xs ++ ys) ≡ map f xs ++ map f ys
map-append f [] ys = refl
map-append {B = B} f (x ∷ xs) ys = ap (λ (zs : List B). f x ∷ zs) (map-append f xs ys)

places-append : (ds es : List Domain) → places (ds ++ es) ≡ places ds ++ places es
places-append [] es = refl
places-append (d ∷ ds) es =
    ap (λ (zs : List (ℕ × ℕ)). placed (list_of d.terminals) ++ zs) (places-append ds es)
    ∙ sym (append_assoc (placed (list_of d.terminals)) (places ds) (places es))

module _ (ds : List Domain) where
  abbrev Exclusive : List Terminal → Type 0
  Exclusive ts = Apart same_place (places ds ++ placed ts)

  check_terminal-Exclusive :
      (c : SystemConfig) (d : Domain) (before : List Terminal) (t : Terminal)
      → Exclusive before
      → Gives (λ t'. Exclusive (before ++ t' ∷ [])) (check_terminal c ds d before t)
  unfolding check_terminal
  check_terminal-Exclusive c d before t h =
      Gives-any _ (ensure (has_expected (is_native d.personality) t) schema nowhere) _ λ e.
        Gives-any _
          (ensure
            (not (
              is_empty (text_of t.reference)
              || empty_if_given t.initial_process
              || empty_if_given t.device_name))
            schema nowhere)
          _
          λ f.
            Gives-any _
              (ensure (knows_run_as c.users (list_of d.users) t.run_as) unresolved_reference
                nowhere)
              _
              λ g.
                Gives-any _
                  (ensure (not (is_posix d.personality && device_taken before t)) duplicate nowhere)
                  _
                  λ i.
                    Gives-any _ (resolve_terminal c (reference_parts (text_of t.reference))) _
                      λ place.
                        Gives-ensure _ (not (is_assigned ds before place)) duplicate nowhere _ λ k.
                          subst (Apart same_place)
                            (append_assoc (places ds) (placed before) (place ∷ [])
                              ∙ ap (λ (zs : List (ℕ × ℕ)). places ds ++ zs)
                                  (sym (map-append place_of before _)))
                            (Apart-add same_place same_place_symm (places ds ++ placed before) place
                              h (sym (is_assigned-any ds before place) ∙ not-true _ k))

  check_terminals-Exclusive :
      (c : SystemConfig) (d : Domain) (before ts : List Terminal)
      → Exclusive before
      → Gives Exclusive (check_terminals c ds d before ts)
  unfolding check_terminals
  check_terminals-Exclusive c d before [] h = h
  check_terminals-Exclusive c d before (t ∷ ts) h =
      Gives->>= (λ t'. Exclusive (before ++ t' ∷ [])) Exclusive (check_terminal c ds d before t) _
        (check_terminal-Exclusive c d before t h)
        λ t' k. check_terminals-Exclusive c d (before ++ t' ∷ []) ts k

  check_domain-Exclusive :
      (c : SystemConfig) (d : Domain)
      → Apart same_place (places ds)
      → Gives (λ d'. Apart same_place (places (ds ++ d' ∷ []))) (check_domain c ds d)
  check_domain-Exclusive c d h = by_facts (check_domain c ds d) (check_domain-Facts c ds d)
    where
      exclusive : (d' : Domain) → DomainFacts c ds d d' → Apart same_place (places (ds ++ d' ∷ []))
      exclusive d' k =
          subst (λ (e : Domain). Apart same_place (places (ds ++ e ∷ []))) (sym k.result)
            (subst (Apart same_place)
              (ap (λ (zs : List (ℕ × ℕ)). places ds ++ zs) (sym (append-nil (placed k.terminals)))
                ∙ sym (places-append ds _))
              (Gives-eq Exclusive (check_terminals c ds d [] (list_of d.terminals))
                (check_terminals-Exclusive c d [] (list_of d.terminals)
                  (subst (Apart same_place) (sym (append-nil (places ds))) h))
                k.terminals_checked))

      by_facts :
          (o : Checked Domain)
          → Gives (DomainFacts c ds d) o
          → Gives (λ d'. Apart same_place (places (ds ++ d' ∷ []))) o
      by_facts (inl e) k = tt
      by_facts (inr d') k = exclusive d' k

check_domains-Exclusive :
    (c : SystemConfig) (before ds : List Domain)
    → Apart same_place (places before)
    → Gives (λ ds'. Apart same_place (places ds')) (check_domains c before ds)
unfolding check_domains
check_domains-Exclusive c before [] h = h
check_domains-Exclusive c before (d ∷ ds) h =
    Gives->>= (λ d'. Apart same_place (places (before ++ d' ∷ []))) _ (check_domain c before d) _
      (check_domain-Exclusive before c d h)
      λ d' k. check_domains-Exclusive c (before ++ d' ∷ []) ds k

-- In a configuration that is accepted, two assignments of a terminal to a domain that stand for the
-- same terminal of the same seat are one assignment, wherever the two stand.
pub validate_required-exclusive :
    (d : Document) (c : SystemConfig) (i j : ℕ) (p : ℕ × ℕ)
    → validate_required d ≡ inr c
    → get_elem? (places c.domains) i ≡ some p
    → get_elem? (places c.domains) j ≡ some p
    → i ≡ j
validate_required-exclusive d c i j p e hi hj =
    let facts = Gives-eq (ConfigFacts d) (validate_required d) (validate_required-Facts d) e in
    Gives-eq (λ ds. Apart same_place (places ds)) (check_domains d.config [] d.config.domains)
      (check_domains-Exclusive d.config [] d.config.domains (Apart-none same_place))
      facts.domains_checked i j p p hi hj (same_place_refl p)
