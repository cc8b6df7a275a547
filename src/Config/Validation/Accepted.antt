-- ===== src/Config/Validation/Accepted.antt =====
-- src/config.c: the domains of a configuration that is accepted.
use facet_os.Prelude.{
  ℕ, ◌≡◌, refl, sym, ap, ◌∙◌, subst, ◌⊎◌, inl, inr, Bool, true, false, not, ◌&&◌, ◌||◌, Option,
  none, some, List, [], ◌∷◌, ◌++◌, arith, get_elem?, ◌==◌, ==_iff, Bytes, bytes_equal,
  bytes_equal_refl, bytes_equal_symm,
}
use facet_os.Config.Cursor.{schema, duplicate, unresolved_reference}
use facet_os.Config.Schema.Checks.{ensure}
use facet_os.Config.Schema.Gives.{Gives, Gives->>=, Gives-any, Gives-eq}
use facet_os.Config.Schema.Records.{
  SinkDefinition, SeatDefinition, DomainSink, Terminal, Domain, SystemConfig,
}
use facet_os.Config.Schema.Tables.{Document}
use facet_os.Config.Validation.{check_domains, validate_required}
use facet_os.Config.Validation.Definitions.{
  nowhere, is_given, is_number, text_of, list_of, is_empty, any,
}
use facet_os.Config.Validation.Terminals.{
  is_native, is_posix, has_expected, empty_if_given, knows_run_as, device_taken, reference_parts,
  is_assigned, resolve_terminal, check_terminal, check_terminals,
}
use facet_os.Config.Validation.Domains.{check_domain, check_domain_sinks, has_required, number_of}
use facet_os.Config.Validation.Apart.{Every, Every-none, Every-add, Apart, Apart-none, Apart-add}
use facet_os.Config.Validation.Facts.{
  clashes, DomainFacts, check_domain-Facts, ConfigFacts, validate_required-Facts,
}
use facet_os.Config.Validation.References.{
  SinkFound, check_domain_sinks-found, TerminalAt, resolve_terminal-found,
}

abbrev TerminalFound : SystemConfig → Terminal → Type 0
TerminalFound c t = TerminalAt c.seats (text_of t.reference) (t.seat_index, t.terminal_index)

check_terminal-found :
    (c : SystemConfig) (ds : List Domain) (d : Domain) (before : List Terminal) (t : Terminal)
    → Gives (TerminalFound c) (check_terminal c ds d before t)
unfolding check_terminal
check_terminal-found c ds d before t =
    Gives-any _ (ensure (has_expected (is_native d.personality) t) schema nowhere) _ λ e.
      Gives-any _
        (ensure
          (not (
            is_empty (text_of t.reference)
            || empty_if_given t.initial_process
            || empty_if_given t.device_name))
          schema nowhere)
        _
        λ f.
          Gives-any _
            (ensure (knows_run_as c.users (list_of d.users) t.run_as) unresolved_reference nowhere)
            _
            λ g.
              Gives-any _
                (ensure (not (is_posix d.personality && device_taken before t)) duplicate nowhere) _
                λ i.
                  Gives->>= (TerminalAt c.seats (text_of t.reference)) _
                    (resolve_terminal c (reference_parts (text_of t.reference))) _
                    (resolve_terminal-found c (text_of t.reference))
                    λ place k.
                      Gives-any _ (ensure (not (is_assigned ds before place)) duplicate nowhere) _
                        λ j. k

check_terminals-found :
    (c : SystemConfig) (ds : List Domain) (d : Domain) (before ts : List Terminal)
    → Every (TerminalFound c) before
    → Gives (Every (TerminalFound c)) (check_terminals c ds d before ts)
unfolding check_terminals
check_terminals-found c ds d before [] h = h
check_terminals-found c ds d before (t ∷ ts) h =
    Gives->>= (TerminalFound c) _ (check_terminal c ds d before t) _
      (check_terminal-found c ds d before t)
      λ t' k.
        check_terminals-found c ds d (before ++ t' ∷ []) ts
          (Every-add (TerminalFound c) before t' h k)

-- the references of a domain, and the keys that it must have
record IsResolved (c : SystemConfig) (d : Domain) : Type 0 where
  given : has_required d ≡ true
  sinks_found : Every (SinkFound c.logging_sinks) (list_of d.logging_sinks)
  terminals_found : Every (TerminalFound c) (list_of d.terminals)

facts-IsResolved :
    (c : SystemConfig) (ds : List Domain) (d d' : Domain) → DomainFacts c ds d d' → IsResolved c d'
facts-IsResolved c ds d d' f = subst (IsResolved c) (sym f.result) (record {
  given = required d f.sinks f.terminals f.source f.required_keys;
  sinks_found =
      Gives-eq (Every (SinkFound c.logging_sinks))
        (check_domain_sinks c.logging_sinks [] (list_of d.logging_sinks))
        (check_domain_sinks-found c.logging_sinks [] (list_of d.logging_sinks) (Every-none _))
        f.sinks_checked;
  terminals_found =
      Gives-eq (Every (TerminalFound c)) (check_terminals c ds d [] (list_of d.terminals))
        (check_terminals-found c ds d [] (list_of d.terminals) (Every-none _)) f.terminals_checked;
})
  where
    required :
        (d : Domain) (sinks : List DomainSink) (ts : List Terminal) (source : ℕ)
        → has_required d ≡ true
        → has_required (record d {
          logging_sinks = some sinks;
          terminals = some ts;
          authentication_source_index = source;
        })
          ≡ true
    required d sinks ts source h = ground (arith, h)

abbrev numbers_equal : Option ℕ → Option ℕ → Bool
numbers_equal (some m) (some n) = m == n
numbers_equal _ _ = false

-- the same number or the same name
abbrev alike : Domain → Domain → Bool
alike d other = numbers_equal d.id other.id || bytes_equal (text_of d.name) (text_of other.name)

numbers_equal_symm : (a b : Option ℕ) → numbers_equal a b ≡ numbers_equal b a
numbers_equal_symm none none = refl
numbers_equal_symm none (some n) = refl
numbers_equal_symm (some m) none = refl
numbers_equal_symm (some m) (some n) = ground arith

alike_symm : (d other : Domain) → alike d other ≡ alike other d
alike_symm d other =
    rw (numbers_equal_symm d.id other.id, bytes_equal_symm (text_of d.name) (text_of other.name))
      refl

has_id-number_of :
    (a b : Option ℕ) → is_given a ≡ true → is_number (number_of a) b ≡ numbers_equal a b
has_id-number_of none b h = cc
has_id-number_of (some m) none h = refl
has_id-number_of (some m) (some n) h = ground arith

given_id : (d : Domain) → has_required d ≡ true → is_given d.id ≡ true
given_id d h = ground (arith, h)

any_same : {A : Type 0} (f g : A → Bool) (xs : List A) → ((x : A) → f x ≡ g x) → any f xs ≡ any g xs
any_same f g [] h = refl
any_same f g (x ∷ xs) h = rw (h x, any_same f g xs h) refl

facts-unlike :
    (c : SystemConfig) (ds : List Domain) (d d' : Domain)
    → DomainFacts c ds d d'
    → any (alike d') ds ≡ false
facts-unlike c ds d d' f =
    subst (λ (e : Domain). any (alike e) ds ≡ false) (sym f.result)
      (any_same (alike d) (clashes d) ds (λ other.
          ap (λ (b : Bool). b || bytes_equal (text_of d.name) (text_of other.name))
            (sym (has_id-number_of d.id other.id (given_id d f.required_keys))))
        ∙ f.unlike)

-- what holds of the domains that are accepted
record AreAccepted (c : SystemConfig) (ds : List Domain) : Type 0 where
  resolved : Every (IsResolved c) ds
  unlike_others : Apart alike ds

check_domains-AreAccepted :
    (c : SystemConfig) (before ds : List Domain)
    → AreAccepted c before
    → Gives (AreAccepted c) (check_domains c before ds)
unfolding check_domains
check_domains-AreAccepted c before [] h = h
check_domains-AreAccepted c before (d ∷ ds) h =
    Gives->>= (DomainFacts c before d) _ (check_domain c before d) _ (check_domain-Facts c before d)
      λ d' f. check_domains-AreAccepted c (before ++ d' ∷ []) ds (record {
        resolved = Every-add (IsResolved c) before d' h.resolved (facts-IsResolved c before d d' f);
        unlike_others =
            Apart-add alike alike_symm before d' h.unlike_others (facts-unlike c before d d' f);
      })

accepted :
    (d : Document) (c : SystemConfig) → validate_required d ≡ inr c → AreAccepted d.config c.domains
accepted d c e =
    let facts = Gives-eq (ConfigFacts d) (validate_required d) (validate_required-Facts d) e in
    Gives-eq (AreAccepted d.config) (check_domains d.config [] d.config.domains)
      (check_domains-AreAccepted d.config [] d.config.domains
        (record { resolved = Every-none _; unlike_others = Apart-none alike }))
      facts.domains_checked

-- In a configuration that is accepted, each use of a logging sink by a domain carries the index of
-- a sink definition of its name.
pub validate_required-sink :
    (d : Document) (c : SystemConfig) (i j : ℕ) (x : Domain) (s : DomainSink)
    → validate_required d ≡ inr c
    → get_elem? c.domains i ≡ some x
    → get_elem? (list_of x.logging_sinks) j ≡ some s
    → SinkFound c.logging_sinks s
validate_required-sink d c i j x s e h k =
    let facts = Gives-eq (ConfigFacts d) (validate_required d) (validate_required-Facts d) e in
    subst (λ (sinks : List SinkDefinition). SinkFound sinks s) (sym facts.kept_sinks)
      (((accepted d c e).resolved i x h).sinks_found j s k)

-- In a configuration that is accepted, each assignment of a terminal to a domain carries the index
-- of a seat and of a terminal of that seat, and its reference is their two names with a dot between.
pub validate_required-terminal :
    (d : Document) (c : SystemConfig) (i j : ℕ) (x : Domain) (t : Terminal)
    → validate_required d ≡ inr c
    → get_elem? c.domains i ≡ some x
    → get_elem? (list_of x.terminals) j ≡ some t
    → TerminalAt c.seats (text_of t.reference) (t.seat_index, t.terminal_index)
validate_required-terminal d c i j x t e h k =
    let facts = Gives-eq (ConfigFacts d) (validate_required d) (validate_required-Facts d) e in
    subst
      (λ (seats : List SeatDefinition).
        TerminalAt seats (text_of t.reference) (t.seat_index, t.terminal_index))
      (sym facts.kept_seats) (((accepted d c e).resolved i x h).terminals_found j t k)

-- In a configuration that is accepted, two domains with the same number, or with the same name, are
-- one.
pub validate_required-apart :
    (d : Document) (c : SystemConfig) (i j : ℕ) (x y : Domain)
    → validate_required d ≡ inr c
    → get_elem? c.domains i ≡ some x
    → get_elem? c.domains j ≡ some y
    → (x.id ≡ y.id) ⊎ (x.name ≡ y.name)
    → i ≡ j
validate_required-apart d c i j x y e h k same =
    (accepted d c e).unlike_others i j x y h k (agree same)
  where
    number_same : (a b : Option ℕ) → is_given a ≡ true → a ≡ b → numbers_equal a b ≡ true
    number_same none b g e = cc
    number_same (some m) none g e = cc
    number_same (some m) (some n) g e = (==_iff m n).1 cc

    or_right : (b : Bool) {b' : Bool} → b' ≡ true → (b || b') ≡ true
    or_right true e = refl
    or_right false e = e

    agree : (x.id ≡ y.id) ⊎ (x.name ≡ y.name) → alike x y ≡ true
    agree (inl e') =
        rw (number_same x.id y.id (given_id x ((accepted d c e).resolved i x h).given) e') refl
    agree (inr e') = or_right (numbers_equal x.id y.id) (
        subst (λ (n : Option Bytes). bytes_equal (text_of x.name) (text_of n) ≡ true) e'
          (bytes_equal_refl (text_of x.name)))
