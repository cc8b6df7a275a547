-- ===== src/Config/Validation/Facts.antt =====
-- src/config.c: the single checks of `validate_required`.
use facet_os.Prelude.{
  ℕ, ◌≡◌, refl, ap, ◌∙◌, inr, Bool, true, false, not, ◌&&◌, ◌||◌, some, List, [], arith, length,
  ◌==◌, bytes_equal,
}
use facet_os.Config.Cursor.{schema, duplicate}
use facet_os.Config.Schema.Checks.{ensure}
use facet_os.Config.Schema.Gives.{Gives, Gives-keep, Gives-any, Gives-ensure}
use facet_os.Config.Schema.Records.{DomainSink, Terminal, Domain, SystemConfig}
use facet_os.Config.Schema.Tables.{Document}
use facet_os.Config.Validation.{
  check_domains, check_providers, count_roots, last_root, validate_required,
}
use facet_os.Config.Validation.Definitions.{
  nowhere, is_given, text_of, list_of, is_empty, any, check_sinks, check_seats, check_sources,
  check_users, has_byte,
}
use facet_os.Config.Validation.Terminals.{is_native, is_posix, check_terminals}
use facet_os.Config.Validation.Domains.{
  check_domain, has_required, has_id, number_of, is_vm, check_domain_users, check_domain_sinks,
  resolve_source,
}

pub not-true : (b : Bool) → not b ≡ true → b ≡ false
not-true true h = cc
not-true false h = refl

-- the same number or the same name
abbrev pub clashes : Domain → Domain → Bool
clashes d other = has_id (number_of d.id) other || bytes_equal (text_of d.name) (text_of other.name)

-- a domain, and what `check_domain` gives for it behind others
pub record DomainFacts (c : SystemConfig) (ds : List Domain) (d d' : Domain) : Type 0 where
  pub required_keys : has_required d ≡ true
  pub unlike : any (clashes d) ds ≡ false
  pub sinks : List DomainSink
  pub sinks_checked : check_domain_sinks c.logging_sinks [] (list_of d.logging_sinks) ≡ inr sinks
  pub terminals : List Terminal
  pub terminals_checked : check_terminals c ds d [] (list_of d.terminals) ≡ inr terminals
  pub source : ℕ
  pub result : d' ≡ record d {
    logging_sinks = some sinks;
    terminals = some terminals;
    authentication_source_index = source;
  }

pub check_domain-Facts :
    (c : SystemConfig) (ds : List Domain) (d : Domain)
    → Gives (DomainFacts c ds d) (check_domain c ds d)
unfolding check_domain
check_domain-Facts c ds d = Gives-ensure _ (has_required d) schema nowhere _ λ keys.
    Gives-any _ (ensure (not (is_empty (text_of d.name))) schema nowhere) _ λ u.
      Gives-any _
        (ensure (not (is_empty (text_of d.initrd) || has_byte b'/' (text_of d.initrd))) schema
          nowhere)
        _
        λ u.
          Gives-any _
            (ensure
              (not (
                any (λ (other : Domain). bytes_equal (text_of d.initrd) (text_of other.initrd)) ds))
              duplicate nowhere)
            _
            λ u. Gives-any _ (check_domain_users c.users [] (list_of d.users)) _ λ u.
              Gives-any _ (ensure (not (is_vm d.personality)) schema nowhere) _ λ u.
                Gives-ensure _ (not (any (clashes d) ds)) duplicate nowhere _ λ alone.
                  Gives-keep _ (check_domain_sinks c.logging_sinks [] (list_of d.logging_sinks)) _
                    λ sinks e.
                      Gives-any _
                        (ensure (not (length sinks == 0 || length (list_of d.terminals) == 0))
                          schema nowhere)
                        _
                        λ u.
                          Gives-any _
                            (ensure (not (is_native d.personality && is_given d.pid1)) schema
                              nowhere)
                            _
                            λ u.
                              Gives-any _
                                (ensure (not (is_posix d.personality && is_empty (text_of d.pid1)))
                                  schema nowhere)
                                _
                                λ u.
                                  Gives-keep _ (check_terminals c ds d [] (list_of d.terminals)) _
                                    λ terminals f.
                                      Gives-any _
                                        (resolve_source c.authentication_sources
                                          d.authentication_source d.authentication_source_index)
                                        _
                                        λ source. record {
                                          required_keys = keys;
                                          unlike = not-true (any (clashes d) ds) alone;
                                          sinks = sinks;
                                          sinks_checked = e;
                                          terminals = terminals;
                                          terminals_checked = f;
                                          source = source;
                                          result = refl;
                                        }

-- the tables, and what `validate_required` gives for them
pub record ConfigFacts (d : Document) (c' : SystemConfig) : Type 0 where
  pub users_checked : check_users [] false d.config.users ≡ inr true
  pub domains_checked : check_domains d.config [] d.config.domains ≡ inr c'.domains
  pub one_root : count_roots c'.domains ≡ 1
  pub providers_checked :
      check_providers c'.domains d.config.authentication_sources ≡ inr c'.authentication_sources
  pub root_is : c'.root_index ≡ last_root 0 0 c'.domains
  pub kept_sinks : c'.logging_sinks ≡ d.config.logging_sinks
  pub kept_seats : c'.seats ≡ d.config.seats
  pub kept_users : c'.users ≡ d.config.users

pub validate_required-Facts : (d : Document) → Gives (ConfigFacts d) (validate_required d)
unfolding validate_required
validate_required-Facts d =
    let c = d.config in
    Gives-any _ (ensure (d.facet_seen && c.version == 1) schema nowhere) _ λ u.
      Gives-any _ (check_sinks [] c.logging_sinks) _ λ u.
        Gives-any _ (check_seats [] c.seats) _ λ u.
          Gives-any _ (check_sources [] c.authentication_sources) _ λ u.
            Gives-keep _ (check_users [] false c.users) _ λ found e.
              Gives-ensure _ found schema nowhere _ λ f.
                Gives-any _ (ensure (not (length c.domains == 0)) schema nowhere) _ λ u.
                  Gives-keep _ (check_domains c [] c.domains) _ λ ds g.
                    Gives-ensure _ (count_roots ds == 1) schema nowhere _ λ h.
                      Gives-keep _ (check_providers ds c.authentication_sources) _ λ sources i.
                        Gives-any _ (ensure (not (is_empty (text_of c.seat_initrd))) schema nowhere)
                          _
                          λ u. record {
                            users_checked = e ∙ ap inr f;
                            domains_checked = g;
                            one_root = ground (arith, h);
                            providers_checked = i;
                            root_is = refl;
                            kept_sinks = refl;
                            kept_seats = refl;
                            kept_users = refl;
                          }
