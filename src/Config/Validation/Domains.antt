-- ===== src/Config/Validation/Domains.antt =====
-- src/config.c: `validate_required` on a domain.
use facet_os.Prelude.{
  ℕ, inr, Bool, true, false, not, ◌&&◌, ◌||◌, Option, none, some, List, [], ◌∷◌, ◌++◌, ◌==◌, length,
  Bytes, bytes_equal,
}
use facet_os.Config.Cursor.{schema, duplicate, unresolved_reference}
use facet_os.Config.Schema.Checks.{Checked, ◌>>=◌, fail_at, ensure}
use facet_os.Config.Schema.Records.{
  Personality, vm, SinkDefinition, AuthenticationSource, User, DomainSink, Domain, SystemConfig,
}
use facet_os.Config.Validation.Definitions.{
  nowhere, is_given, text_of, list_of, is_empty, has_byte, any, find_index, named, is_number,
  validate_user,
}
use facet_os.Config.Validation.Terminals.{is_native, is_posix, check_terminals}

abbrev pub has_id : ℕ → Domain → Bool
has_id n d = is_number n d.id

abbrev pub number_of : Option ℕ → ℕ
number_of none = 0
number_of (some n) = n

abbrev pub is_vm : Option Personality → Bool
is_vm (some vm) = true
is_vm _ = false

-- the loop over the users of a domain
unfoldable pub check_domain_users : List User → List User → List User → Checked Unit
unfolding validate_user
check_domain_users global before [] = inr tt
check_domain_users global before (x ∷ xs) = do
  a ← validate_user x
  b ← ensure (not (any (named (text_of x.name)) global)) duplicate nowhere
  c ← ensure (not (any (named (text_of x.name)) before)) duplicate nowhere
  check_domain_users global (x ∷ before) xs

abbrev pub defines : Bytes → SinkDefinition → Bool
defines t sink = bytes_equal t (text_of sink.name)

-- the loop over the sinks of a domain, `before` being those resolved
unfoldable pub check_domain_sinks :
    List SinkDefinition → List DomainSink → List DomainSink → Checked (List DomainSink)
check_domain_sinks sinks before [] = inr before
check_domain_sinks sinks before (x ∷ xs) = elim (find_index (defines x.name) sinks) [
  | none ↦ fail_at unresolved_reference nowhere
  | some k ↦
      ensure (not (any (λ (y : DomainSink). bytes_equal x.name y.name) before)) duplicate nowhere
      >>= λ u. check_domain_sinks sinks (before ++ record x { sink_definition_index = k } ∷ []) xs
]

-- the authentication source of a domain, if it names one
abbrev pub resolve_source : List AuthenticationSource → Option Bytes → ℕ → Checked ℕ
resolve_source sources none index = inr index
resolve_source sources (some t) index =
    elim (find_index (λ (x : AuthenticationSource). bytes_equal t (text_of x.name)) sources) [
      | none ↦ fail_at unresolved_reference nowhere
      | some j ↦ inr j
    ]

abbrev pub has_required : Domain → Bool
has_required d =
    is_given d.id
    && is_given d.name
    && is_given d.personality
    && is_given d.domain_manager
    && is_given d.logging_sinks
    && is_given d.terminals
    && is_given d.initrd

-- The turn of the loop for a domain, `before` being the domains checked.
unfoldable pub check_domain : SystemConfig → List Domain → Domain → Checked Domain
unfolding check_domain_users check_domain_sinks check_terminals
check_domain c before d = do
  a ← ensure (has_required d) schema nowhere
  b ← ensure (not (is_empty (text_of d.name))) schema nowhere
  e ← ensure (not (is_empty (text_of d.initrd) || has_byte b'/' (text_of d.initrd))) schema nowhere
  f ←
      ensure
        (not
          (any (λ (other : Domain). bytes_equal (text_of d.initrd) (text_of other.initrd)) before))
        duplicate nowhere
  g ← check_domain_users c.users [] (list_of d.users)
  h ← ensure (not (is_vm d.personality)) schema nowhere
  i ←
      ensure
        (not (
          any
            (λ (other : Domain).
              has_id (number_of d.id) other || bytes_equal (text_of d.name) (text_of other.name))
            before))
        duplicate nowhere
  sinks ← check_domain_sinks c.logging_sinks [] (list_of d.logging_sinks)
  j ← ensure (not (length sinks == 0 || length (list_of d.terminals) == 0)) schema nowhere
  k ← ensure (not (is_native d.personality && is_given d.pid1)) schema nowhere
  l ← ensure (not (is_posix d.personality && is_empty (text_of d.pid1))) schema nowhere
  terminals ← check_terminals c before d [] (list_of d.terminals)
  source ←
      resolve_source c.authentication_sources d.authentication_source d.authentication_source_index
  inr (record d {
    logging_sinks = some sinks;
    terminals = some terminals;
    authentication_source_index = source;
  })
