-- ===== src/Config/Validation/Tests.antt =====
-- A configuration that is accepted, and the laws at it.
use facet_os.Prelude.{ℕ, ◌≡◌, refl, inl, inr, true, some, [], ◌∷◌, get_elem?, codes}
use facet_os.Config.Schema.Records.{
  native, local_manager, log_debug, serial, native_view, SinkDefinition, SeatDefinition,
  AuthenticationSource, User, DomainSink, Terminal, Domain, SystemConfig, blank_config,
  blank_domain, blank_user, blank_terminal, blank_source,
}
use facet_os.Config.Schema.Tables.{Document, section_none}
use facet_os.Config.Validation.{validate_required}
use facet_os.Config.Validation.Domains.{check_domain}
use facet_os.Config.Validation.Definitions.{root_hash}
use facet_os.Config.Validation.Exclusive.{validate_required-exclusive}
use facet_os.Config.Validation.References.{TerminalAt}
use facet_os.Config.Validation.Accepted.{validate_required-terminal, validate_required-apart}
use facet_os.Config.Validation.Roots.{
  HasProvider, validate_required-root, validate_required-provider,
}
use facet_os.Config.Validation.Users.{validate_required-user_apart}

abbrev log_sink : SinkDefinition
log_sink = record { name = some (codes "log"); sink_type = some (codes "x"); required = some true }

abbrev serial_seat : SeatDefinition
serial_seat = record {
  name = some (codes "s");
  server = some (codes "/s");
  seat_type = some serial;
  terminals = some (codes "a" ∷ codes "b" ∷ []);
}

abbrev root_user : User
root_user = record blank_user {
  name = some (codes "root");
  password_hash = some root_hash;
  admin = some true;
  uid = some 0;
  gid = some 0;
  home_path = some (codes "/r");
}

abbrev native_terminal : Terminal
native_terminal = record blank_terminal {
  reference = some (codes "s.b");
  view = some native_view;
  initial_process = some (codes "/l");
}

abbrev use_of_sink : DomainSink
use_of_sink = record { name = codes "log"; level = log_debug; sink_definition_index = 0 }

abbrev native_domain : Domain
native_domain = record blank_domain {
  id = some 0;
  name = some (codes "d");
  personality = some native;
  domain_manager = some local_manager;
  initrd = some (codes "i");
  authentication_source = some (codes "auth");
  logging_sinks = some (use_of_sink ∷ []);
  terminals = some (native_terminal ∷ []);
}

abbrev local_source : AuthenticationSource
local_source = record blank_source {
  name = some (codes "auth");
  provider_domain_id = some 0;
  source_type = some (codes "local");
  required = some true;
}

abbrev given_tables : Document
given_tables = record {
  section = section_none;
  section_index = 0;
  facet_seen = true;
  config = record blank_config {
    version = 1;
    seat_initrd = some (codes "i");
    logging_sinks = log_sink ∷ [];
    authentication_sources = local_source ∷ [];
    users = root_user ∷ [];
    seats = serial_seat ∷ [];
    domains = native_domain ∷ [];
  };
}

abbrev resolved_terminal : Terminal
resolved_terminal = record native_terminal { terminal_index = 1 }

abbrev resolved_domain : Domain
resolved_domain = record native_domain { terminals = some (resolved_terminal ∷ []) }

abbrev accepted_config : SystemConfig
accepted_config = record given_tables.config { domains = resolved_domain ∷ [] }

tables_accepted : validate_required given_tables ≡ inr accepted_config
unfolding validate_required check_domain
tables_accepted = refl

validate_required-exclusive_example : ◌≡◌ {A = ℕ} 0 0
validate_required-exclusive_example =
    validate_required-exclusive given_tables accepted_config 0 0 (0, 1) tables_accepted refl refl

validate_required-terminal_example : TerminalAt (serial_seat ∷ []) (codes "s.b") (0, 1)
validate_required-terminal_example =
    validate_required-terminal given_tables accepted_config 0 0 resolved_domain resolved_terminal
      tables_accepted refl refl

validate_required-apart_example : ◌≡◌ {A = ℕ} 0 0
validate_required-apart_example =
    validate_required-apart given_tables accepted_config 0 0 resolved_domain resolved_domain
      tables_accepted refl refl (inl refl)

validate_required-root_example :
    (r : Domain) × (get_elem? (resolved_domain ∷ []) 0 ≡ some r) × (r.id ≡ some 0)
validate_required-root_example = validate_required-root given_tables accepted_config tables_accepted

validate_required-provider_example : HasProvider (resolved_domain ∷ []) local_source
validate_required-provider_example =
    validate_required-provider given_tables accepted_config 0 local_source tables_accepted refl

validate_required-user_apart_example : ◌≡◌ {A = ℕ} 0 0
validate_required-user_apart_example =
    validate_required-user_apart given_tables accepted_config 0 0 root_user root_user
      tables_accepted refl refl refl
