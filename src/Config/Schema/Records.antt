-- ===== src/Config/Schema/Records.antt =====
-- include/facetos/config.h: the configuration. A field that a bit of `_present` guards is an
-- `Option`, `some` once the bit is set.
use facet_os.Prelude.{ℕ, Bool, Option, none, List, [], Bytes}

pub data Personality : Type 0 where
  native posix vm : Personality

pub data ManagerMode : Type 0 where
  no_manager local_manager parent_manager : ManagerMode

pub data LogLevel : Type 0 where
  log_none log_fatal log_error log_warning log_info log_debug log_trace : LogLevel

pub data SeatType : Type 0 where
  serial local_seat : SeatType

pub data View : Type 0 where
  native_view posix_view : View

pub record SinkDefinition : Type 0 where
  pub name : Option Bytes
  pub sink_type : Option Bytes
  pub required : Option Bool

pub record SeatDefinition : Type 0 where
  pub name : Option Bytes
  pub server : Option Bytes
  pub seat_type : Option SeatType
  pub terminals : Option (List Bytes)

pub record AuthenticationSource : Type 0 where
  pub name : Option Bytes
  pub provider_domain_id : Option ℕ
  pub provider_domain_index : ℕ
  pub source_type : Option Bytes
  pub required : Option Bool

pub record User : Type 0 where
  pub name : Option Bytes
  pub password_hash : Option Bytes
  pub admin : Option Bool
  pub uid : Option ℕ
  pub gid : Option ℕ
  pub home_path : Option Bytes
  pub native_shell : Option Bytes
  pub posix_shell : Option Bytes

pub record DomainSink : Type 0 where
  pub name : Bytes
  pub level : LogLevel
  pub sink_definition_index : ℕ

pub record Terminal : Type 0 where
  pub reference : Option Bytes
  pub seat_index : ℕ
  pub terminal_index : ℕ
  pub view : Option View
  pub initial_process : Option Bytes
  pub device_name : Option Bytes
  pub run_as : Option Bytes

pub record Domain : Type 0 where
  pub id : Option ℕ
  pub name : Option Bytes
  pub personality : Option Personality
  pub domain_manager : Option ManagerMode
  pub authentication_source : Option Bytes
  pub authentication_source_index : ℕ
  pub pid1 : Option Bytes
  pub initrd : Option Bytes
  pub users : Option (List User)
  pub logging_sinks : Option (List DomainSink)
  pub terminals : Option (List Terminal)

pub record SystemConfig : Type 0 where
  pub version : ℕ
  pub seat_initrd : Option Bytes
  pub logging_sinks : List SinkDefinition
  pub authentication_sources : List AuthenticationSource
  pub users : List User
  pub seats : List SeatDefinition
  pub domains : List Domain
  pub root_index : ℕ

-- The elements that `grow_array` clears.
abbrev pub blank_sink : SinkDefinition
blank_sink = record { name = none; sink_type = none; required = none }

abbrev pub blank_seat : SeatDefinition
blank_seat = record { name = none; server = none; seat_type = none; terminals = none }

abbrev pub blank_source : AuthenticationSource
blank_source = record {
  name = none;
  provider_domain_id = none;
  provider_domain_index = 0;
  source_type = none;
  required = none;
}

abbrev pub blank_user : User
blank_user = record {
  name = none;
  password_hash = none;
  admin = none;
  uid = none;
  gid = none;
  home_path = none;
  native_shell = none;
  posix_shell = none;
}

abbrev pub blank_terminal : Terminal
blank_terminal = record {
  reference = none;
  seat_index = 0;
  terminal_index = 0;
  view = none;
  initial_process = none;
  device_name = none;
  run_as = none;
}

abbrev pub blank_domain : Domain
blank_domain = record {
  id = none;
  name = none;
  personality = none;
  domain_manager = none;
  authentication_source = none;
  authentication_source_index = 0;
  pid1 = none;
  initrd = none;
  users = none;
  logging_sinks = none;
  terminals = none;
}

-- `memset(config, 0, sizeof(*config))`
abbrev pub blank_config : SystemConfig
blank_config = record {
  version = 0;
  seat_initrd = none;
  logging_sinks = [];
  authentication_sources = [];
  users = [];
  seats = [];
  domains = [];
  root_index = 0;
}
