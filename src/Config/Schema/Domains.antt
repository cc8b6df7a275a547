-- ===== src/Config/Schema/Domains.antt =====
-- src/config.c: the keys of a domain, with its sinks, terminals and users.
use facet_os.Prelude.{
  inr, Option, none, some, List, [], ◌∷◌, ◌==◌, if◌then◌else◌, Bytes, bytes_equal, codes,
}
use facet_os.Config.Cursor.{schema}
use facet_os.Config.Values.{Spot, Value, spot_of, Entries, no_entries, entry, entry_total}
use facet_os.Config.Schema.Checks.{
  Checked, ◌>>=◌, fail_at, ensure, string_of, items_of, entries_of, natural_of, field, each_item,
}
use facet_os.Config.Schema.Records.{
  Personality, native, posix, vm, ManagerMode, no_manager, local_manager, parent_manager, LogLevel,
  log_none, log_fatal, log_error, log_warning, log_info, log_debug, log_trace, View, native_view,
  posix_view, User, DomainSink, Terminal, Domain, blank_user, blank_terminal,
}
use facet_os.Config.Schema.Keys.{user_from_table}

abbrev pub level_named : List (Bytes × LogLevel) → Bytes → Option LogLevel
level_named [] t = none
level_named ((name, level) ∷ levels) t =
    let rest = level_named levels t in if bytes_equal t name then some level else rest

-- the array `levels`
abbrev pub levels : List (Bytes × LogLevel)
levels =
    (codes "none", log_none)
    ∷ (codes "fatal", log_fatal)
    ∷ (codes "error", log_error)
    ∷ (codes "warning", log_warning)
    ∷ (codes "info", log_info)
    ∷ (codes "debug", log_debug)
    ∷ (codes "trace", log_trace)
    ∷ []

-- `parse_log_level`
unfoldable pub parse_log_level : Value → Checked LogLevel
parse_log_level v = string_of v >>= λ t. elim (level_named levels t) [
  | none ↦ fail_at schema (spot_of v)
  | some level ↦ inr level
]

-- `table_value`
abbrev pub table_value : Entries → Bytes → Option Value
table_value no_entries wanted = none
table_value (entry key at v es) wanted =
    let rest = table_value es wanted in if bytes_equal key wanted then some v else rest

-- one turn of the loop of `domain_sinks_from_array`
unfoldable pub domain_sink : Value → Checked DomainSink
unfolding parse_log_level
domain_sink v = entries_of v >>= λ es. elim (table_value es (codes "name")) [
  | none ↦ fail_at schema (spot_of v)
  | some name ↦ elim (table_value es (codes "level")) [
    | none ↦ fail_at schema (spot_of v)
    | some level ↦ ensure (entry_total es == 2) schema (spot_of v) >>= λ u. string_of name >>= λ t.
        parse_log_level level >>= λ l.
        inr (record { name = t; level = l; sink_definition_index = 0 })
  ]
]

-- `domain_sinks_from_array`
unfoldable pub domain_sinks_from_array : Value → Checked (List DomainSink)
unfolding domain_sink
domain_sinks_from_array v = items_of v >>= λ vs. each_item domain_sink vs

unfoldable pub view_of : Value → Checked View
view_of v = string_of v >>= λ t.
    if bytes_equal t (codes "native")
    then inr native_view
    else if bytes_equal t (codes "posix")
    then inr posix_view
    else fail_at schema (spot_of v)

-- one entry of a terminal assignment
unfoldable pub set_terminal : Bytes → Spot → Value → Terminal → Checked Terminal
unfolding view_of
set_terminal key at v t =
    if bytes_equal key (codes "terminal")
    then (do x ← field t.reference at (string_of v); inr (record t { reference = x }))
    else if bytes_equal key (codes "initial_process")
    then (do x ← field t.initial_process at (string_of v); inr (record t { initial_process = x }))
    else if bytes_equal key (codes "device")
    then (do x ← field t.device_name at (string_of v); inr (record t { device_name = x }))
    else if bytes_equal key (codes "run_as")
    then (do x ← field t.run_as at (string_of v); inr (record t { run_as = x }))
    else if bytes_equal key (codes "view")
    then (do x ← field t.view at (view_of v); inr (record t { view = x }))
    else fail_at schema at

abbrev pub terminal_entries : Entries → Terminal → Checked Terminal
terminal_entries no_entries t = inr t
terminal_entries (entry key at v es) t = set_terminal key at v t >>= λ t'. terminal_entries es t'

-- `domain_terminals_from_array`, whose records `calloc` clears
unfoldable pub domain_terminals_from_array : Value → Checked (List Terminal)
unfolding set_terminal
domain_terminals_from_array v = items_of v >>= λ vs.
    each_item (λ w. entries_of w >>= λ es. terminal_entries es blank_terminal) vs

-- `domain_users_from_array`, whose records `calloc` clears
unfoldable pub domain_users_from_array : Value → Checked (List User)
unfolding user_from_table
domain_users_from_array v = items_of v >>= λ vs. each_item (λ w. user_from_table w blank_user) vs

unfoldable pub personality_of : Value → Checked Personality
personality_of v = string_of v >>= λ t.
    if bytes_equal t (codes "native")
    then inr native
    else if bytes_equal t (codes "posix")
    then inr posix
    else if bytes_equal t (codes "vm")
    then inr vm
    else fail_at schema (spot_of v)

unfoldable pub manager_of : Value → Checked ManagerMode
manager_of v = string_of v >>= λ t.
    if bytes_equal t (codes "none")
    then inr no_manager
    else if bytes_equal t (codes "local")
    then inr local_manager
    else if bytes_equal t (codes "parent")
    then inr parent_manager
    else fail_at schema (spot_of v)

-- `apply_value` in `SECTION_DOMAIN`
unfoldable pub set_domain : Bytes → Spot → Value → Domain → Checked Domain
unfolding domain_sinks_from_array domain_terminals_from_array domain_users_from_array personality_of
    manager_of
set_domain key at v d =
    if bytes_equal key (codes "id")
    then (do x ← field d.id at (natural_of (spot_of v) v); inr (record d { id = x }))
    else if bytes_equal key (codes "name")
    then (do x ← field d.name at (string_of v); inr (record d { name = x }))
    else if bytes_equal key (codes "personality")
    then (do x ← field d.personality at (personality_of v); inr (record d { personality = x }))
    else if bytes_equal key (codes "domain_manager")
    then (do x ← field d.domain_manager at (manager_of v); inr (record d { domain_manager = x }))
    else if bytes_equal key (codes "logging_sinks")
    then (do
      x ← field d.logging_sinks at (domain_sinks_from_array v)
      inr (record d { logging_sinks = x }))
    else if bytes_equal key (codes "terminals")
    then (do
      x ← field d.terminals at (domain_terminals_from_array v)
      inr (record d { terminals = x }))
    else if bytes_equal key (codes "authentication_source")
    then (do
      x ← field d.authentication_source at (string_of v)
      inr (record d { authentication_source = x }))
    else if bytes_equal key (codes "pid1")
    then (do x ← field d.pid1 at (string_of v); inr (record d { pid1 = x }))
    else if bytes_equal key (codes "initrd")
    then (do x ← field d.initrd at (string_of v); inr (record d { initrd = x }))
    else if bytes_equal key (codes "users")
    then (do x ← field d.users at (domain_users_from_array v); inr (record d { users = x }))
    else fail_at schema at
