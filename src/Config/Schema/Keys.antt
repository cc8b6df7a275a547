-- ===== src/Config/Schema/Keys.antt =====
-- src/config.c: the keys of sinks, authentication sources, users and seats.
use facet_os.Prelude.{inr, List, if◌then◌else◌, Bytes, bytes_equal, codes}
use facet_os.Config.Cursor.{schema}
use facet_os.Config.Values.{Spot, Value, spot_of, Entries, no_entries, entry}
use facet_os.Config.Schema.Checks.{
  Checked, ◌>>=◌, fail_at, ensure, string_of, boolean_of, items_of, entries_of, natural_of, u32_of,
  field, each_item,
}
use facet_os.Config.Schema.Records.{
  SeatType, serial, local_seat, SinkDefinition, SeatDefinition, AuthenticationSource, User,
}

-- Each of the functions has the key, its spot, the value and what the table holds so far.

-- `apply_value` in `SECTION_LOGGING_SINK`
unfoldable pub set_sink : Bytes → Spot → Value → SinkDefinition → Checked SinkDefinition
set_sink key at v sink =
    if bytes_equal key (codes "name")
    then (do x ← field sink.name at (string_of v); inr (record sink { name = x }))
    else if bytes_equal key (codes "type")
    then (do x ← field sink.sink_type at (string_of v); inr (record sink { sink_type = x }))
    else if bytes_equal key (codes "required")
    then (do x ← field sink.required at (boolean_of v); inr (record sink { required = x }))
    else fail_at schema at

-- The one type of source is `local`; another one fails at the key.
abbrev pub source_type_of : Spot → Value → Checked Bytes
source_type_of at v = do
  t ← string_of v
  u ← ensure (bytes_equal t (codes "local")) schema at
  inr t

-- `apply_value` in `SECTION_AUTHENTICATION_SOURCE`
unfoldable pub set_source :
    Bytes → Spot → Value → AuthenticationSource → Checked AuthenticationSource
set_source key at v source =
    if bytes_equal key (codes "name")
    then (do x ← field source.name at (string_of v); inr (record source { name = x }))
    else if bytes_equal key (codes "provider_domain")
    then (do
      x ← field source.provider_domain_id at (natural_of (spot_of v) v)
      inr (record source { provider_domain_id = x }))
    else if bytes_equal key (codes "type")
    then (do
      x ← field source.source_type at (source_type_of at v)
      inr (record source { source_type = x }))
    else if bytes_equal key (codes "required")
    then (do x ← field source.required at (boolean_of v); inr (record source { required = x }))
    else fail_at schema at

-- The keys that `user_from_table` and `apply_value` in `SECTION_USER` share. They differ in the
-- spot of a number that is no `uint32_t`.
unfoldable pub set_user : Bytes → Spot → Spot → Value → User → Checked User
set_user key at range_at v user =
    if bytes_equal key (codes "name")
    then (do x ← field user.name at (string_of v); inr (record user { name = x }))
    else if bytes_equal key (codes "password_hash")
    then (do x ← field user.password_hash at (string_of v); inr (record user { password_hash = x }))
    else if bytes_equal key (codes "admin")
    then (do x ← field user.admin at (boolean_of v); inr (record user { admin = x }))
    else if bytes_equal key (codes "native_shell")
    then (do x ← field user.native_shell at (string_of v); inr (record user { native_shell = x }))
    else if bytes_equal key (codes "posix_shell")
    then (do x ← field user.posix_shell at (string_of v); inr (record user { posix_shell = x }))
    else if bytes_equal key (codes "home_path")
    then (do x ← field user.home_path at (string_of v); inr (record user { home_path = x }))
    else if bytes_equal key (codes "uid")
    then (do x ← field user.uid at (u32_of range_at v); inr (record user { uid = x }))
    else if bytes_equal key (codes "gid")
    then (do x ← field user.gid at (u32_of range_at v); inr (record user { gid = x }))
    else fail_at schema at

-- the loop of `user_from_table`
abbrev pub user_entries : Entries → User → Checked User
user_entries no_entries user = inr user
user_entries (entry key at v es) user = do user' ← set_user key at at v user; user_entries es user'

-- `user_from_table`
unfoldable pub user_from_table : Value → User → Checked User
unfolding set_user
user_from_table v user = do es ← entries_of v; user_entries es user

unfoldable pub seat_type_of : Value → Checked SeatType
seat_type_of v = string_of v >>= λ t.
    if bytes_equal t (codes "serial")
    then inr serial
    else if bytes_equal t (codes "local")
    then inr local_seat
    else fail_at schema (spot_of v)

-- `strings_from_array`
abbrev pub strings_from_array : Value → Checked (List Bytes)
strings_from_array v = do vs ← items_of v; each_item string_of vs

-- `apply_value` in `SECTION_SEAT`
unfoldable pub set_seat : Bytes → Spot → Value → SeatDefinition → Checked SeatDefinition
unfolding seat_type_of
set_seat key at v seat =
    if bytes_equal key (codes "name")
    then (do x ← field seat.name at (string_of v); inr (record seat { name = x }))
    else if bytes_equal key (codes "type")
    then (do x ← field seat.seat_type at (seat_type_of v); inr (record seat { seat_type = x }))
    else if bytes_equal key (codes "server")
    then (do x ← field seat.server at (string_of v); inr (record seat { server = x }))
    else if bytes_equal key (codes "terminals")
    then (do
      x ← field seat.terminals at (strings_from_array v)
      inr (record seat { terminals = x }))
    else fail_at schema at
