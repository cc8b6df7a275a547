-- ===== src/Config/Schema/Tables.antt =====
-- src/config.c: table headers and assignments.
use facet_os.Prelude.{
  ℕ, inr, Bool, true, not, ◌&&◌, none, some, List, [], ◌∷◌, ◌++◌, leb, ◌==◌, if◌then◌else◌, length,
  get_elem?, set, Bytes, bytes_equal, codes,
}
use facet_os.Config.Cursor.{schema, limit, duplicate, unsupported_version}
use facet_os.Config.Values.{Spot, Value, spot_of}
use facet_os.Config.Grammar.{max_array_elements}
use facet_os.Config.Schema.Checks.{Checked, ◌>>=◌, fail_at, ensure, string_of, integer_of, field}
use facet_os.Config.Schema.Records.{
  SystemConfig, blank_sink, blank_seat, blank_source, blank_user, blank_domain,
}
use facet_os.Config.Schema.Keys.{set_sink, set_source, set_user, set_seat}
use facet_os.Config.Schema.Domains.{set_domain}

-- `SectionKind`
pub data Section : Type 0 where
  section_none section_facet section_logging_sink section_authentication_source : Section
  section_user section_seat section_domain : Section

-- The part of `Parser` above the text.
pub record Document : Type 0 where
  pub section : Section
  pub section_index : ℕ
  pub facet_seen : Bool
  pub config : SystemConfig

-- `grow_array` and the count behind it; its failure stands at the place of the parser
abbrev pub grow_array : {A : Type 0} → List A → A → Spot → Checked (List A)
grow_array xs x here =
    if leb max_array_elements (length xs) then fail_at limit here else inr (xs ++ x ∷ [])

-- the branches of `parse_header` on the name, `here` being the place of the parser
unfoldable pub open_table : Bool → Bytes → Spot → Spot → Document → Checked Document
open_table array name at here d =
    if not array && bytes_equal name (codes "facet")
    then (if d.facet_seen
        then fail_at duplicate at
        else inr (record d { facet_seen = true; section = section_facet }))
    else if array && bytes_equal name (codes "logging_sinks")
    then (do
      xs ← grow_array d.config.logging_sinks blank_sink here
      inr (record d {
        config = record d.config { logging_sinks = xs };
        section = section_logging_sink;
        section_index = length d.config.logging_sinks;
      }))
    else if array && bytes_equal name (codes "authentication_sources")
    then (do
      xs ← grow_array d.config.authentication_sources blank_source here
      inr (record d {
        config = record d.config { authentication_sources = xs };
        section = section_authentication_source;
        section_index = length d.config.authentication_sources;
      }))
    else if array && bytes_equal name (codes "users")
    then (do
      xs ← grow_array d.config.users blank_user here
      inr (record d {
        config = record d.config { users = xs };
        section = section_user;
        section_index = length d.config.users;
      }))
    else if array && bytes_equal name (codes "seats")
    then (do
      xs ← grow_array d.config.seats blank_seat here
      inr (record d {
        config = record d.config { seats = xs };
        section = section_seat;
        section_index = length d.config.seats;
      }))
    else if array && bytes_equal name (codes "domains")
    then (do
      xs ← grow_array d.config.domains blank_domain here
      inr (record d {
        config = record d.config { domains = xs };
        section = section_domain;
        section_index = length d.config.domains;
      }))
    else fail_at schema at

-- a write to the element of the section; the index is always that of an element
abbrev pub update : {A : Type 0} → List A → ℕ → (A → Checked A) → Checked (List A)
update xs i f = elim (get_elem? xs i) [ none ↦ inr xs | some x ↦ f x >>= λ y. inr (set xs i y) ]

-- `apply_value` in `SECTION_FACET`
unfoldable pub set_facet : Bytes → Spot → Value → SystemConfig → Checked SystemConfig
set_facet key at v c =
    if bytes_equal key (codes "seat_initrd")
    then (do x ← field c.seat_initrd at (string_of v); inr (record c { seat_initrd = x }))
    else if bytes_equal key (codes "version")
    then (if c.version == 0
        then (do
          i ← integer_of v
          u ← ensure (not i.negative && i.magnitude == 1) unsupported_version (spot_of v)
          inr (record c { version = 1 }))
        else fail_at duplicate at)
    else fail_at schema at

-- `apply_value` behind the counting of the entry
unfoldable pub set_key : Bytes → Spot → Value → Document → Checked Document
unfolding set_facet
set_key key at v d = elim d.section [
  | section_none ↦ fail_at schema at
  | section_facet ↦ set_facet key at v d.config >>= λ c. inr (record d { config = c })
  | section_logging_sink ↦
      update d.config.logging_sinks d.section_index (set_sink key at v) >>= λ xs.
      inr (record d { config = record d.config { logging_sinks = xs } })
  | section_authentication_source ↦
      update d.config.authentication_sources d.section_index (set_source key at v) >>= λ xs.
      inr (record d { config = record d.config { authentication_sources = xs } })
  | section_user ↦ update d.config.users d.section_index (set_user key at (spot_of v) v) >>= λ xs.
      inr (record d { config = record d.config { users = xs } })
  | section_seat ↦ update d.config.seats d.section_index (set_seat key at v) >>= λ xs.
      inr (record d { config = record d.config { seats = xs } })
  | section_domain ↦ update d.config.domains d.section_index (set_domain key at v) >>= λ xs.
      inr (record d { config = record d.config { domains = xs } })
]
