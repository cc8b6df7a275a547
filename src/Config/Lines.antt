-- ===== src/Config/Lines.antt =====
-- src/config.c: the lines of a configuration: table headers and assignments.
pub mod Sections
pub mod Ending
use facet_os.Prelude.{
  ℕ, zero, suc, ◌+◌, inl, inr, Bool, true, false, not, ◌&&◌, ◌||◌, Option, none, some, ◌==◌,
  if◌then◌else◌, length, Bytes, bytes_equal, codes,
}
use facet_os.Config.Cursor.{syntax, schema, current}
use facet_os.Config.Strings.{parse_key}
use facet_os.Config.Values.{
  Spot, Value, State, Run, spent, failed, done, ◌>>=◌, lexical, spot, refuse_at, refuse, skip,
  taken, is_at, consume_entry,
}
use facet_os.Config.Grammar.{parse_top_value}
use facet_os.Config.Schema.Checks.{Checked, ensure}
use facet_os.Config.Schema.Tables.{Document, open_table, set_key}

-- a check, the text left as it is
abbrev pub checked : {A : Type 0} → Checked A → State → Run A
checked (inl d) s = failed d
checked (inr a) s = done a s

-- `take(parser) == ']' && (!array || take(parser) == ']')`, with the state behind it
unfoldable pub closes : Bool → State → Bool × State
closes array s =
    if is_at b']' s
    then (if array then (is_at b']' (taken s), taken (taken s)) else (true, taken s))
    else (false, taken s)

-- `parse_header`, which is called at a bracket
unfoldable pub parse_header : Document → State → Run Document
unfolding open_table closes consume_entry
parse_header d s =
    let s1 = taken s in
    let array = is_at b'[' s1 in
    let s2 = skip false (if array then taken s1 else s1) in
    let at = spot s2 in
    lexical (parse_key s2.place) s2 >>= λ name s3.
    let (closed, s4) = closes array (skip false s3) in
    checked (ensure closed syntax at) s4 >>= λ u s5.
    checked (ensure (d.facet_seen || not array && bytes_equal name (codes "facet")) schema at) s5
    >>= λ u s6. consume_entry at s6 >>= λ u s7. checked (open_table array name at (spot s7) d) s7

-- `apply_value`
unfoldable pub apply_value : Bytes → Spot → Value → Document → State → Run Document
unfolding set_key consume_entry
apply_value key at v d s = consume_entry at s >>= λ u s'. checked (set_key key at v d) s'

-- the other branch of the loop of `facet_config_parse`
unfoldable pub parse_assignment : Document → State → Run Document
unfolding apply_value parse_top_value
parse_assignment d s =
    let at = spot s in
    lexical (parse_key s.place) s >>= λ key s1.
    let s2 = skip false s1 in
    (if is_at b'=' s2 then done tt (taken s2) else refuse_at syntax at) >>= λ u s3.
    parse_top_value (skip false s3) >>= λ v s4. apply_value key at v d s4

abbrev pub ends_line : Option ℕ → Bool
ends_line none = true
ends_line (some c) = c == b'\n'

-- what follows a header or an assignment: only a comment, up to the end of the line
unfoldable pub finish_line : State → Run Unit
finish_line s =
    let s1 = skip false s in
    let s2 = if is_at b'#' s1 then skip false s1 else s1 in
    if ends_line (current s2.place) then done tt s2 else refuse syntax s2

-- one turn of the loop
unfoldable pub parse_line : Document → State → Run Document
unfolding parse_header parse_assignment
parse_line d s = elim (is_at b'[' s) [ true ↦ parse_header d s | false ↦ parse_assignment d s ]

-- the loop of `facet_config_parse`, of which a turn takes a unit of fuel
unfoldable pub parse_lines : ℕ → Document → State → Run Document
unfolding parse_line finish_line
parse_lines zero d s = spent
parse_lines (suc fuel) d s = elim (current s.place) [
  | none ↦ done d s
  | some c ↦
      parse_line d s >>= λ d' s1. finish_line s1 >>= λ u s2. parse_lines fuel d' (skip true s2)
]
