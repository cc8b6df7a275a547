-- ===== src/Config/Document.antt =====
-- src/config.c: `facet_config_parse`.
pub mod Ending
mod Tests
pub mod Fallback
use facet_os.Prelude.{
  ℕ, suc, ◌*◌, ◌+◌, inl, inr, Bool, true, false, Option, none, some, [], ◌∷◌, ltb, if◌then◌else◌,
  length, take, Bytes,
}
use facet_os.Utf8.Validate.{utf8_validate}
use facet_os.Config.Cursor.{Cursor, utf8, limit, after}
use facet_os.Config.Values.{Spot, State, Run, failed, done, ◌>>=◌, refuse_at, skip}
use facet_os.Config.Schema.Records.{SystemConfig, blank_config}
use facet_os.Config.Schema.Tables.{Document, section_none}
use facet_os.Config.Lines.{checked, parse_lines}
use facet_os.Config.Validation.{validate_required}

-- `FACET_CONFIG_MAX_BYTES`
abbrev pub max_bytes : ℕ
max_bytes = 1024 * 1024

-- `Parser parser = { … }`
abbrev pub start_of : Bytes → State
start_of data' = record { place = record { rest = data'; line = 1; column = 1 }; entry_count = 0 }

abbrev pub blank_document : Document
blank_document = record {
  section = section_none;
  section_index = 0;
  facet_seen = false;
  config = blank_config;
}

-- the loop that counts the lines and columns before the bad offset
pub spot_behind : Bytes → Spot → Spot
spot_behind [] at = at
spot_behind (c ∷ data') at = spot_behind data' (
    let p = after c data' (record { rest = []; line = at.spot_line; column = at.spot_column }) in
    record { spot_line = p.line; spot_column = p.column })

abbrev pub first_spot : Spot
first_spot = record { spot_line = 1; spot_column = 1 }

-- `facet_config_parse`. Allocations succeed.
unfoldable pub facet_config_parse : Bytes → Run SystemConfig
unfolding parse_lines validate_required spot_behind
facet_config_parse data' =
    if ltb max_bytes (length data')
    then refuse_at limit first_spot
    else elim (utf8_validate data') [
      | some bad_offset ↦ refuse_at utf8 (spot_behind (take bad_offset data') first_spot)
      | none ↦
          parse_lines (suc (length data')) blank_document (skip true (start_of data')) >>= λ d s.
          checked (validate_required d) s
    ]
