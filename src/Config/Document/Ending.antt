-- ===== src/Config/Document/Ending.antt =====
-- src/config.c: the end of `facet_config_parse`, and what it gives.
use facet_os.Prelude.{
  suc, ◌≡◌, refl, inl, inr, true, arith, ltb, Bool-cases, Option-cases, length, Bytes,
}
use facet_os.Utf8.Validate.{utf8_validate}
use facet_os.Config.Cursor.Progress.{skip-left}
use facet_os.Config.Values.{State, skip}
use facet_os.Config.Grammar.Limits.{Ends, Ends->>=}
use facet_os.Config.Schema.Checks.{Checked}
use facet_os.Config.Schema.Records.{SystemConfig}
use facet_os.Config.Schema.Tables.{Document}
use facet_os.Config.Lines.{checked, parse_lines}
use facet_os.Config.Lines.Sections.{IsSound}
use facet_os.Config.Lines.Ending.{parse_lines-Ends}
use facet_os.Config.Validation.{validate_required}
use facet_os.Config.Document.{max_bytes, start_of, blank_document, facet_config_parse}

-- a configuration that validation gives for sound tables
abbrev pub IsChecked : SystemConfig → Type 0
IsChecked c = (d : Document) × IsSound d × (validate_required d ≡ inr c)

blank-IsSound : IsSound blank_document
blank-IsSound = (tt, (omega arith, omega arith, omega arith, omega arith, omega arith))

-- Parsing ends for every sequence of bytes: it fails with a diagnostic, or it gives a configuration
-- that the validation has given for tables whose section is an element of its array, and of whose
-- arrays none is longer than the limit.
pub facet_config_parse-Ends : (data' : Bytes) → Ends (λ c s. IsChecked c) (facet_config_parse data')
unfolding facet_config_parse
facet_config_parse-Ends data' = elim (Bool-cases (ltb max_bytes (length data'))) [
  | inl e ↦ rw e tt
  | inr e ↦ elim (Option-cases (utf8_validate data')) [
    | inr (bad, f) ↦ rw (e, f) tt
    | inl f ↦
        rw (e, f)
          (Ends->>= (λ d s. IsSound d) _
            (parse_lines (suc (length data')) blank_document (skip true (start_of data'))) _
            (parse_lines-Ends (suc (length data')) blank_document (skip true (start_of data'))
              blank-IsSound (omega (arith, skip-left true (start_of data').place)))
            λ d s h. validated d s h (validate_required d) refl)
  ]
]
  where
    validated :
        (d : Document) (s : State)
        → IsSound d
        → (o : Checked SystemConfig) → validate_required d ≡ o
        → Ends (λ c s. IsChecked c) (checked o s)
    validated d s h (inl e) k = tt
    validated d s h (inr c) k = (d, h, k)
