-- ===== src/Config/Document/Tests.antt =====
-- Runs of the parser above the lexical level, and its laws at them.
use facet_os.Prelude.{◌≡◌, ◌<◌, refl, false, [], arith, codes}
use facet_os.Config.Cursor.{syntax, skip_space_and_comments, fail}
use facet_os.Config.Integers.{parse_integer, finish, digits_from, sign}
use facet_os.Config.Strings.{parse_key, parse_quoted_string, read_string, add_character, add_raw}
use facet_os.Config.Values.{
  State, string_value, integer_value, array_value, table_value_of, no_items, item, no_entries,
  entry, failed, done,
}
use facet_os.Config.Grammar.{parse_value, parse_top_value}
use facet_os.Config.Grammar.Limits.{size, Ends, IsWithin}
use facet_os.Config.Grammar.Ending.{parse_value-Ends}
use facet_os.Config.Document.{start_of, facet_config_parse}
use facet_os.Config.Document.Ending.{IsChecked, facet_config_parse-Ends}

-- an array with a number and an inline table
abbrev nested : State
nested = start_of (codes "[1, {a = 'x'},]")

-- its last comma is allowed
nested_read :
    parse_top_value nested
    ≡ done
        (array_value
          (record { spot_line = 1; spot_column = 1 })
          (item
            (integer_value
              (record { spot_line = 1; spot_column = 2 })
              (record { negative = false; magnitude = 1 }))
            (item
              (table_value_of
                (record { spot_line = 1; spot_column = 5 })
                (entry
                  (codes "a")
                  (record { spot_line = 1; spot_column = 6 })
                  (string_value (record { spot_line = 1; spot_column = 10 }) (codes "x"))
                  no_entries))
              no_items)))
        (record { place = record { rest = []; line = 1; column = 16 }; entry_count = 1 })
unfolding parse_top_value parse_value skip_space_and_comments parse_integer finish digits_from sign
    parse_key parse_quoted_string read_string add_character add_raw
nested_read = refl

-- the same comma in an inline table is not
comma_refused :
    parse_top_value (start_of (codes "{a=1,}"))
    ≡ failed (record { category = syntax; at_line = 1; at_column = 6 })
unfolding parse_top_value parse_value skip_space_and_comments parse_key parse_integer finish
    digits_from sign fail
comma_refused = refl

parse_value-Ends_example :
    Ends (λ v s. IsWithin 0 v × (size s < size nested)) (parse_value 64 0 nested)
parse_value-Ends_example = parse_value-Ends 64 0 nested (omega arith)

facet_config_parse-Ends_example :
    Ends (λ c s. IsChecked c) (facet_config_parse (codes "[facet]\nversion = 1\n"))
facet_config_parse-Ends_example = facet_config_parse-Ends (codes "[facet]\nversion = 1\n")
