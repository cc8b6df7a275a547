-- ===== src/Config/Tests.antt =====
-- Runs of the lexical level, and its laws at them.
use facet_os.Prelude.{◌+◌, ◌≡◌, refl, inr, true, [], ◌∷◌, ◌++◌, arith, Bytes}
use facet_os.Config.Cursor.{Cursor, skip_space_and_comments}
use facet_os.Config.Strings.{parse_quoted_string, parse_key}
use facet_os.Config.Strings.Plain.{place, parse_quoted_string-plain}

abbrev at_start : Bytes → Cursor
at_start text = record { rest = text; line = 1; column = 1 }

-- the least `int64_t`, and a comma
abbrev least : Bytes
least =
    b'9' ∷ b'2' ∷ b'2' ∷ b'3' ∷ b'3' ∷ b'7' ∷ b'2' ∷ b'0' ∷ b'3' ∷ b'6' ∷ b'8' ∷ b'5' ∷ b'4' ∷ b'7'
    ∷ b'7' ∷ b'5' ∷ b'8' ∷ b'0' ∷ b'8' ∷ []

-- `"a#"` and a comma
parse_quoted_string-plain_example :
    parse_quoted_string (place (b'"' ∷ (b'a' ∷ b'#' ∷ []) ++ b'"' ∷ b',' ∷ []) 3 7)
    ≡ inr (b'a' ∷ b'#' ∷ [], place (b',' ∷ []) 3 (7 + 2 + 2))
parse_quoted_string-plain_example =
    parse_quoted_string-plain (b'a' ∷ b'#' ∷ []) (b',' ∷ []) b'"' 3 7 refl (refl, (refl, tt))
      (omega arith)

-- a key, behind a space and a comment
skipped :
    skip_space_and_comments true (place (b' ' ∷ b'#' ∷ b'x' ∷ b'\n' ∷ b'k' ∷ b'=' ∷ []) 1 1)
    ≡ place (b'k' ∷ b'=' ∷ []) 2 1
unfolding skip_space_and_comments
skipped = refl

key_read : parse_key (place (b'k' ∷ b'=' ∷ []) 2 1) ≡ inr (b'k' ∷ [], place (b'=' ∷ []) 2 2)
unfolding parse_key
key_read = refl
