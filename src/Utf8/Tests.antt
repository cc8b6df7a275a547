-- ===== src/Utf8/Tests.antt =====
-- Runs of the checks and the encoder, and the laws at them.
use facet_os.Prelude.{ℕ, ◌≡◌, refl, true, false, some, List, [], ◌∷◌, Bytes}
use facet_os.Utf8.{lead, continuation, in_range, sequence, scan, is_valid, is_scalar, encode}
use facet_os.Utf8.RoundTrip.{AllScalars, encode_all, is_valid-encode_all, is_valid-Encoded}
use facet_os.Utf8.Validate.{utf8_validate}
use facet_os.Utf8.Validate.Laws.{accepted, utf8_validate-is_valid}

-- a letter, a letter with an accent, the euro sign and a character above the first plane
abbrev characters : List ℕ
characters = 0x41 ∷ 0xe9 ∷ 0x20ac ∷ 0x1f600 ∷ []

abbrev encoded : Bytes
encoded = 0x41 ∷ 0xc3 ∷ 0xa9 ∷ 0xe2 ∷ 0x82 ∷ 0xac ∷ 0xf0 ∷ 0x9f ∷ 0x98 ∷ 0x80 ∷ []

encode_all_run : encode_all characters ≡ encoded
unfolding encode
encode_all_run = refl

characters-AllScalars : AllScalars characters
unfolding is_scalar
characters-AllScalars = (refl, (refl, (refl, (refl, tt))))

encoded_valid : is_valid encoded ≡ true
unfolding is_valid scan sequence lead continuation in_range
encoded_valid = refl

-- a surrogate
surrogate_refused : is_valid (0xed ∷ 0xa0 ∷ 0x80 ∷ []) ≡ false
unfolding is_valid scan sequence lead continuation in_range
surrogate_refused = refl

-- a character cut off behind a valid one
abbrev truncated : Bytes
truncated = 0x41 ∷ 0xe2 ∷ 0x82 ∷ []

cut_off : utf8_validate truncated ≡ some 1
unfolding utf8_validate lead in_range
cut_off = refl

is_valid-encode_all_example : is_valid (encode_all characters) ≡ true
is_valid-encode_all_example = is_valid-encode_all characters characters-AllScalars

is_valid-Encoded_example : (ss : List ℕ) × AllScalars ss × (encode_all ss ≡ encoded)
is_valid-Encoded_example = is_valid-Encoded encoded encoded_valid

utf8_validate-is_valid_example : accepted (utf8_validate encoded) ≡ is_valid encoded
utf8_validate-is_valid_example = utf8_validate-is_valid encoded
