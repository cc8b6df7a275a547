-- ===== src/Config/Strings.antt =====
-- src/config.c: strings and keys.
pub mod Plain
pub mod Limits
use facet_os.Prelude.{
  ℕ, zero, suc, ◌+◌, ◌-◌, ◌*◌, ◌%◌, ◌^◌, inl, inr, Bool, true, false, not, ◌&&◌, ◌||◌, Option, none,
  some, [], ◌∷◌, ◌++◌, ltb, leb, ◌==◌, if◌then◌else◌, length, Bytes,
}
use facet_os.Utf8.{is_scalar, encode}
use facet_os.Config.Cursor.{Cursor, syntax, schema, limit, Parsed, fail, current, take_byte}

-- `FACET_CONFIG_MAX_STRING_BYTES`
abbrev pub max_string_bytes : ℕ
max_string_bytes = 64 * 1024

-- `append_utf8`, on the bytes in the buffer; `none` in the place of a category is success.
unfoldable pub append_utf8 : Bytes → ℕ → Cursor → Parsed Bytes
append_utf8 buffer scalar p =
    if not (is_scalar scalar)
    then fail syntax p
    else if ltb (max_string_bytes - length (encode scalar)) (length buffer)
    then fail limit p
    else inr (buffer ++ encode scalar, p)

-- `append_raw_byte`
unfoldable pub append_raw_byte : Bytes → ℕ → Cursor → Parsed Bytes
append_raw_byte buffer byte p =
    if leb max_string_bytes (length buffer) then fail limit p else inr (buffer ++ byte ∷ [], p)

-- `hex_digit`; `none` is -1, which it also gives for the end of the text.
pub hex_digit : Option ℕ → Option ℕ
hex_digit none = none
hex_digit (some c) =
    if leb b'0' c && leb c b'9'
    then some (c - b'0')
    else if leb b'a' c && leb c b'f'
    then some (c - b'a' + 10)
    else if leb b'A' c && leb c b'F'
    then some (c - b'A' + 10)
    else none

-- the loop over the digits of a Unicode escape, in a `uint32_t`
pub unicode_escape : ℕ → ℕ → Cursor → Parsed ℕ
unfolding hex_digit
unicode_escape zero scalar p = inr (scalar, p)
unicode_escape (suc digits) scalar p =
    let (c, p') = take_byte p in
    elim (hex_digit c) [
      | none ↦ fail syntax p'
      | some digit ↦ unicode_escape digits ((scalar * 16 + digit) % 2 ^ 32) p'
    ]

-- the `switch` behind a backslash, on the byte taken there
pub escape_of : Option ℕ → Cursor → Parsed ℕ
unfolding unicode_escape
escape_of none p = fail syntax p
escape_of (some c) p =
    if c == b'b'
    then inr (8, p)
    else if c == b't'
    then inr (9, p)
    else if c == b'n'
    then inr (10, p)
    else if c == b'f'
    then inr (12, p)
    else if c == b'r'
    then inr (13, p)
    else if c == b'"'
    then inr (b'"', p)
    else if c == b'\\'
    then inr (b'\\', p)
    else if c == b'u'
    then unicode_escape 4 0 p
    else if c == b'U'
    then unicode_escape 8 0 p
    else fail syntax p

-- the checks on a character that is no escape, and its storing
unfoldable pub add_raw : Bytes → ℕ → Cursor → Parsed Bytes
unfolding append_raw_byte
add_raw buffer scalar p =
    if scalar == 0
    then fail schema p
    else if ltb scalar 0x20 && not (scalar == b'\t') || scalar == 0x7f
    then fail syntax p
    else append_raw_byte buffer scalar p

-- the same for an escape
unfoldable pub add_escaped : Bytes → Parsed ℕ → Parsed Bytes
unfolding append_utf8
add_escaped buffer (inl d) = inl d
add_escaped buffer (inr (scalar, p)) =
    if scalar == 0 then fail schema p else append_utf8 buffer scalar p

-- one turn of the loop, behind the byte taken
unfoldable pub add_character : ℕ → Bytes → ℕ → Cursor → Parsed Bytes
add_character quote buffer c p =
    if c == b'\n' || c == b'\r'
    then fail syntax p
    else if quote == b'"' && c == b'\\'
    then (let (e, p') = take_byte p in add_escaped buffer (escape_of e p'))
    else add_raw buffer c p

-- The loop of `parse_quoted_string` and what follows it. Each round takes a byte at least, so the
-- length of the text is fuel enough.
unfoldable pub read_string : ℕ → ℕ → Bytes → Cursor → Parsed Bytes
read_string zero quote buffer p = fail syntax p
read_string (suc fuel) quote buffer p = elim (current p) [
  | none ↦ fail syntax p
  | some c ↦
      let (taken, p') = take_byte p in
      elim (c == quote) [
        | true ↦ inr (buffer, p')
        | false ↦ elim (add_character quote buffer c p') [
          | inl d ↦ inl d
          | inr (buffer', p'') ↦ read_string fuel quote buffer' p''
        ]
      ]
]

-- `parse_quoted_string`, which is called at a quote
unfoldable pub parse_quoted_string : Cursor → Parsed Bytes
parse_quoted_string p = elim (current p) [
  | none ↦ fail syntax p
  | some quote ↦ let (taken, p') = take_byte p in read_string (suc (length p'.rest)) quote [] p'
]

pub bare_key_character : ℕ → Bool
bare_key_character c =
    leb b'a' c && leb c b'z'
    || leb b'A' c && leb c b'Z'
    || leb b'0' c && leb c b'9'
    || c == b'_'
    || c == b'-'

-- the loop over a bare key, on the text left: the key and the place behind it
pub bare_key : Bytes → Cursor → Bytes × Cursor
bare_key [] p = ([], p)
bare_key (c ∷ rest) p =
    let (key, p') = bare_key rest (take_byte p).1 in
    if bare_key_character c then (c ∷ key, p') else ([], p)

abbrev pub at_quote : Option ℕ → Bool
at_quote none = false
at_quote (some c) = c == b'"' || c == b'\''

-- `parse_key`; `duplicate_bytes` refuses a key beyond the limit.
unfoldable pub parse_key : Cursor → Parsed Bytes
unfolding bare_key bare_key_character
parse_key p =
    if at_quote (current p)
    then parse_quoted_string p
    else (let (key, p') = bare_key p.rest p in
        if length key == 0
        then fail syntax p'
        else if ltb max_string_bytes (length key)
        then fail limit p'
        else inr (key, p'))
