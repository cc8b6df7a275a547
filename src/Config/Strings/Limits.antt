-- ===== src/Config/Strings/Limits.antt =====
-- src/config.c: the size of the strings and keys read, and the text left behind them.
use facet_os.Prelude.{
  ℕ, zero, suc, ◌+◌, ◌-◌, ◌*◌, ◌%◌, ◌^◌, ◌≤◌, ◌≡◌, refl, inl, inr, Bool, true, false, not, ◌&&◌,
  ◌||◌, Option, none, some, [], ◌∷◌, arith, ltb, leb, ◌==◌, Bool-cases, Option-cases, length,
  length-append, Bytes, if◌then◌else◌,
}
use facet_os.Utf8.{is_scalar, encode}
use facet_os.Config.Cursor.{Cursor, Category, Parsed, fail, current, take_byte}
use facet_os.Config.Cursor.Progress.{left, Reads, take_byte-left, after-rest}
use facet_os.Config.Strings.{
  max_string_bytes, append_utf8, append_raw_byte, hex_digit, unicode_escape, escape_of, add_raw,
  add_escaped, add_character, read_string, parse_quoted_string, bare_key_character, bare_key,
  at_quote, parse_key,
}

-- within `FACET_CONFIG_MAX_STRING_BYTES`
abbrev pub IsShort : Bytes → Type 0
IsShort t = length t ≤ max_string_bytes

abbrev Any : {A : Type 0} → A → Type 0
Any a = Unit

if-Reads :
    {A : Type 0} (P : A → Type 0) (n : ℕ) (test : Bool) (o o' : Parsed A)
    → Reads P n o
    → Reads P n o'
    → Reads P n (if test then o else o')
if-Reads P n true o o' h k = h
if-Reads P n false o o' h k = k

fail-Reads :
    {A : Type 0} (P : A → Type 0) (n : ℕ) (c : Category) (p : Cursor) → Reads P n (fail {A = A} c p)
unfolding fail
fail-Reads P n c p = tt

length-encode-le : (s : ℕ) → length (encode s) ≤ 4
unfolding encode
length-encode-le s = ground arith

append_utf8-Reads :
    (buffer : Bytes) (s : ℕ) (p : Cursor) → Reads IsShort (left p) (append_utf8 buffer s p)
unfolding append_utf8 fail
append_utf8-Reads buffer s p = elim (Bool-cases (is_scalar s)) [
  | inr e ↦ rw e tt
  | inl e ↦ elim (Bool-cases (ltb (max_string_bytes - length (encode s)) (length buffer))) [
    | inl f ↦ rw (e, f) tt
    | inr f ↦
        rw (e, f)
          (
            fits (length buffer) _ (length-encode-le s) f (length-append buffer (encode s)),
            omega arith,
          )
  ]
]
  where
    fits :
        (m n : ℕ) {k : ℕ}
        → n ≤ 4
        → ltb (max_string_bytes - n) m ≡ false
        → k ≡ m + n
        → k ≤ max_string_bytes
    fits m n h f e = ground arith

append_raw_byte-Reads :
    (buffer : Bytes) (b : ℕ) (p : Cursor) → Reads IsShort (left p) (append_raw_byte buffer b p)
unfolding append_raw_byte fail
append_raw_byte-Reads buffer b p = elim (Bool-cases (leb max_string_bytes (length buffer))) [
  | inl f ↦ rw f tt
  | inr f ↦ rw f (fits (length buffer) f (length-append buffer (b ∷ [])), omega arith)
]
  where
    fits : (m : ℕ) {k : ℕ} → leb max_string_bytes m ≡ false → k ≡ m + 1 → k ≤ max_string_bytes
    fits m f e = ground arith

-- more text left is allowed
Reads-le :
    {A : Type 0} (P : A → Type 0) {m n : ℕ} (o : Parsed A) → m ≤ n → Reads P m o → Reads P n o
Reads-le P (inl d) h k = tt
Reads-le P (inr (a, p)) h k = (k.0, omega (arith, k.1))

unicode_escape-Reads :
    (digits scalar : ℕ) (p : Cursor) → Reads Any (left p) (unicode_escape digits scalar p)
unfolding unicode_escape
unicode_escape-Reads zero scalar p = (tt, omega arith)
unicode_escape-Reads (suc digits) scalar p = elim (Option-cases (hex_digit (take_byte p).0)) [
  | inl e ↦ rw (e, unicode_escape) (fail-Reads Any (left p) _ _)
  | inr (d, e) ↦
      rw (e, unicode_escape)
        (Reads-le Any _ (omega (arith, take_byte-left p))
          (unicode_escape-Reads digits ((scalar * 16 + d) % 2 ^ 32) (take_byte p).1))
]

escape_of-Reads : (c : Option ℕ) (p : Cursor) → Reads Any (left p) (escape_of c p)
unfolding escape_of
escape_of-Reads none p = fail-Reads Any (left p) _ p
escape_of-Reads (some c) p = if-Reads Any _ (c == b'b') _ _ (plain 8) (
    if-Reads Any _ (c == b't') _ _ (plain 9) (
      if-Reads Any _ (c == b'n') _ _ (plain 10) (
        if-Reads Any _ (c == b'f') _ _ (plain 12) (
          if-Reads Any _ (c == b'r') _ _ (plain 13) (
            if-Reads Any _ (c == b'"') _ _ (plain b'"') (
              if-Reads Any _ (c == b'\\') _ _ (plain b'\\') (
                if-Reads Any _ (c == b'u') _ _ (unicode_escape-Reads 4 0 p) (
                  if-Reads Any _ (c == b'U') _ _ (unicode_escape-Reads 8 0 p)
                    (fail-Reads Any _ _ p)))))))))
  where
    plain : (b : ℕ) → Reads Any (left p) (inr (b, p))
    plain b = (tt, omega arith)

add_escaped-Reads :
    (buffer : Bytes) (n : ℕ) (o : Parsed ℕ) → Reads Any n o → Reads IsShort n (add_escaped buffer o)
unfolding add_escaped
add_escaped-Reads buffer n (inl d) h = tt
add_escaped-Reads buffer n (inr (s, p)) h =
    if-Reads IsShort n (s == 0) _ _ (fail-Reads IsShort n _ p)
      (Reads-le IsShort _ h.1 (append_utf8-Reads buffer s p))

add_character-Reads :
    (quote : ℕ) (buffer : Bytes) (c : ℕ) (p : Cursor)
    → Reads IsShort (left p) (add_character quote buffer c p)
unfolding add_character add_raw
add_character-Reads quote buffer c p =
    if-Reads IsShort _ (c == b'\n' || c == b'\r') _ _ (fail-Reads IsShort _ _ p) (
      if-Reads IsShort _ (quote == b'"' && c == b'\\') _ _
        (add_escaped-Reads buffer _ _ (
          Reads-le Any _ (omega (arith, take_byte-left p))
            (escape_of-Reads (take_byte p).0 (take_byte p).1)))
        (if-Reads IsShort _ (c == 0) _ _ (fail-Reads IsShort _ _ p) (
          if-Reads IsShort _ (ltb c 0x20 && not (c == b'\t') || c == 0x7f) _ _
            (fail-Reads IsShort _ _ p) (append_raw_byte-Reads buffer c p))))

read_string-Reads :
    (fuel quote : ℕ) (buffer : Bytes) (p : Cursor)
    → IsShort buffer
    → Reads IsShort (left p) (read_string fuel quote buffer p)
unfolding read_string
read_string-Reads zero quote buffer p h = fail-Reads IsShort _ _ p
read_string-Reads (suc fuel) quote buffer p h = elim (Option-cases (current p)) [
  | inl e ↦ rw (e, read_string) (fail-Reads IsShort _ _ p)
  | inr (c, e) ↦ elim (Bool-cases (c == quote)) [
    | inl f ↦ rw (e, read_string, f) (h, omega (arith, take_byte-left p))
    | inr f ↦
        rw (e, read_string, f)
          (next _ (add_character-Reads quote buffer c (take_byte p).1)
            (λ buffer' p'' k. read_string-Reads fuel quote buffer' p'' k))
  ]
]
  where
    next :
        (o : Parsed Bytes)
        → Reads IsShort (left (take_byte p).1) o
        → ((buffer' : Bytes) (p'' : Cursor)
            → IsShort buffer'
            → Reads IsShort (left p'') (read_string fuel quote buffer' p''))
        → Reads IsShort
            (left p)
            (elim o [ inl d ↦ inl d | inr (buffer', p'') ↦ read_string fuel quote buffer' p'' ])
    next (inl d) k rest = tt
    next (inr (buffer', p'')) k rest =
        Reads-le IsShort _ (omega (arith, take_byte-left p, k.1)) (rest buffer' p'' k.0)

pub parse_quoted_string-Reads : (p : Cursor) → Reads IsShort (left p - 1) (parse_quoted_string p)
unfolding parse_quoted_string
parse_quoted_string-Reads p = elim (Option-cases (current p)) [
  | inl e ↦ rw (e, parse_quoted_string) (fail-Reads IsShort _ _ p)
  | inr (c, e) ↦
      rw (e, parse_quoted_string)
        (Reads-le IsShort _ (omega (arith, take_byte-left p))
          (read_string-Reads _ c [] (take_byte p).1 (omega arith)))
]

bare_key-left : (text : Bytes) (p : Cursor) → p.rest ≡ text → left (bare_key text p).1 ≤ left p
unfolding bare_key
bare_key-left [] p e = omega arith
bare_key-left (c ∷ rest) p e = elim (Bool-cases (bare_key_character c)) [
  | inl f ↦ rw f (shorter (bare_key-left rest (take_byte p).1 rest_eq) (take_byte-left p))
  | inr f ↦ rw f (omega arith)
]
  where
    rest_eq : (take_byte p).1.rest ≡ rest
    rest_eq = rw e (after-rest c rest p)

    shorter : {a b n : ℕ} → a ≤ b → b ≡ n - 1 → a ≤ n
    shorter h k = omega arith

pub parse_key-Reads : (p : Cursor) → Reads IsShort (left p) (parse_key p)
unfolding parse_key
parse_key-Reads p =
    if-Reads IsShort _ (at_quote (current p)) _ _
      (Reads-le IsShort _ (omega arith) (parse_quoted_string-Reads p))
      (if-Reads IsShort _ (length (bare_key p.rest p).0 == 0) _ _ (fail-Reads IsShort _ _ _)
        (elim (Bool-cases (ltb max_string_bytes (length (bare_key p.rest p).0))) [
          | inl f ↦ rw f (fail-Reads IsShort _ _ _)
          | inr f ↦ rw f (at_most f, bare_key-left p.rest p refl)
        ]))
  where
    at_most : {m : ℕ} → ltb max_string_bytes m ≡ false → m ≤ max_string_bytes
    at_most f = ground arith
