-- ===== src/Config/Strings/Plain.antt =====
-- src/config.c, parse_quoted_string: strings without escapes.
use facet_os.Prelude.{
  ℕ, zero, suc, ◌+◌, ◌≤◌, ◌<◌, ◌≡◌, sym, ap, ap₂, ◌∙◌, inr, Bool, true, false, not, ◌&&◌, ◌||◌, [],
  ◌∷◌, ◌++◌, append-nil, append_assoc, arith, ltb, leb, ◌==◌, length, length-append, Bytes,
}
use facet_os.Config.Cursor.{Cursor}
use facet_os.Config.Strings.{
  max_string_bytes, append_raw_byte, add_raw, add_character, read_string, parse_quoted_string,
}

-- a byte that stands for itself in a string with this quote
abbrev pub is_plain : ℕ → ℕ → Bool
is_plain quote c =
    not (c == quote)
    && (leb 0x20 c || c == b'\t')
    && not (c == 0x7f)
    && not (quote == b'"' && c == b'\\')

abbrev pub AllPlain : ℕ → Bytes → Type 0
AllPlain quote [] = Unit
AllPlain quote (c ∷ s) = (is_plain quote c ≡ true) × AllPlain quote s

add_character_plain :
    (quote c : ℕ) (buffer : Bytes) (p : Cursor)
    → is_plain quote c ≡ true
    → length buffer < max_string_bytes
    → add_character quote buffer c p ≡ inr (buffer ++ c ∷ [], p)
unfolding add_character add_raw append_raw_byte
add_character_plain quote c buffer p h l =
    let e₁ : (c == b'\n' || c == b'\r') ≡ false = ground (arith, h) in
    let e₂ : (quote == b'"' && c == b'\\') ≡ false = ground (arith, h) in
    let e₃ : (c == 0) ≡ false = ground (arith, h) in
    let e₄ : (ltb c 0x20 && not (c == b'\t') || c == 0x7f) ≡ false = ground (arith, h) in
    let e₅ : leb max_string_bytes (length buffer) ≡ false = ground (arith, l) in
    rw (e₁, e₂, e₃, e₄, e₅)

abbrev pub place : Bytes → ℕ → ℕ → Cursor
place rest line column = record { rest = rest; line = line; column = column }

plain_first :
    (quote c : ℕ) → is_plain quote c ≡ true → ((c == quote) ≡ false) × ((c == b'\n') ≡ false)
plain_first quote c h = (ground (arith, h), ground (arith, h))

no_newline : (quote : ℕ) → (quote == b'"' || quote == b'\'') ≡ true → (quote == b'\n') ≡ false
no_newline quote h = ground (arith, h)

same : (quote : ℕ) → (quote == quote) ≡ true
same quote = ground arith

read_string_plain :
    (s tail buffer : Bytes) (fuel quote line column : ℕ)
    → (quote == b'"' || quote == b'\'') ≡ true
    → AllPlain quote s
    → length buffer + length s ≤ max_string_bytes
    → length s < fuel
    → read_string fuel quote buffer (place (s ++ quote ∷ tail) line column)
      ≡ inr (buffer ++ s, place tail line (column + length s + 1))
unfolding read_string
read_string_plain s tail buffer zero quote line column q a l f = absurd (omega arith)
read_string_plain [] tail buffer (suc fuel) quote line column q a l f =
    rw (same quote, read_string, no_newline quote q)
      (ap₂ (λ (b : Bytes) (k : ℕ). inr (b, place tail line k)) (sym (append-nil buffer))
        (omega arith))
read_string_plain (c ∷ s) tail buffer (suc fuel) quote line column q a l f =
    let (e, n) = plain_first quote c a.0 in
    rw
      (
        e,
        read_string,
        n,
        add_character_plain quote c buffer (place (s ++ quote ∷ tail) line (column + 1)) a.0
            (omega arith),
      )
      (read_string_plain s tail (buffer ++ c ∷ []) fuel quote line (column + 1) q a.1
          (omega (arith, length-append buffer (c ∷ []))) (omega arith)
        ∙ ap₂ (λ (b : Bytes) (k : ℕ). inr (b, place tail line k)) (append_assoc buffer (c ∷ []) s)
            (omega arith))

-- A string of plain bytes between two quotes, double or single, and no longer than the limit, is
-- read as those bytes, whatever follows; the place behind it is on the same line, its length and
-- two columns on.
pub parse_quoted_string-plain :
    (s tail : Bytes) (quote line column : ℕ)
    → (quote == b'"' || quote == b'\'') ≡ true
    → AllPlain quote s
    → length s ≤ max_string_bytes
    → parse_quoted_string (place (quote ∷ s ++ quote ∷ tail) line column)
      ≡ inr (s, place tail line (column + length s + 2))
unfolding parse_quoted_string
parse_quoted_string-plain s tail quote line column q a l = rw (no_newline quote q) (
    read_string_plain s tail [] (suc (length (s ++ quote ∷ tail))) quote line (column + 1) q a
      (omega arith) (omega (arith, length-append s (quote ∷ tail)))
    ∙ ap (λ (k : ℕ). inr (s, place tail line k)) (omega arith))
