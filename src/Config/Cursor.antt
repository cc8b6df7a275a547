-- ===== src/Config/Cursor.antt =====
-- src/config.c: the place in the text, and failures.
pub mod Progress
use facet_os.Prelude.{
  ℕ, zero, suc, ◌+◌, ◌⊎◌, inl, Bool, ◌&&◌, ◌||◌, Option, none, some, [], ◌∷◌, ◌==◌, if◌then◌else◌,
  length, Bytes,
}

-- The part of `Parser` that the lexical level uses. `rest` is the text from `offset` on.
pub record Cursor : Type 0 where
  pub rest : Bytes
  pub line : ℕ
  pub column : ℕ

pub data Category : Type 0 where
  syntax utf8 limit unsupported_version schema duplicate unresolved_reference : Category

-- The diagnostic of the first failure, without its texts. A failure ends the parsing, so no later
-- one can replace it.
pub record Diagnostic : Type 0 where
  pub category : Category
  pub at_line : ℕ
  pub at_column : ℕ

-- what a function of the parser gives: a failure, or a value and the place behind it
abbrev pub Parsed : Type 0 → Type 0
Parsed A = Diagnostic ⊎ (A × Cursor)

-- `fail`
unfoldable pub fail : {A : Type 0} → Category → Cursor → Parsed A
fail category p = inl (record { category = category; at_line = p.line; at_column = p.column })

-- `current`; `none` is -1
abbrev pub current_of : Bytes → Option ℕ
current_of [] = none
current_of (c ∷ rest) = some c

abbrev pub current : Cursor → Option ℕ
current p = current_of p.rest

-- the place behind a byte
abbrev pub after : ℕ → Bytes → Cursor → Cursor
after c rest p =
    if c == b'\n'
    then record { rest = rest; line = p.line + 1; column = 1 }
    else record { rest = rest; line = p.line; column = p.column + 1 }

-- `take`
abbrev pub take_from : Bytes → Cursor → Option ℕ × Cursor
take_from [] p = (none, p)
take_from (c ∷ rest) p = (some c, after c rest p)

abbrev pub take_byte : Cursor → Option ℕ × Cursor
take_byte p = take_from p.rest p

-- the inner loop of `skip_space_and_comments`, over the bytes left
pub skip_comment : Bytes → Cursor → Cursor
skip_comment [] p = p
skip_comment (c ∷ rest) p = if c == b'\n' then p else skip_comment rest (after c rest p)

abbrev pub is_space : Bool → ℕ → Bool
is_space allow_newline c = c == b' ' || c == b'\t' || c == b'\r' || allow_newline && c == b'\n'

-- `skip_space_and_comments`. Each round takes a byte, so the length of the text is fuel enough.
pub skip_from : ℕ → Bool → Cursor → Cursor
skip_from zero allow_newline p = p
skip_from (suc fuel) allow_newline p = elim (current p) [
  | none ↦ p
  | some c ↦
      let (taken, p') = take_byte p in
      let spaces = skip_from fuel allow_newline p' in
      let comment = skip_comment p.rest p in
      let behind = skip_from fuel allow_newline comment in
      if is_space allow_newline c
      then spaces
      else if c == b'#'
      then (if allow_newline then behind else comment)
      else p
]

unfoldable pub skip_space_and_comments : Bool → Cursor → Cursor
unfolding skip_from skip_comment
skip_space_and_comments allow_newline p = skip_from (length p.rest) allow_newline p
