-- ===== src/Utf8.antt =====
-- include/facetos/utf8.h: the check that a byte sequence is UTF-8, and the encoder that
-- `append_utf8` of src/config.c holds.
pub mod RoundTrip
mod Tests
pub mod Validate
use facet_os.Prelude.{
  ℕ, zero, suc, ◌+◌, ◌*◌, ◌/◌, ◌%◌, Bool, true, false, not, ◌&&◌, ◌||◌, Option, none, some, [], ◌∷◌,
  ltb, leb, ◌==◌, if◌then◌else◌, length, Bytes,
}

-- The number of continuation bytes that a lead byte announces, and the bits that it carries.
-- `first & 0x1f` and the other masks are remainders.
pub lead : ℕ → Option (ℕ × ℕ)
lead first =
    if leb 0xc2 first && leb first 0xdf
    then some (1, first % 32)
    else if leb 0xe0 first && leb first 0xef
    then some (2, first % 16)
    else if leb 0xf0 first && leb first 0xf4
    then some (3, first % 8)
    else none

-- The loop over `j`. For a byte, `(next & 0xc0) == 0x80` says that `next / 64` is 2; the bits
-- that `|` joins are apart, so it adds.
pub continuation : ℕ → ℕ → Bytes → Option (ℕ × Bytes)
continuation zero value data' = some (value, data')
continuation (suc j) value [] = none
continuation (suc j) value (next ∷ data') =
    let rest = continuation j (value * 64 + next % 64) data' in
    if next / 64 == 2 then rest else none

pub in_range : ℕ → ℕ → Bool
in_range needed value = not (
    needed == 2 && ltb value 0x800
    || needed == 3 && ltb value 0x10000
    || ltb 0x10ffff value
    || leb 0xd800 value && leb value 0xdfff)

-- What follows one encoded character, `first` being its first byte; `none` is `return false`.
pub sequence : ℕ → Bytes → Option Bytes
unfolding lead continuation in_range
sequence first data' = if ltb first 0x80 then some data' else elim (lead first) [
  | none ↦ none
  | some (needed, value) ↦
      if ltb (length data') needed then none else elim (continuation needed value data') [
        | none ↦ none
        | some (v, rest) ↦ if in_range needed v then some rest else none
      ]
]

-- `while (i < size)`. Each round takes a byte, so the size is fuel enough.
pub scan : ℕ → Bytes → Bool
scan fuel [] = true
scan zero (first ∷ data') = false
scan (suc fuel) (first ∷ data') = elim (sequence first data') [
  | none ↦ false
  | some rest ↦ scan fuel rest
]

unfoldable pub is_valid : Bytes → Bool
unfolding scan sequence
is_valid data' = scan (length data') data'

-- A Unicode scalar value, as `append_utf8` tests it.
unfoldable pub is_scalar : ℕ → Bool
is_scalar s = not (ltb 0x10ffff s || leb 0xd800 s && leb s 0xdfff)

-- The bytes that `append_utf8` stores. The bits that `|` joins are apart, so it adds.
unfoldable pub encode : ℕ → Bytes
encode s =
    if leb s 0x7f
    then s ∷ []
    else if leb s 0x7ff
    then (0xc0 + s / 64) ∷ (0x80 + s % 64) ∷ []
    else if leb s 0xffff
    then (0xe0 + s / 4096) ∷ (0x80 + s / 64 % 64) ∷ (0x80 + s % 64) ∷ []
    else (0xf0 + s / 262144) ∷ (0x80 + s / 4096 % 64) ∷ (0x80 + s / 64 % 64) ∷ (0x80 + s % 64) ∷ []
