-- ===== src/Utf8/Validate.antt =====
-- `utf8_validate` of src/config.c, which also gives the offset of what it refuses.
pub mod Laws
use facet_os.Prelude.{
  ℕ, zero, suc, ◌+◌, ◌*◌, ◌/◌, ◌%◌, Option, none, some, [], ◌∷◌, ◌⊎◌, inl, inr, ltb, ◌==◌,
  if◌then◌else◌, length, Bytes,
}
use facet_os.Utf8.{lead, in_range}

-- The loop over `j`, at offset `i`; the left side is `*bad_offset`. The length was tested before,
-- so the list does not end here.
pub continuation : ℕ → ℕ → ℕ → Bytes → ℕ ⊎ (ℕ × Bytes)
continuation i zero value data' = inr (value, data')
continuation i (suc j) value [] = inl i
continuation i (suc j) value (next ∷ data') =
    let rest = continuation (i + 1) j (value * 64 + next % 64) data' in
    if next / 64 == 2 then rest else inl i

-- What stands behind the inner loop, for a character at offset `i`.
pub check_range : ℕ → ℕ → ℕ ⊎ (ℕ × Bytes) → ℕ ⊎ (ℕ × Bytes)
check_range i needed (inl bad) = inl bad
check_range i needed (inr (v, rest)) =
    if in_range needed v then inr (i + 1 + needed, rest) else inl i

pub multibyte : ℕ → Option (ℕ × ℕ) → Bytes → ℕ ⊎ (ℕ × Bytes)
unfolding continuation check_range
multibyte i none data' = inl i
multibyte i (some (needed, value)) data' =
    if ltb (length data') needed
    then inl i
    else check_range i needed (continuation (i + 1) needed value data')

-- One character, its first byte at offset `i`: a bad offset, or the next offset and the rest.
pub sequence : ℕ → ℕ → Bytes → ℕ ⊎ (ℕ × Bytes)
unfolding multibyte
sequence i first data' =
    if ltb first 0x80 then inr (i + 1, data') else multibyte i (lead first) data'

pub scan : ℕ → ℕ → Bytes → Option ℕ
scan fuel i [] = none
scan zero i (first ∷ data') = some i
scan (suc fuel) i (first ∷ data') = elim (sequence i first data') [
  | inl bad ↦ some bad
  | inr (i', rest) ↦ scan fuel i' rest
]

-- `none` is a return of 0, and `some` a return of -1 with the bad offset.
unfoldable pub utf8_validate : Bytes → Option ℕ
unfolding scan sequence
utf8_validate data' = scan (length data') 0 data'
