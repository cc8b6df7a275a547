-- ===== src/Libc/Text.antt =====
-- src/libc/common/string.c: the functions on C strings. A string is the list of its bytes before
-- the terminator, none of them 0.
use facet_os.Prelude.{
  ℕ, zero, suc, ◌%◌, Option, none, some, [], ◌∷◌, ◌==◌, if◌then◌else◌, get_or, Bytes,
}

-- `*text` at an index: 0 at the end
abbrev pub char_at : Bytes → ℕ → ℕ
char_at text i = get_or text i 0

-- The two bytes whose difference `strcmp` returns.
pub strcmp : Bytes → Bytes → ℕ × ℕ
strcmp [] right = (0, char_at right 0)
strcmp (x ∷ left) [] = (x, 0)
strcmp (x ∷ left) (y ∷ right) = let rest = strcmp left right in if x == y then rest else (x, y)

-- The same for `strncmp`, which compares `count` bytes at most.
unfoldable pub strncmp : Bytes → Bytes → ℕ → ℕ × ℕ
strncmp left right zero = (0, 0)
strncmp [] right (suc count) = (0, char_at right 0)
strncmp (x ∷ left) [] (suc count) = (x, 0)
strncmp (x ∷ left) (y ∷ right) (suc count) =
    let rest = strncmp left right count in if x == y then rest else (x, y)

-- the offset of the first byte that is the character, the terminator included
unfoldable pub strchr : Bytes → ℕ → Option ℕ
strchr [] character = if 0 == character % 256 then some 0 else none
strchr (c ∷ text) character =
    if c == character % 256
    then some 0
    else elim (strchr text character) [ none ↦ none | some i ↦ some (suc i) ]
