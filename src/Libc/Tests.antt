-- ===== src/Libc/Tests.antt =====
-- Runs of the library, and the laws at them.
use facet_os.Prelude.{◌≡◌, refl, List, [], ◌∷◌, arith, get_elem?, Bytes}
use facet_os.Libc.Memory.{memmove}
use facet_os.Libc.Memory.Laws.{moved, memmove-moved}
use facet_os.Libc.Format.{word, text, vsnprintf, format_text}
use facet_os.Libc.Format.Buffer.{printed_text, vsnprintf-format_text}

-- six bytes, and the first four of them moved up by one
abbrev memory : Bytes
memory = 1 ∷ 2 ∷ 3 ∷ 4 ∷ 5 ∷ 6 ∷ []

memmove-moved_example : get_elem? (memmove memory 1 0 4) 3 ≡ moved memory 1 0 4 3
memmove-moved_example = memmove-moved memory 1 0 4 3 (omega arith) (omega arith)

-- HOME=/ and A=b
abbrev variables : List (Bytes × Bytes)
variables = (b'H' ∷ b'O' ∷ b'M' ∷ b'E' ∷ [], b'/' ∷ []) ∷ (b'A' ∷ [], b'b' ∷ []) ∷ []

-- `%03llo:%s` with 8 and a letter, in a buffer of five bytes
abbrev octal : Bytes
octal = b'%' ∷ b'0' ∷ b'3' ∷ b'l' ∷ b'l' ∷ b'o' ∷ b':' ∷ b'%' ∷ b's' ∷ []

vsnprintf-format_text_example :
    vsnprintf 5 octal (word 8 ∷ text (b'x' ∷ []) ∷ [])
    ≡ printed_text 5 (format_text octal (word 8 ∷ text (b'x' ∷ []) ∷ []))
vsnprintf-format_text_example = vsnprintf-format_text 5 octal (word 8 ∷ text (b'x' ∷ []) ∷ [])

format_text_run :
    format_text octal (word 8 ∷ text (b'x' ∷ []) ∷ []) ≡ b'0' ∷ b'1' ∷ b'0' ∷ b':' ∷ b'x' ∷ []
unfolding format_text
format_text_run = refl
