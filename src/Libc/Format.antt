-- ===== src/Libc/Format.antt =====
-- src/libc/common/format.c: `vsnprintf`.
pub mod Buffer
use facet_os.Prelude.{
  ℕ, zero, suc, ◌+◌, ◌-◌, ◌*◌, ◌/◌, ◌%◌, ◌^◌, ◌≤◌, ◌<◌, min, max, bit_and, bit_or, bit_xor, ◌≡◌,
  refl, sym, ap, ap₂, ◌∙◌, subst, ◌≢◌, ◌↔◌, ◌⊎◌, inl, inr, Bool, true, false, not, ◌&&◌, ◌||◌,
  Option, none, some, List, [], ◌∷◌, ◌++◌, map, append-nil, append_assoc, arith, ltb, leb, ◌==◌,
  if◌then◌else◌, ltb→lt, lt→ltb, leb→le, ==_iff, tests, Bool-cases, Option-cases, length, get_elem?,
  get_or, set, take, drop, replicate, length-append, length-set, get_elem?-set_self,
  get_elem?-set_ne, take-append-drop, length-take, length-drop, length-replicate, length-map, Bytes,
  bytes_equal, bytes_equal_iff, bytes_equal_refl, bytes_equal_symm,
}
use mathlib.Core.Bool.{false≢true}
use native.Mathlib.Nat.{add-zero}
use facet_os.Prelude.Monad.{Result, ok, err, ◌>>=◌, ◌>>◌, guard, >>=-eq-some, guard-eq-some}
use mathlib.Core.List.{reverse}

-- the bytes stored at the start of the buffer, and `used`
pub record Out : Type 0 where
  pub stored : Bytes
  pub used : ℕ

abbrev pub empty_out : Out
empty_out = record { stored = []; used = 0 }

-- `append`; the bytes are stored one behind the other.
unfoldable pub append : ℕ → Out → ℕ → Out
append size o byte = record {
  stored = if ltb (o.used + 1) size then o.stored ++ byte ∷ [] else o.stored;
  used = o.used + 1;
}

-- A variadic argument: an integer as its bits, or a string.
pub data Arg : Type 0 where
  word : ℕ → Arg
  text : Bytes → Arg

-- `va_arg`; an argument of another type or none is undefined in C, and stands for 0 and the empty
-- string here.
pub word_arg : ℕ → List Arg → ℕ × List Arg
word_arg width [] = (0, [])
word_arg width (word w ∷ args) = (w % 2 ^ width, args)
word_arg width (text s ∷ args) = (0, args)

pub text_arg : List Arg → Bytes × List Arg
text_arg [] = ([], [])
text_arg (word w ∷ args) = ([], args)
text_arg (text s ∷ args) = (s, args)

-- `if (*format == '0') { padding = '0'; format++; }`
pub padding_of : Bytes → ℕ × Bytes
padding_of [] = (b' ', [])
padding_of (c ∷ format) = if c == b'0' then (b'0', format) else (b' ', c ∷ format)

-- the loop over the digits of the width, an `unsigned int`
pub width_from : ℕ → Bytes → ℕ × Bytes
width_from width [] = (width, [])
width_from width (c ∷ format) =
    let rest = width_from ((width * 10 + (c - b'0')) % 2 ^ 32) format in
    if leb b'0' c && leb c b'9' then rest else (width, c ∷ format)

-- `if (format[0] == 'l' && format[1] == 'l')`
pub long_long_of : Bytes → Bool × Bytes
long_long_of [] = (false, [])
long_long_of (a ∷ []) = (false, a ∷ [])
long_long_of (a ∷ b ∷ format) =
    if a == b'l' && b == b'l' then (true, format) else (false, a ∷ b ∷ format)

-- The `do` loop over the digits, the last one first. A 64-bit number has at most 22 digits in base
-- 8, so the room of 32 is enough.
pub digits_from : ℕ → ℕ → ℕ → Bytes
digits_from zero value base = []
digits_from (suc room) value base =
    let rest = digits_from room (value / base) base in
    (b'0' + value % base) ∷ (if value / base == 0 then [] else rest)

-- the padding, and the digits in their order
unfoldable pub number_text : ℕ → ℕ → ℕ → ℕ → Bytes
unfolding digits_from
number_text padding width value base =
    let digits = digits_from 32 value base in
    replicate (width - length digits) padding ++ reverse digits

-- What a directive appends, the format behind it, and the arguments left; a 0 stands for the end of
-- the format.
abbrev pub Step : Type 0
Step = Bytes × Bytes × List Arg

pub convert : ℕ → ℕ → Bool → ℕ → Bytes → List Arg → Step
unfolding number_text text_arg word_arg
convert padding width long_long conversion format args =
    if conversion == b'%'
    then (b'%' ∷ [], format, args)
    else if conversion == b's'
    then (let (s, args') = text_arg args in (s, format, args'))
    else (let (value, args') = word_arg (if long_long then 64 else 32) args in
        (number_text padding width value (if conversion == b'o' then 8 else 10), format, args'))

-- the character of the conversion
pub conversion_of : Bytes → ℕ × Bytes
conversion_of [] = (0, [])
conversion_of (c ∷ format) = (c, format)

-- behind `%`
pub directive : Bytes → List Arg → Step
unfolding convert padding_of width_from long_long_of conversion_of
directive format args =
    let (padding, f₁) = padding_of format in
    let (width, f₂) = width_from 0 f₁ in
    let (long_long, f₃) = long_long_of f₂ in
    let (conversion, f₄) = conversion_of f₃ in convert padding width long_long conversion f₄ args

-- The bytes that the loop over the format appends. Each round takes a character, so the length of
-- the format is fuel enough.
pub format_from : ℕ → Bytes → List Arg → Bytes
format_from fuel [] args = []
format_from zero (c ∷ format) args = []
format_from (suc fuel) (c ∷ format) args = elim (c == b'%') [
  | false ↦ c ∷ format_from fuel format args
  | true ↦
      let (out, format', args') = directive format args in out ++ format_from fuel format' args'
]

unfoldable pub format_text : Bytes → List Arg → Bytes
unfolding format_from directive
format_text format args = format_from (length format) format args

pub append_all : ℕ → Out → Bytes → Out
append_all size o [] = o
append_all size o (c ∷ cs) = append_all size (append size o c) cs

-- `vsnprintf`: what is stored at the start of the buffer, where the terminator goes (nowhere for a
-- buffer of no bytes), and the result, an `int` as its 32 bits. `used` is a `size_t`; fewer than
-- 2 ^ 64 bytes are appended. `snprintf` only collects the arguments.
unfoldable pub vsnprintf : ℕ → Bytes → List Arg → Bytes × Option ℕ × ℕ
vsnprintf size format args =
    let o = append_all size empty_out (format_text format args) in
    (
      o.stored,
      if size == 0 then none else some (if ltb o.used size then o.used else size - 1),
      o.used % 2 ^ 32,
    )
