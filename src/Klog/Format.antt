-- ===== src/Klog/Format.antt =====
-- The formatting of src/dominit0/klog.c: the characters that `klog_vprintf` emits, in order.
pub mod Numbers
use facet_os.Prelude.{
  ℕ, zero, suc, ◌+◌, ◌-◌, ◌*◌, ◌/◌, ◌%◌, ◌^◌, ◌≤◌, ◌<◌, min, max, bit_and, bit_or, bit_xor, ◌≡◌,
  refl, sym, ap, ap₂, ◌∙◌, subst, ◌≢◌, ◌↔◌, ◌⊎◌, inl, inr, Bool, true, false, not, ◌&&◌, ◌||◌,
  Option, none, some, List, [], ◌∷◌, ◌++◌, map, append-nil, append_assoc, arith, ltb, leb, ◌==◌,
  if◌then◌else◌, ltb→lt, lt→ltb, leb→le, ==_iff, tests, Bool-cases, Option-cases, length, get_elem?,
  get_or, set, take, drop, replicate, length-append, length-set, get_elem?-set_self,
  get_elem?-set_ne, take-append-drop, length-take, length-drop, length-replicate, length-map, Bytes,
  bytes_equal, bytes_equal_iff, bytes_equal_refl, bytes_equal_symm,
}
use mathlib.Core.Bool.{false≢true}
use native.Mathlib.Nat.{add-zero}
use facet_os.Prelude.Monad.{Result, ok, err, ◌>>=◌, ◌>>◌, guard, >>=-eq-some, guard-eq-some}
use mathlib.Core.List.{reverse}

-- `"0123456789abcdef"`
abbrev pub digits : Bytes
digits =
    b'0' ∷ b'1' ∷ b'2' ∷ b'3' ∷ b'4' ∷ b'5' ∷ b'6' ∷ b'7' ∷ b'8' ∷ b'9' ∷ b'a' ∷ b'b' ∷ b'c' ∷ b'd'
    ∷ b'e' ∷ b'f' ∷ []

-- `while (value != 0)` of `klog_emit_uint`, the last digit first. The buffer has 64 characters,
-- so a longer loop would leave it.
unfoldable pub uint_digits : ℕ → ℕ → ℕ → Bytes
uint_digits zero value base = []
uint_digits (suc room) value base =
    let rest = uint_digits room (value / base) base in
    if value == 0 then [] else get_or digits (value % base) 0 ∷ rest

abbrev pub digit_room : ℕ
digit_room = 64

unfoldable pub emit_uint : ℕ → ℕ → Bytes
emit_uint value base = if value == 0 then b'0' ∷ [] else reverse (uint_digits digit_room value base)

-- `klog_emit_int` on an `int` given by its 32 bits. For a negative value, `-(value + 1)` is the
-- number of the bits inverted, and the sum wraps nowhere.
unfoldable pub emit_int : ℕ → Bytes
unfolding emit_uint
emit_int value =
    if leb (2 ^ 31) value then b'-' ∷ emit_uint (2 ^ 32 - 1 - value + 1) 10 else emit_uint value 10

-- `klog_emit_int64`, on the 64 bits
unfoldable pub emit_int64 : ℕ → Bytes
unfolding emit_uint
emit_int64 value =
    if leb (2 ^ 63) value then b'-' ∷ emit_uint (2 ^ 64 - 1 - value + 1) 10 else emit_uint value 10

-- A variadic argument: an integer or a pointer as its bits, or a string, which may be NULL.
pub data Arg : Type 0 where
  word : ℕ → Arg
  text : Option Bytes → Arg

-- `klog_emit_string`; `(null)` for a null pointer
pub emit_string : Option Bytes → Bytes
emit_string none = b'(' ∷ b'n' ∷ b'u' ∷ b'l' ∷ b'l' ∷ b')' ∷ []
emit_string (some s) = s

-- `va_arg` at an integer type of the given width and at a string; an argument of another type or
-- none is undefined in C, and stands for 0 and NULL here.
pub word_arg : ℕ → List Arg → ℕ × List Arg
word_arg width [] = (0, [])
word_arg width (word w ∷ args) = (w % 2 ^ width, args)
word_arg width (text s ∷ args) = (0, args)

pub text_arg : List Arg → Option Bytes × List Arg
text_arg [] = (none, [])
text_arg (word w ∷ args) = (none, args)
text_arg (text s ∷ args) = (s, args)

-- What a directive emits, the format behind it (`none` is the `return` at the end of the
-- format), and the arguments left.
abbrev pub Step : Type 0
Step = Bytes × Option Bytes × List Arg

abbrev pub signed : ℕ → Bytes → List Arg → Step
signed width rest args =
    let (w, args') = word_arg width args in
    (if width == 32 then emit_int w else emit_int64 w, some rest, args')

abbrev pub unsigned : ℕ → ℕ → Bytes → List Arg → Step
unsigned width base rest args =
    let (w, args') = word_arg width args in (emit_uint w base, some rest, args')

-- behind `%z`
pub size_directive : Bytes → List Arg → Step
unfolding word_arg emit_uint
size_directive [] args = (b'%' ∷ b'z' ∷ [], none, args)
size_directive (c ∷ rest) args =
    if c == b'u'
    then unsigned 64 10 rest args
    else if c == b'x'
    then unsigned 64 16 rest args
    else (b'%' ∷ b'z' ∷ c ∷ [], some rest, args)

-- behind `%l` and `%ll`, which is the prefix to repeat; both types have 64 bits
pub long_directive : Bytes → Bytes → List Arg → Step
unfolding word_arg emit_uint emit_int64
long_directive prefix [] args = (prefix, none, args)
long_directive prefix (c ∷ rest) args =
    if c == b'd' || c == b'i'
    then signed 64 rest args
    else if c == b'u'
    then unsigned 64 10 rest args
    else if c == b'x'
    then unsigned 64 16 rest args
    else (prefix ++ c ∷ [], some rest, args)

pub any_long_directive : Bytes → List Arg → Step
unfolding long_directive
any_long_directive [] args = long_directive (b'%' ∷ b'l' ∷ []) [] args
any_long_directive (c ∷ rest) args =
    if c == b'l'
    then long_directive (b'%' ∷ b'l' ∷ b'l' ∷ []) rest args
    else long_directive (b'%' ∷ b'l' ∷ []) (c ∷ rest) args

-- behind `%`
pub directive : Bytes → List Arg → Step
unfolding size_directive any_long_directive text_arg word_arg emit_string emit_uint emit_int
directive [] args = (b'%' ∷ [], none, args)
directive (c ∷ rest) args =
    if c == b'%'
    then (b'%' ∷ [], some rest, args)
    else if c == b's'
    then (let (s, args') = text_arg args in (emit_string s, some rest, args'))
    else if c == b'd' || c == b'i'
    then signed 32 rest args
    else if c == b'u'
    then unsigned 32 10 rest args
    else if c == b'x'
    then unsigned 32 16 rest args
    else if c == b'z'
    then size_directive rest args
    else if c == b'l'
    then any_long_directive rest args
    else if c == b'p'
    then (let (w, args') = word_arg 64 args in (b'0' ∷ b'x' ∷ emit_uint w 16, some rest, args'))
    else (b'%' ∷ c ∷ [], some rest, args)

-- `klog_vprintf`. Each round takes a character, so the length of the format is fuel enough.
pub format_from : ℕ → Bytes → List Arg → Bytes
format_from fuel [] args = []
format_from zero (c ∷ fmt) args = []
format_from (suc fuel) (c ∷ fmt) args = elim (c == b'%') [
  | false ↦ c ∷ format_from fuel fmt args
  | true ↦
      let (out, behind, args') = directive fmt args in
      elim behind [ none ↦ out | some rest ↦ out ++ format_from fuel rest args' ]
]

unfoldable pub vprintf : Bytes → List Arg → Bytes
unfolding format_from directive
vprintf fmt args = format_from (length fmt) fmt args
