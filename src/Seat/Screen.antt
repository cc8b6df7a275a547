-- ===== src/Seat/Screen.antt =====
-- src/seat/pc_console.c: one 80 by 25 text screen and the bytes written to it.
pub mod Bounds
pub mod Text
use facet_os.Prelude.{
  ℕ, zero, suc, ◌+◌, ◌-◌, ◌*◌, ◌/◌, ◌%◌, ◌^◌, ◌≤◌, ◌<◌, min, max, bit_and, bit_or, bit_xor, ◌≡◌,
  refl, sym, ap, ap₂, ◌∙◌, subst, ◌≢◌, ◌↔◌, ◌⊎◌, inl, inr, Bool, true, false, not, ◌&&◌, ◌||◌,
  Option, none, some, List, [], ◌∷◌, ◌++◌, map, append-nil, append_assoc, arith, ltb, leb, ◌==◌,
  if◌then◌else◌, ltb→lt, lt→ltb, leb→le, ==_iff, tests, Bool-cases, Option-cases, length, get_elem?,
  get_or, set, take, drop, replicate, length-append, length-set, get_elem?-set_self,
  get_elem?-set_ne, take-append-drop, length-take, length-drop, length-replicate, length-map, Bytes,
}
use mathlib.Core.Bool.{false≢true}

abbrev pub columns : ℕ
columns = 80

abbrev pub total_cells : ℕ
total_cells = 2000

-- light grey on black, and a space
abbrev pub blank : ℕ
blank = 0x0720

-- `SeatPCScreen`: the character cells, and the index of the next one to write
pub record Screen : Type 0 where
  pub cells : List ℕ
  pub cursor : ℕ

-- `memmove` of all rows but the first, then a blank last row
pub scroll_screen : Screen → Screen
scroll_screen s = record {
  cells = take (total_cells - columns) (drop columns s.cells) ++ replicate columns blank;
  cursor = total_cells - columns;
}

-- `if (screen->cursor >= SEAT_PC_CELLS) scroll_screen(screen);`
pub wrap : Screen → Screen
wrap s = if leb total_cells s.cursor then scroll_screen s else s

-- `screen->cells[screen->cursor++] = (uint16_t)(UINT16_C(0x0700) | byte);`
pub store : Screen → ℕ → Screen
store s byte = record { cells = set s.cells s.cursor (bit_or 0x0700 byte); cursor = s.cursor + 1 }

pub backspace : Screen → Screen
backspace s =
    let c = if s.cursor == 0 then 0 else s.cursor - 1 in
    record { cells = set s.cells c blank; cursor = c }

-- `put_byte` for a byte that is no tab
pub put_plain : Screen → ℕ → Screen
put_plain s byte = wrap (
    if byte == b'\r'
    then record s { cursor = s.cursor - s.cursor % columns }
    else if byte == b'\n'
    then record s { cursor = s.cursor + (columns - s.cursor % columns) }
    else if byte == 8
    then backspace s
    else if leb 32 byte && ltb byte 127
    then store (wrap s) byte
    else s)

-- `while (spaces-- != 0) put_byte(screen, ' ');`
pub put_spaces : ℕ → Screen → Screen
put_spaces zero s = s
put_spaces (suc n) s = put_spaces n (put_plain s b' ')

pub put_byte : Screen → ℕ → Screen
put_byte s byte = if byte == b'\t' then wrap (put_spaces (8 - s.cursor % 8) s) else put_plain s byte

-- the loop of `seat_pc_console_write`
pub put_bytes : Screen → Bytes → Screen
put_bytes s [] = s
put_bytes s (byte ∷ data') = put_bytes (put_byte s byte) data'
