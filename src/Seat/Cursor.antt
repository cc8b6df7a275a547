-- ===== src/Seat/Cursor.antt =====
-- src/seat/pc_cursor.c: the hardware cursor, through the index and data ports of the VGA
-- controller. The port callbacks are a parameter.
pub mod Registers
use facet_os.Prelude.{
  ℕ, zero, suc, ◌+◌, ◌-◌, ◌*◌, ◌/◌, ◌%◌, ◌^◌, ◌≤◌, ◌<◌, min, max, bit_and, bit_or, bit_xor, ◌≡◌,
  refl, sym, ap, ap₂, ◌∙◌, subst, ◌≢◌, ◌↔◌, ◌⊎◌, inl, inr, Bool, true, false, not, ◌&&◌, ◌||◌,
  Option, none, some, List, [], ◌∷◌, ◌++◌, map, append-nil, append_assoc, arith, ltb, leb, ◌==◌,
  if◌then◌else◌, ltb→lt, lt→ltb, leb→le, ==_iff, tests, Bool-cases, Option-cases, length, get_elem?,
  get_or, set, take, drop, replicate, length-append, length-set, get_elem?-set_self,
  get_elem?-set_ne, take-append-drop, length-take, length-drop, length-replicate, length-map, Bytes,
}
use mathlib.Core.Bool.{false≢true}
use native.Mathlib.Nat.{add-zero}

abbrev pub crtc_index : ℕ
crtc_index = 0x3d4

abbrev pub crtc_data : ℕ
crtc_data = 0x3d5

abbrev pub cursor_start : ℕ
cursor_start = 0x0a

abbrev pub cursor_high : ℕ
cursor_high = 0x0e

abbrev pub cursor_low : ℕ
cursor_low = 0x0f

-- `SeatPCCursorIO` over the state `S` of the device; `none` is a result that is not 0.
pub record CursorIo (S : Type 0) : Type 0 where
  pub read : S → ℕ → Option (ℕ × S)
  pub write : S → ℕ → ℕ → Option S

module _ {S : Type 0} (io : CursorIo S) where
  unfoldable pub read_register : S → ℕ → Option (ℕ × S)
  read_register s index = elim (io.write s crtc_index index) [
    | none ↦ none
    | some s' ↦ io.read s' crtc_data
  ]

  unfoldable pub write_register : S → ℕ → ℕ → Option S
  write_register s index value = elim (io.write s crtc_index index) [
    | none ↦ none
    | some s' ↦ io.write s' crtc_data value
  ]

  -- `start & ~VGA_CURSOR_DISABLED`, as a byte
  unfoldable pub cursor_enable : S → Option S
  cursor_enable s = elim (read_register s cursor_start) [
    | none ↦ none
    | some (start, s') ↦ write_register s' cursor_start (bit_and start 0xdf)
  ]

  unfoldable pub cursor_set : S → ℕ → Option S
  cursor_set s cell = elim (write_register s cursor_low (cell % 256)) [
    | none ↦ none
    | some s' ↦ write_register s' cursor_high (cell / 256 % 256)
  ]
