-- ===== src/Seat/Console.antt =====
-- src/seat/pc_console.c: the five terminals of a seat, one of them on the display. A console
-- pointer is not null here, and a buffer with its size is a list.
pub mod Terminals
use facet_os.Prelude.{
  ℕ, zero, suc, ◌+◌, ◌-◌, ◌*◌, ◌/◌, ◌%◌, ◌^◌, ◌≤◌, ◌<◌, min, max, bit_and, bit_or, bit_xor, ◌≡◌,
  refl, sym, ap, ap₂, ◌∙◌, subst, ◌≢◌, ◌↔◌, ◌⊎◌, inl, inr, Bool, true, false, not, ◌&&◌, ◌||◌,
  Option, none, some, List, [], ◌∷◌, ◌++◌, map, append-nil, append_assoc, arith, ltb, leb, ◌==◌,
  if◌then◌else◌, ltb→lt, lt→ltb, leb→le, ==_iff, tests, Bool-cases, Option-cases, length, get_elem?,
  get_or, set, take, drop, replicate, length-append, length-set, get_elem?-set_self,
  get_elem?-set_ne, take-append-drop, length-take, length-drop, length-replicate, length-map, Bytes,
}
use mathlib.Core.Bool.{false≢true}
use native.Mathlib.Nat.{add-zero}
use facet_os.Seat.Screen.{Screen, total_cells, blank, put_bytes}

-- what the display is given: the cells, and the cursor
abbrev pub Frame : Type 0
Frame = List ℕ × ℕ

-- `SeatPCConsole`. The callback `present` is a parameter of the code; an `int` is its 32 bits.
pub record Console : Type 0 where
  pub screens : List Screen
  pub active : ℕ
  pub present : Option (Frame → ℕ)

abbrev pub terminals : ℕ
terminals = 5

abbrev pub minus_one : ℕ
minus_one = 2 ^ 32 - 1

-- a screen of blanks, the cursor in the first cell
unfoldable pub fresh_screen : Screen
fresh_screen = record { cells = replicate total_cells blank; cursor = 0 }

unfoldable pub initialize : Option (Frame → ℕ) → Console
unfolding fresh_screen
initialize callback = record {
  screens = replicate terminals fresh_screen;
  active = 0;
  present = callback;
}

-- `seat_pc_console_present`: the result, and the frame that the callback is given. Every console
-- has its five screens (`IsValid`), so the lookup finds one.
pub show : Console → ℕ × Option Frame
show c = if leb terminals c.active then (minus_one, none) else elim c.present [
  | none ↦ (minus_one, none)
  | some callback ↦ elim (get_elem? c.screens c.active) [
    | none ↦ (minus_one, none)
    | some s ↦ (callback (s.cells, s.cursor), some (s.cells, s.cursor))
  ]
]

unfoldable pub select : Console → ℕ → Console × ℕ × Option Frame
unfolding show
select c terminal =
    if leb terminals terminal
    then (c, minus_one, none)
    else (let c' = record c { active = terminal } in
        let (result, frame) = show c' in (c', result, frame))

-- the bytes on the screen of one terminal
pub update_screen : List Screen → ℕ → Bytes → List Screen
update_screen [] i d = []
update_screen (s ∷ ss) zero d = put_bytes s d ∷ ss
update_screen (s ∷ ss) (suc i) d = s ∷ update_screen ss i d

unfoldable pub write : Console → ℕ → Bytes → Console × ℕ × Option Frame
unfolding show update_screen
write c terminal d =
    if leb terminals terminal
    then (c, minus_one, none)
    else (let c' = record c { screens = update_screen c.screens terminal d } in
        let (result, frame) = show c' in
        if terminal == c'.active then (c', result, frame) else (c', 0, none))
