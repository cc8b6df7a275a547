-- ===== src/Seat/Screen/Bounds.antt =====
-- src/seat/pc_console.c: the cursor and the cells of a screen.
use facet_os.Prelude.{
  ℕ, zero, suc, ◌-◌, ◌%◌, ◌<◌, bit_or, ◌≡◌, inl, inr, [], ◌∷◌, arith, leb, ◌==◌, if◌then◌else◌,
  Bool-cases, length, take, drop, replicate, length-append, length-set, length-take, length-drop,
  length-replicate, Bytes,
}
use facet_os.Seat.Screen.{
  total_cells, blank, Screen, scroll_screen, wrap, store, backspace, put_plain, put_spaces,
  put_byte, put_bytes,
}

pub record IsValid (s : Screen) : Type 0 where
  pub all_cells : length s.cells ≡ total_cells
  pub on_screen : s.cursor < total_cells

length-scroll_screen :
    (s : Screen) → length s.cells ≡ total_cells → length (scroll_screen s).cells ≡ total_cells
unfolding scroll_screen
length-scroll_screen s h = omega (
  arith,
  length-append (take 1920 (drop 80 s.cells)) (replicate 80 blank),
  length-take 1920 (drop 80 s.cells),
  length-drop 80 s.cells,
  length-replicate 80 blank,
)

-- a cursor one row past the end is brought back
wrap-IsValid : (s : Screen) → length s.cells ≡ total_cells → IsValid (wrap s)
unfolding wrap
wrap-IsValid s h = elim (Bool-cases (leb total_cells s.cursor)) [
  | inl e ↦ rw e (record {
    all_cells = length-scroll_screen s h;
    on_screen = unfold scroll_screen in omega arith;
  })
  | inr e ↦ rw e (record { all_cells = h; on_screen = ground arith })
]

pub wrap_within : (s : Screen) → s.cursor < total_cells → wrap s ≡ s
unfolding wrap
wrap_within s h = ground arith

pub put_plain-IsValid : (s : Screen) (byte : ℕ) → IsValid s → IsValid (put_plain s byte)
unfolding put_plain
put_plain-IsValid s byte v = wrap-IsValid _ (
    unfold store backspace in
    ground (
      arith,
      wrap_within s v.on_screen,
      length-set s.cells s.cursor (bit_or 0x0700 byte),
      length-set s.cells (if s.cursor == 0 then 0 else s.cursor - 1) blank,
    ))

pub put_spaces-IsValid : (n : ℕ) (s : Screen) → IsValid s → IsValid (put_spaces n s)
unfolding put_spaces
put_spaces-IsValid zero s v = v
put_spaces-IsValid (suc n) s v =
    put_spaces-IsValid n (put_plain s b' ') (put_plain-IsValid s b' ' v)

pub put_byte-IsValid : (s : Screen) (byte : ℕ) → IsValid s → IsValid (put_byte s byte)
unfolding put_byte
put_byte-IsValid s byte v = elim (Bool-cases (byte == b'\t')) [
  | inl e ↦ rw e (wrap-IsValid _ (put_spaces-IsValid (8 - s.cursor % 8) s v).all_cells)
  | inr e ↦ rw e (put_plain-IsValid s byte v)
]

-- Whatever bytes are written, a screen keeps its 2000 cells and a cursor that lies on it.
pub put_bytes-IsValid : (s : Screen) (d : Bytes) → IsValid s → IsValid (put_bytes s d)
unfolding put_bytes
put_bytes-IsValid s [] v = v
put_bytes-IsValid s (byte ∷ d) v = put_bytes-IsValid (put_byte s byte) d (put_byte-IsValid s byte v)
