-- ===== src/Seat/Screen/Text.antt =====
-- src/seat/pc_console.c: text, line ends and tabs on a screen.
use facet_os.Prelude.{
  ℕ, zero, suc, ◌+◌, ◌-◌, ◌*◌, ◌/◌, ◌%◌, ◌≤◌, ◌<◌, bit_or, ◌≡◌, refl, sym, ap, ◌∙◌, ◌⊎◌, inl, inr,
  false, ◌&&◌, List, [], ◌∷◌, ◌++◌, map, arith, ltb, leb, ◌==◌, if◌then◌else◌, Bool-cases, length,
  get_elem?, set, take, drop, replicate, length-set, get_elem?-set_self, get_elem?-set_ne,
  length-take, length-drop, take_all, take_prefix, Bytes,
}
use native.Mathlib.Nat.{add-zero}
use facet_os.Seat.Screen.{
  columns, total_cells, blank, Screen, scroll_screen, wrap, store, put_plain, put_spaces, put_byte,
  put_bytes,
}
use facet_os.Seat.Screen.Bounds.{IsValid, wrap_within}

abbrev IsPrintable : Bytes → Type 0
IsPrintable [] = Unit
IsPrintable (b ∷ d) = (32 ≤ b) × (b < 127) × IsPrintable d

abbrev attribute : ℕ → ℕ
attribute = bit_or 0x0700

put_printable :
    (s : Screen) (b : ℕ) → 32 ≤ b → b < 127 → s.cursor + 1 < total_cells → put_byte s b ≡ store s b
unfolding put_byte put_plain
put_printable s b lo hi h = ground (
  arith,
  wrap_within s,
  wrap_within (record { cells = set s.cells s.cursor (bit_or 0x0700 b); cursor = s.cursor + 1 }),
  store_lem s b,
)
  where
    store_lem :
        (s : Screen) (b : ℕ)
        → store s b
          ≡ record { cells = set s.cells s.cursor (bit_or 0x0700 b); cursor = s.cursor + 1 }
    store_lem s b = unfold store in refl

-- the text in the cells from the cursor on, and nothing else changed
record Stands (s : Screen) (d : Bytes) (t : Screen) : Type 0 where
  moved : t.cursor ≡ s.cursor + length d
  written :
      (j : ℕ) → j < length d → get_elem? t.cells (s.cursor + j) ≡ get_elem? (map attribute d) j
  kept :
      (i : ℕ)
      → (i < s.cursor) ⊎ (s.cursor + length d ≤ i)
      → get_elem? t.cells i ≡ get_elem? s.cells i

module _ (s : Screen) (b : ℕ) (d : Bytes) (t : Screen) (w : Stands (store s b) d t) where
  Stands-written :
      s.cursor < length s.cells
      → (j : ℕ) → j < length (b ∷ d)
      → get_elem? t.cells (s.cursor + j) ≡ get_elem? (map attribute (b ∷ d)) j
  unfolding store
  Stands-written h zero lt =
      rw add-zero
        (w.kept s.cursor (inl (omega arith)) ∙ get_elem?-set_self s.cells s.cursor (attribute b) h)
  Stands-written h (suc j) lt =
      let e : s.cursor + suc j ≡ s.cursor + 1 + j = omega arith in rw e (w.written j (omega arith))

  Stands-kept :
      (i : ℕ)
      → (i < s.cursor) ⊎ (s.cursor + length (b ∷ d) ≤ i)
      → get_elem? t.cells i ≡ get_elem? s.cells i
  unfolding store
  Stands-kept i (inl h) =
      w.kept i (inl (omega arith)) ∙ get_elem?-set_ne s.cells (attribute b) (omega arith)
  Stands-kept i (inr h) =
      w.kept i (inr (omega arith)) ∙ get_elem?-set_ne s.cells (attribute b) (omega arith)

put_bytes-Stands :
    (s : Screen) (d : Bytes)
    → length s.cells ≡ total_cells
    → IsPrintable d
    → s.cursor + length d < total_cells
    → Stands s d (put_bytes s d)
unfolding put_bytes
put_bytes-Stands s [] n p h = record {
  moved = omega arith;
  written = λ j lt. absurd (omega arith);
  kept = λ i w. refl;
}
put_bytes-Stands s (b ∷ d) n p h = rw (put_printable s b p.0 p.1 (omega arith)) (
    cons (
      put_bytes-Stands (store s b) d
        (unfold store in omega (arith, length-set s.cells s.cursor (bit_or 0x0700 b))) p.2
        (unfold store in omega arith)))
  where
    cons :
        Stands (store s b) d (put_bytes (store s b) d) → Stands s (b ∷ d) (put_bytes (store s b) d)
    cons w = record {
      moved = unfold store in omega (arith, w.moved);
      written = Stands-written s b d (put_bytes (store s b) d) w (omega arith);
      kept = Stands-kept s b d (put_bytes (store s b) d) w;
    }

pub record Wrote (s : Screen) (d : Bytes) (t : Screen) : Type 0 where
  pub cursor_behind : t.cursor ≡ s.cursor + length d
  pub cells_are :
      (i : ℕ)
      → get_elem? t.cells i ≡ (
          if leb s.cursor i && ltb i (s.cursor + length d)
          then get_elem? (map attribute d) (i - s.cursor)
          else get_elem? s.cells i)

Stands-Wrote : (s : Screen) (d : Bytes) (t : Screen) → Stands s d t → Wrote s d t
Stands-Wrote s d t w = record { cursor_behind = w.moved; cells_are = cells }
  where
    outside :
        (i : ℕ)
        → (leb s.cursor i && ltb i (s.cursor + length d)) ≡ false
        → (i < s.cursor) ⊎ (s.cursor + length d ≤ i)
    outside i e = elim (Bool-cases (leb s.cursor i)) [
      | inl f ↦ inr (ground arith)
      | inr f ↦ inl (ground arith)
    ]

    cells :
        (i : ℕ)
        → get_elem? t.cells i ≡ (
            if leb s.cursor i && ltb i (s.cursor + length d)
            then get_elem? (map attribute d) (i - s.cursor)
            else get_elem? s.cells i)
    cells i = elim (Bool-cases (leb s.cursor i && ltb i (s.cursor + length d))) [
      | inl e ↦
          let shift : s.cursor + (i - s.cursor) ≡ i = ground arith in
          rw e (ap (get_elem? t.cells) (sym shift) ∙ w.written (i - s.cursor) (ground arith))
      | inr e ↦ rw e (w.kept i (outside i e))
    ]

-- Printable text that does not reach the end of the screen stands in the cells from the cursor
-- on, each byte with the screen's attribute, the cursor stands behind it, and every other cell
-- is unchanged.
pub put_bytes-Wrote :
    (s : Screen) (d : Bytes)
    → length s.cells ≡ total_cells
    → IsPrintable d
    → s.cursor + length d < total_cells
    → Wrote s d (put_bytes s d)
put_bytes-Wrote s d n p h = Stands-Wrote s d (put_bytes s d) (put_bytes-Stands s d n p h)

put_space_cursor :
    (s : Screen)
    → s.cursor < total_cells
    → (put_plain s b' ').cursor ≡ (if s.cursor == 1999 then 1920 else s.cursor + 1)
unfolding put_plain store wrap scroll_screen
put_space_cursor s h = ground arith

put_spaces_mod :
    (n : ℕ) (s : Screen)
    → s.cursor < total_cells
    → s.cursor + n ≤ total_cells
    → (put_spaces n s).cursor % 8 ≡ (s.cursor + n) % 8
unfolding put_spaces
put_spaces_mod zero s h l = ap (λ (c : ℕ). c % 8) (omega arith)
put_spaces_mod (suc zero) s h l = ground (arith, put_space_cursor s h)
put_spaces_mod (suc (suc n)) s h l =
    ground (arith, put_space_cursor s h, put_spaces_mod (suc n) (put_plain s b' '))

wrap_mod : (s : Screen) → s.cursor % 8 ≡ 0 → (wrap s).cursor % 8 ≡ 0
unfolding wrap scroll_screen
wrap_mod s h = ground arith

-- A tab leaves the cursor of a valid screen at a multiple of eight.
pub put_byte_tab : (s : Screen) → s.cursor < total_cells → (put_byte s b'\t').cursor % 8 ≡ 0
unfolding put_byte
put_byte_tab s h = wrap_mod _ (put_spaces_mod (8 - s.cursor % 8) s h (omega arith) ∙ omega arith)

pub record ScrolledUp (s t : Screen) : Type 0 where
  pub rows :
      take (total_cells - columns) t.cells ≡ take (total_cells - columns) (drop columns s.cells)
  pub last_row : drop (total_cells - columns) t.cells ≡ replicate columns blank

drop-take-append : (n : ℕ) (xs ys : List ℕ) → n ≤ length xs → drop n (take n xs ++ ys) ≡ ys
drop-take-append zero xs ys l = refl
drop-take-append (suc n) [] ys l = absurd (omega arith)
drop-take-append (suc n) (x ∷ xs) ys l = drop-take-append n xs ys (omega arith)

scroll_screen-ScrolledUp :
    (s : Screen) (c : ℕ)
    → length s.cells ≡ total_cells
    → ScrolledUp s (scroll_screen (record s { cursor = c }))
unfolding scroll_screen
scroll_screen-ScrolledUp s c h = record {
  rows =
      take_prefix 1920 (take 1920 (drop 80 s.cells)) (replicate 80 blank)
        (omega (arith, long, length-take 1920 (drop 80 s.cells)))
      ∙ take_all 1920 (take 1920 (drop 80 s.cells))
          (omega (arith, length-take 1920 (drop 80 s.cells)));
  last_row = drop-take-append 1920 (drop 80 s.cells) (replicate 80 blank) long;
}
  where
    long : 1920 ≤ length (drop 80 s.cells)
    long = omega (arith, length-drop 80 s.cells)

abbrev pub LineFeed : Screen → Screen → Type 0
LineFeed s t =
    (s.cursor < total_cells - columns)
      × (t ≡ record s { cursor = (s.cursor / columns + 1) * columns })
    ⊎ (total_cells - columns ≤ s.cursor) × (t.cursor ≡ total_cells - columns) × ScrolledUp s t

-- A line feed moves to the start of the next row and changes no cell; on the last row it moves
-- every row up by one, blanks the last row and stays at its start.
pub put_byte-LineFeed : (s : Screen) → IsValid s → LineFeed s (put_byte s b'\n')
unfolding put_byte put_plain wrap
put_byte-LineFeed s v = elim (Bool-cases (leb 2000 (s.cursor + (80 - s.cursor % 80)))) [
  | inl e ↦ inr (
    ground arith,
    rw e (unfold scroll_screen in refl),
    rw e (scroll_screen-ScrolledUp s _ v.all_cells),
  )
  | inr e ↦ inl (ground arith, rw e (ap (λ (c : ℕ). record s { cursor = c }) (omega arith)))
]
