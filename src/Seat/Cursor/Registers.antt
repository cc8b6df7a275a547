-- ===== src/Seat/Cursor/Registers.antt =====
-- src/seat/pc_cursor.c: the registers of the controller.
use facet_os.Prelude.{
  ℕ, ◌+◌, ◌*◌, ◌/◌, ◌%◌, ◌^◌, ◌<◌, bit_and, ◌≡◌, ◌∙◌, some, arith, ◌==◌, if◌then◌else◌,
}
use facet_os.Seat.Cursor.{
  crtc_index, crtc_data, cursor_start, cursor_high, cursor_low, CursorIo, read_register,
  write_register, cursor_enable, cursor_set,
}

-- The index port selects a register, and the data port reads and writes the selected one.
pub record IsController {S : Type 0} (io : CursorIo S) (index : S → ℕ) (register : S → ℕ → ℕ)
    : Type 0 where
  pub write_index :
      (s : S) (v : ℕ)
      → (s' : S) × (io.write s crtc_index v ≡ some s')
        × (index s' ≡ v)
        × ((r : ℕ) → register s' r ≡ register s r)
  pub write_data :
      (s : S) (v : ℕ)
      → (s' : S) × (io.write s crtc_data v ≡ some s')
        × ((r : ℕ) → register s' r ≡ (if r == index s then v else register s r))
  pub read_data :
      (s : S)
      → (s' : S) × (io.read s crtc_data ≡ some (register s (index s), s'))
        × ((r : ℕ) → register s' r ≡ register s r)

module _ {S : Type 0} (io : CursorIo S) (index : S → ℕ) (register : S → ℕ → ℕ)
    (k : IsController io index register) where
  write_register_lem :
      (s : S) (i v : ℕ)
      → (s' : S) × (write_register io s i v ≡ some s')
        × ((r : ℕ) → register s' r ≡ (if r == i then v else register s r))
  unfolding write_register
  write_register_lem s i v =
      let (s₁, e₁, at, same) = k.write_index s i in
      let (s₂, e₂, now) = k.write_data s₁ v in
      (s₂, rw (e₁, write_register) e₂, λ r. now r ∙ rw (at, same r))

  read_register_lem :
      (s : S) (i : ℕ)
      → (s' : S) × (read_register io s i ≡ some (register s i, s'))
        × ((r : ℕ) → register s' r ≡ register s r)
  unfolding read_register
  read_register_lem s i =
      let (s₁, e₁, at, same) = k.write_index s i in
      let (s₂, e₂, now) = k.read_data s₁ in
      (s₂, rw (e₁, read_register) (e₂ ∙ rw (at, same i)), λ r. now r ∙ same r)

  -- Setting the cursor succeeds, puts the cell number into the two position registers, and
  -- changes no other register.
  pub cursor_set_lem :
      (s : S) (cell : ℕ)
      → cell < 2 ^ 16
      → (s' : S) × (cursor_set io s cell ≡ some s')
        × (register s' cursor_high * 256 + register s' cursor_low ≡ cell)
        × ((r : ℕ)
            → register s' r ≡ (
                if r == cursor_high
                then cell / 256
                else if r == cursor_low
                then cell % 256
                else register s r))
  unfolding cursor_set
  cursor_set_lem s cell h =
      let (s₁, e₁, low) = write_register_lem s cursor_low (cell % 256) in
      let (s₂, e₂, high) = write_register_lem s₁ cursor_high (cell / 256 % 256) in
      (
        s₂,
        rw (e₁, cursor_set) e₂,
        ground (arith, high cursor_high, high cursor_low, low cursor_low),
        λ r. ground (arith, high r, low r),
      )

  -- Enabling the cursor succeeds, clears its disable bit and changes no other register.
  pub cursor_enable_lem :
      (s : S)
      → (s' : S) × (cursor_enable io s ≡ some s')
        × ((r : ℕ)
            → register s' r ≡ (
                if r == cursor_start then bit_and (register s cursor_start) 0xdf else register s r))
  unfolding cursor_enable
  cursor_enable_lem s =
      let (s₁, e₁, same) = read_register_lem s cursor_start in
      let (s₂, e₂, now) =
        write_register_lem s₁ cursor_start (bit_and (register s cursor_start) 0xdf) in
      (s₂, rw (e₁, cursor_enable) e₂, λ r. now r ∙ rw (same r))
