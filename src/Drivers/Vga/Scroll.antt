-- ===== src/Drivers/Vga/Scroll.antt =====
-- Scrolling and clearing of the VGA text buffer (kernel/src/drivers/vga.rs), byte by byte: what each
-- address of memory holds afterwards.
use compute_kernel.Common.{
  ℕ, zero, suc, ◌+◌, ◌-◌, ◌%◌, ◌≤◌, ◌≡◌, refl, ap, Bool, ◌&&◌, arith, ◌==◌, ltb, leb, if◌then◌else◌,
  Bool-cases, inl, inr,
}
use compute_kernel.Drivers.Vga.{
  Vga, cell_addr, write_cell, read_cell, copy_cols, copy_rows, blank_cols, blank_rows, scroll,
  clear,
}

-- `lo ≤ a < hi`, as a test.
abbrev pub within : ℕ → ℕ → ℕ → Bool
within lo hi a = leb lo a && ltb a hi

-- The inner loop takes each cell of the row above from the row.
copy_cols_lem :
    (row col n : ℕ) (memory : ℕ → ℕ) (a : ℕ)
    → 1 ≤ row
    → col + n ≤ 80
    → copy_cols row col n memory a ≡ (
        if within (cell_addr (row - 1) col) (cell_addr (row - 1) (col + n)) a
        then memory (a + 160)
        else memory a)
unfolding copy_cols
copy_cols_lem row col zero memory a lo hi = ground arith
copy_cols_lem row col (suc n) memory a lo hi =
    let after = write_cell (row - 1) col (read_cell row col memory) memory in
    let ih = copy_cols_lem row (col + 1) n after a lo (omega arith) in
    elim (Bool-cases (a == cell_addr (row - 1) col)) [
      | inl first ↦
          let e : cell_addr row col ≡ a + 160 = ground arith in ground (arith, ih, ap memory e)
      | inr other ↦ elim (Bool-cases (a == cell_addr (row - 1) col + 1)) [
        | inl second ↦
            let e : cell_addr row col + 1 ≡ a + 160 = ground arith in
            ground (arith, ih, ap memory e)
        | inr none ↦ ground (arith, ih)
      ]
    ]

-- The outer loop moves whole rows up.
copy_rows_lem :
    (row n : ℕ) (memory : ℕ → ℕ) (a : ℕ)
    → 1 ≤ row
    → copy_rows row n memory a ≡ (
        if within (cell_addr (row - 1) 0) (cell_addr (row - 1 + n) 0) a
        then memory (a + 160)
        else memory a)
unfolding copy_rows
copy_rows_lem row zero memory a lo = ground arith
copy_rows_lem row (suc n) memory a lo =
    let after = copy_cols row 0 80 memory in
    ground (
      arith,
      copy_rows_lem (row + 1) n after a (omega arith),
      copy_cols_lem row 0 80 memory a lo (omega arith),
      copy_cols_lem row 0 80 memory (a + 160) lo (omega arith),
    )

-- Blanked cells hold a space and the colour.
abbrev pub blank_byte : ℕ → ℕ → ℕ
blank_byte color a = if a % 2 == 0 then 0x20 else color

blank_cols_lem :
    (row col n color : ℕ) (memory : ℕ → ℕ) (a : ℕ)
    → blank_cols row col n color memory a ≡ (
        if within (cell_addr row col) (cell_addr row (col + n)) a
        then blank_byte color a
        else memory a)
unfolding blank_cols
blank_cols_lem row col zero color memory a = ground arith
blank_cols_lem row col (suc n) color memory a =
    ground (arith, blank_cols_lem row (col + 1) n color (write_cell row col (0x20, color) memory) a)

blank_rows_lem :
    (row n color : ℕ) (memory : ℕ → ℕ) (a : ℕ)
    → blank_rows row n color memory a ≡ (
        if within (cell_addr row 0) (cell_addr (row + n) 0) a then blank_byte color a else memory a)
unfolding blank_rows
blank_rows_lem row zero color memory a = ground arith
blank_rows_lem row (suc n) color memory a = ground (
  arith,
  blank_rows_lem (row + 1) n color (blank_cols row 0 80 color memory) a,
  blank_cols_lem row 0 80 color memory a,
)

-- After a scroll each byte of the first 24 rows is that of the row below it before, the last row is
-- blank in the current colour, and no byte outside the 4000 of the text buffer has changed.
pub scroll_lem :
    (v : Vga) (a : ℕ)
    → (scroll v).memory a ≡ (
        if within 0xb8000 (0xb8000 + 3840) a
        then v.memory (a + 160)
        else if within (0xb8000 + 3840) (0xb8000 + 4000) a
        then blank_byte v.color_code a
        else v.memory a)
unfolding scroll
scroll_lem v a = ground (
  arith,
  blank_cols_lem 24 0 80 v.color_code (copy_rows 1 24 v.memory) a,
  copy_rows_lem 1 24 v.memory a (omega arith),
)

-- After `clear` the 4000 bytes of the text buffer are blank in the current colour, no other byte has
-- changed, and the cursor stands at the top left.
pub clear_lem :
    (v : Vga) (a : ℕ)
    → ((clear v).memory a
        ≡ (if within 0xb8000 (0xb8000 + 4000) a then blank_byte v.color_code a else v.memory a))
      × ((clear v).row ≡ 0)
      × ((clear v).column_position ≡ 0)
unfolding clear
clear_lem v a = (ground (arith, blank_rows_lem 0 25 v.color_code v.memory a), refl, refl)
