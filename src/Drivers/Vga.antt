-- ===== src/Drivers/Vga.antt =====
-- The VGA text driver: kernel/src/drivers/vga.rs. The text buffer is memory from 0xB8000 on, a
-- function from addresses to bytes; a cell is two bytes, the character and its colour. A u16 cell
-- is read and written as that pair.
pub mod Scroll
pub mod Cursor
use compute_kernel.Common.{
  ℕ, zero, suc, ◌+◌, ◌-◌, ◌*◌, ◌^◌, Bool, true, false, ◌&&◌, ◌||◌, List, [], ◌∷◌, ◌++◌, ◌==◌, ltb,
  leb, if◌then◌else◌, bit_or, in_range,
}

abbrev pub buffer_width : ℕ
buffer_width = 80

abbrev pub buffer_height : ℕ
buffer_height = 25

abbrev pub vga_buffer_addr : ℕ
vga_buffer_addr = 0xb8000

pub data Color : Type 0 where
  black blue green cyan red magenta brown light_gray dark_gray light_blue light_green light_cyan
        light_red pink yellow white :
      Color

-- `color as u8`.
abbrev pub color_value : Color → ℕ
color_value black = 0
color_value blue = 1
color_value green = 2
color_value cyan = 3
color_value red = 4
color_value magenta = 5
color_value brown = 6
color_value light_gray = 7
color_value dark_gray = 8
color_value light_blue = 9
color_value light_green = 10
color_value light_cyan = 11
color_value light_red = 12
color_value pink = 13
color_value yellow = 14
color_value white = 15

-- `ColorCode::new`: `(bg as u8) << 4 | (fg as u8)`.
unfoldable pub color_code_of : Color → Color → ℕ
color_code_of fg bg = bit_or (color_value bg * 2 ^ 4) (color_value fg)

-- The writer and the memory that it writes to.
pub record Vga : Type 0 where
  pub column_position : ℕ
  pub color_code : ℕ
  pub row : ℕ
  pub memory : ℕ → ℕ

-- The address of a cell.
abbrev pub cell_addr : ℕ → ℕ → ℕ
cell_addr row col = vga_buffer_addr + (row * buffer_width + col) * 2

abbrev pub write_volatile : (ℕ → ℕ) → ℕ → ℕ → ℕ → ℕ
write_volatile memory p v a = if a == p then v else memory a

-- `write_char_at`, and `write_raw_at` of a cell's two bytes.
abbrev pub write_cell : ℕ → ℕ → ℕ × ℕ → (ℕ → ℕ) → ℕ → ℕ
write_cell row col (ascii, color) memory =
    let p = cell_addr row col in write_volatile (write_volatile memory p ascii) (p + 1) color

-- `read_char_at`.
abbrev pub read_cell : ℕ → ℕ → (ℕ → ℕ) → ℕ × ℕ
read_cell row col memory = let p = cell_addr row col in (memory p, memory (p + 1))

-- The inner loop of `scroll`: the cells of `row` from `col` on, `n` of them, to the row above.
unfoldable pub copy_cols : ℕ → ℕ → ℕ → (ℕ → ℕ) → ℕ → ℕ
copy_cols row col zero memory = memory
copy_cols row col (suc n) memory =
    copy_cols row (col + 1) n (write_cell (row - 1) col (read_cell row col memory) memory)

-- The outer loop, from `row` on.
unfoldable pub copy_rows : ℕ → ℕ → (ℕ → ℕ) → ℕ → ℕ
copy_rows row zero memory = memory
copy_rows row (suc n) memory = copy_rows (row + 1) n (copy_cols row 0 buffer_width memory)

-- A loop over the columns that writes a space in a colour.
unfoldable pub blank_cols : ℕ → ℕ → ℕ → ℕ → (ℕ → ℕ) → ℕ → ℕ
blank_cols row col zero color memory = memory
blank_cols row col (suc n) color memory =
    blank_cols row (col + 1) n color (write_cell row col (0x20, color) memory)

unfoldable pub blank_rows : ℕ → ℕ → ℕ → (ℕ → ℕ) → ℕ → ℕ
blank_rows row zero color memory = memory
blank_rows row (suc n) color memory =
    blank_rows (row + 1) n color (blank_cols row 0 buffer_width color memory)

unfoldable pub scroll : Vga → Vga
scroll v = record v {
  memory =
      blank_cols (buffer_height - 1) 0 buffer_width v.color_code
        (copy_rows 1 (buffer_height - 1) v.memory);
}

unfoldable pub new_line : Vga → Vga
new_line v =
    let start = record v { column_position = 0 } in
    if ltb v.row (buffer_height - 1) then record start { row = v.row + 1 } else scroll start

-- A character put at the cursor.
unfoldable pub put_char : ℕ → Vga → Vga
put_char byte v = record v {
  column_position = v.column_position + 1;
  memory = write_cell v.row v.column_position (byte, v.color_code) v.memory;
}

unfoldable pub write_byte : ℕ → Vga → Vga
write_byte byte v =
    if byte == 10
    then new_line v
    else put_char byte (if leb buffer_width v.column_position then new_line v else v)

-- Bytes that are not printable ASCII become 0xFE.
unfoldable pub write_string : List ℕ → Vga → Vga
write_string [] v = v
write_string (b ∷ bs) v =
    write_string bs (write_byte (if in_range 0x20 0x7e b || b == 10 then b else 0xfe) v)

unfoldable pub clear : Vga → Vga
clear v = record v {
  memory = blank_rows 0 buffer_height v.color_code v.memory;
  row = 0;
  column_position = 0;
}

unfoldable pub backspace : Vga → Vga
backspace v =
    let col = v.column_position - 1 in
    if ltb 0 v.column_position
    then record v {
      column_position = col;
      memory = write_cell v.row col (0x20, v.color_code) v.memory;
    }
    else v

unfoldable pub set_color : Color → Color → Vga → Vga
set_color fg bg v = record v { color_code = color_code_of fg bg }

-- The static WRITER, over the memory as the kernel finds it.
unfoldable pub writer : (ℕ → ℕ) → Vga
unfolding color_code_of
writer memory = record {
  column_position = 0;
  color_code = color_code_of white black;
  row = 0;
  memory = memory;
}

unfoldable pub init : Vga → Vga
init v = clear v

-- `_kprint` of a text: `write_fmt` hands it to `write_str`, which never fails.
abbrev pub kprint : List ℕ → Vga → Vga
kprint text v = write_string text v

-- `kprintln!`.
abbrev pub println : List ℕ → Vga → Vga
println text v = kprint (text ++ (10 ∷ [])) v
