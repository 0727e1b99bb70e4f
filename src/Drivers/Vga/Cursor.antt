-- ===== src/Drivers/Vga/Cursor.antt =====
-- The bounds of the VGA writer (kernel/src/drivers/vga.rs): its cursor and the memory it writes.
use compute_kernel.Common.{
  ℕ, ◌+◌, ◌<◌, ◌≤◌, ◌≡◌, refl, ◌||◌, ◌&&◌, List, [], ◌∷◌, arith, ◌==◌, ltb, leb, if◌then◌else◌,
  in_range,
}
use compute_kernel.Drivers.Vga.{
  Vga, Color, scroll, new_line, put_char, write_byte, write_string, clear, backspace, set_color,
}
use compute_kernel.Drivers.Vga.Scroll.{scroll_lem, clear_lem}

-- The row is on the screen; the column may stand one past the last, until the next character.
pub record IsOnScreen (v : Vga) : Type 0 where
  pub row_lt : v.row < 25
  pub col_le : v.column_position ≤ 80

-- What a driver call leaves: the cursor on the screen, and every byte outside the text buffer.
abbrev pub Contained : Vga → Vga → ℕ → Type 0
Contained v v' a =
    (v'.row < 25)
    × (v'.column_position ≤ 80)
    × (v'.memory a ≡ (if leb 0xb8000 a && ltb a (0xb8000 + 4000) then v'.memory a else v.memory a))

scroll_cursor :
    (v : Vga) → ((scroll v).row ≡ v.row) × ((scroll v).column_position ≡ v.column_position)
unfolding scroll
scroll_cursor v = (refl, refl)

-- A new line puts the cursor at the start of a row of the screen.
new_line_lem :
    (v : Vga) (a : ℕ)
    → IsOnScreen v
    → Contained v (new_line v) a × ((new_line v).column_position ≡ 0)
unfolding new_line
new_line_lem v a s =
    let start = record v { column_position = 0 } in
    ground (arith, scroll_lem start a, scroll_cursor start)

put_char_lem :
    (byte : ℕ) (v : Vga) (a : ℕ)
    → IsOnScreen v
    → v.column_position < 80
    → Contained v (put_char byte v) a
unfolding put_char
put_char_lem byte v a s h = ground arith

new_line-IsOnScreen : (v : Vga) → IsOnScreen v → IsOnScreen (new_line v)
new_line-IsOnScreen v s = omega (arith, new_line_lem v 0 s)

write_byte_lem : (byte : ℕ) (v : Vga) (a : ℕ) → IsOnScreen v → Contained v (write_byte byte v) a
unfolding write_byte
write_byte_lem byte v a s = ground (
  arith,
  new_line_lem v a s,
  put_char_lem byte v a s,
  put_char_lem byte (new_line v) a (new_line-IsOnScreen v s),
)

write_byte-IsOnScreen : (byte : ℕ) (v : Vga) → IsOnScreen v → IsOnScreen (write_byte byte v)
write_byte-IsOnScreen byte v s = omega (arith, write_byte_lem byte v 0 s)

write_string_lem :
    (bs : List ℕ) (v : Vga) (a : ℕ) → IsOnScreen v → Contained v (write_string bs v) a
unfolding write_string
write_string_lem [] v a s = ground arith
write_string_lem (b ∷ bs) v a s =
    let shown = if in_range 0x20 0x7e b || b == 10 then b else 0xfe in
    joined v (write_byte shown v) (write_string bs (write_byte shown v)) a
      (write_byte_lem shown v a s)
      (write_string_lem bs (write_byte shown v) a (write_byte-IsOnScreen shown v s))
  where
    joined : (v v' v'' : Vga) (a : ℕ) → Contained v v' a → Contained v' v'' a → Contained v v'' a
    joined v v' v'' a p q = ground arith

-- The calls that the kernel makes of the writer.
pub data Call : Type 0 where
  text : List ℕ → Call
  wipe : Call
  erase : Call
  paint : Color → Color → Call

unfoldable pub call : Call → Vga → Vga
call (text bs) v = write_string bs v
call wipe v = clear v
call erase v = backspace v
call (paint fg bg) v = set_color fg bg v

unfoldable pub calls : List Call → Vga → Vga
calls [] v = v
calls (c ∷ cs) v = calls cs (call c v)

call_lem : (c : Call) (v : Vga) (a : ℕ) → IsOnScreen v → Contained v (call c v) a
unfolding call backspace set_color
call_lem (text bs) v a s = write_string_lem bs v a s
call_lem wipe v a s = ground (arith, clear_lem v a)
call_lem erase v a s = ground arith
call_lem (paint fg bg) v a s = ground arith

call-IsOnScreen : (c : Call) (v : Vga) → IsOnScreen v → IsOnScreen (call c v)
call-IsOnScreen c v s = omega (arith, call_lem c v 0 s)

-- Whatever strings are written, with screen clears, backspaces and colour changes between them, the
-- cursor stays on the screen and no byte outside the 4000 of the text buffer changes.
pub calls_lem :
    (cs : List Call) (v : Vga) (a : ℕ)
    → IsOnScreen v
    → ((calls cs v).row < 25)
      × ((calls cs v).column_position ≤ 80)
      × ((calls cs v).memory a
          ≡ (if leb 0xb8000 a && ltb a (0xb8000 + 4000) then (calls cs v).memory a else v.memory a))
unfolding calls
calls_lem [] v a s = ground arith
calls_lem (c ∷ cs) v a s =
    ground (arith, call_lem c v a s, calls_lem cs (call c v) a (call-IsOnScreen c v s))
