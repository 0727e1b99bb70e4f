-- ===== src/Drivers/Tests.antt =====
-- The keyboard buffer and the VGA writer (kernel/src/drivers/keyboard.rs and vga.rs), the PCI
-- enumeration (pci.rs) and the framebuffer (framebuffer.rs) on concrete states, and the theorems at them.
use compute_kernel.Common.{
  get_or, inr, ℕ, true, ◌==◌, if◌then◌else◌, replicate, done, ◌+◌, ◌<◌, ◌≤◌, ◌≡◌, refl, none, some,
  List, [], ◌∷◌, codes, arith,
}
use compute_kernel.Drivers.Keyboard.{new, push, pop, key_byte, unicode}
use compute_kernel.Drivers.Keyboard.Queue.{
  new-IsValid, run, queue_run, press, take_key, KeyOp, run_refines, contents,
}
use compute_kernel.Drivers.Vga.{Vga, scroll}
use compute_kernel.Drivers.Vga.Scroll.{scroll_lem}
use compute_kernel.Drivers.Vga.Cursor.{Call, text, wipe, erase, calls, calls_lem}
use compute_kernel.Drivers.Pci.{config_address, config_read32, device_exists, enumerate}
use compute_kernel.Drivers.Pci.Enumeration.{count_at, reached, enumerate_once}
use compute_kernel.Drivers.Framebuffer.{bgr, FramebufferDriver, fill_rect}
use compute_kernel.Drivers.Framebuffer.Pixels.{byte_at, IsPixelByte}
use compute_kernel.Drivers.Framebuffer.Painting.{fill_rect_paints}

abbrev script : List KeyOp
script = press 104 ∷ press 105 ∷ take_key ∷ take_key ∷ take_key ∷ []

keys_in_order : run new script ≡ some 104 ∷ some 105 ∷ none ∷ []
unfolding run push pop new
keys_in_order = refl

-- A code point beyond a byte keeps its low eight bits.
euro_key : key_byte (unicode 0x20ac) ≡ some 0xac
unfolding key_byte
euro_key = refl

-- The writer at the start of the last row, on memory that holds each address's remainder by 256.
abbrev writer : Vga
writer = record { column_position = 0; color_code = 7; row = 24; memory = λ a. 65 }

scroll_lem_example : (scroll writer).memory (0xb8000 + 3841) ≡ 7
scroll_lem_example = scroll_lem writer (0xb8000 + 3841)

abbrev session : List Call
session = text (codes "ok") ∷ erase ∷ wipe ∷ []

calls_lem_example :
    ((calls session writer).row < 25)
    × ((calls session writer).column_position ≤ 80)
    × ((calls session writer).memory 16 ≡ 65)
calls_lem_example = calls_lem session writer 16 (omega arith)

run_refines_example : run new script ≡ queue_run (contents new) script
run_refines_example = run_refines script new new-IsValid.0

-- A configuration space with one device, at bus 0, device 3.
abbrev space : ℕ → ℕ
space address =
    if address == 0x80001800
    then 0x100e8086
    else if address == 0x80001808
    then 0x02000003
    else if address == 0x8000180c
    then 0
    else 0xffffffff

enumerate_once_example : count_at 0 3 0 (enumerate space) ≡ (if reached space 0 3 0 then 1 else 0)
enumerate_once_example = enumerate_once space 0 3 0 (omega arith) (omega arith) (omega arith)

card_reached : reached space 0 3 0 ≡ true
unfolding reached device_exists config_read32 config_address
card_reached = refl

-- A screen of two by two pixels, with four bytes each.
abbrev small_screen : FramebufferDriver
small_screen = record {
  buffer = replicate 16 0;
  info = record { width = 2; height = 2; stride = 2; bytes_per_pixel = 4; pixel_format = bgr };
}

-- The green byte of the pixel at (1, 1).
small_screen-IsPixelByte : IsPixelByte small_screen.info 1 1 1 16
small_screen-IsPixelByte = record {
  on_row = omega arith;
  in_pixel = omega arith;
  wide = omega arith;
  in_buffer = omega arith;
}

fill_rect_paints_example :
    (d' : FramebufferDriver) × ((fill_rect true 1 1 5 5 255 128 0 small_screen ≡ done d')
      × (get_or d'.buffer (byte_at small_screen.info 1 1 1) 0 ≡ 128))
fill_rect_paints_example =
    fill_rect_paints true 1 1 5 5 255 128 0 small_screen 1 1 1 (inr refl) small_screen-IsPixelByte
      (omega arith) (omega arith) (omega arith) (omega arith)
