-- ===== src/Drivers/Keyboard.antt =====
-- The PS/2 keyboard driver: kernel/src/drivers/keyboard.rs. The crate `pc-keyboard` decodes
-- scancodes: its state and its decoder are parameters. Ports are read by the caller.
pub mod Queue
use compute_kernel.Common.{
  ℕ, zero, suc, ◌+◌, ◌-◌, ◌%◌, Bool, true, false, Option, none, some, List, [], ◌∷◌, ◌==◌, ltb,
  if◌then◌else◌, get_or, set, replicate, bit_and,
}

abbrev pub key_buf_size : ℕ
key_buf_size = 256

pub record KeyBuffer : Type 0 where
  pub buf : List ℕ
  pub read : ℕ
  pub write : ℕ
  pub count : ℕ

abbrev pub keyboard_data_port : ℕ
keyboard_data_port = 0x60

abbrev pub keyboard_status_port : ℕ
keyboard_status_port = 0x64

abbrev pub status_output_buffer_full : ℕ
status_output_buffer_full = 0x01

unfoldable pub new : KeyBuffer
new = record { buf = replicate key_buf_size 0; read = 0; write = 0; count = 0 }

-- A key is dropped when the buffer is full.
unfoldable pub push : KeyBuffer → ℕ → KeyBuffer
push k byte =
    if ltb k.count key_buf_size
    then record k {
      buf = set k.buf k.write byte;
      write = (k.write + 1) % key_buf_size;
      count = k.count + 1;
    }
    else k

unfoldable pub pop : KeyBuffer → Option ℕ × KeyBuffer
pop k = if k.count == 0 then (none, k) else (
  some (get_or k.buf k.read 0),
  record k { read = (k.read + 1) % key_buf_size; count = k.count - 1 },
)

-- `try_read_char`: interrupts are off meanwhile.
abbrev pub try_read_char : KeyBuffer → Option ℕ × KeyBuffer
try_read_char k = pop k

-- `init`: the static KEYBOARD is made at its first use. The byte that is read from the data port is
-- dropped.
unfoldable pub init {ℓ} : {Decoder : Type ℓ} → Decoder → Option Decoder → Option Decoder
init fresh none = some fresh
init fresh (some kb) = some kb

-- `KeyCode`, as far as the driver looks at it.
pub data KeyCode : Type 0 where
  backspace delete other_key : KeyCode

pub data DecodedKey : Type 0 where
  unicode : ℕ → DecodedKey
  raw_key : KeyCode → DecodedKey

-- The byte of a decoded key; `character as u8` keeps the low eight bits of the code point.
unfoldable pub key_byte : DecodedKey → Option ℕ
key_byte (unicode character) = some (character % 256)
key_byte (raw_key backspace) = some 0x08
key_byte (raw_key delete) = some 0x7f
key_byte (raw_key other_key) = none

-- `Keyboard` of the crate, with `add_byte` and `process_keyevent` in one: the key that a scancode
-- completes, if any.
module _ {ℓ} {Decoder : Type ℓ} (add_scancode : Decoder → ℕ → Option DecodedKey × Decoder) where
  unfoldable pub decode_scancode : Decoder → ℕ → Option ℕ × Decoder
  decode_scancode kb scancode =
      let (decoded, kb') = add_scancode kb scancode in
      (elim decoded [ none ↦ none | some key ↦ key_byte key ], kb')

  -- The interrupt handler, with the scancode that it reads from the data port.
  unfoldable pub handle_interrupt : ℕ → Decoder × KeyBuffer → Decoder × KeyBuffer
  handle_interrupt scancode (kb, buffer) =
      let (byte, kb') = decode_scancode kb scancode in
      (kb', elim byte [ none ↦ buffer | some b ↦ push buffer b ])

  -- The polling path: the status register says whether a scancode is there.
  unfoldable pub poll_char : ℕ → ℕ → Decoder → Option ℕ × Decoder
  poll_char status scancode kb =
      if bit_and status status_output_buffer_full == 0
      then (none, kb)
      else decode_scancode kb scancode
