-- ===== src/Interrupts.antt =====
-- Interrupts: kernel/src/arch/x86_64/interrupts.rs and idt.rs, the handlers and the table that
-- binds them to vectors. The exceptions' vectors are those of the fields of the crate x86_64's
-- table. The scancode decoder is a parameter, as for the keyboard; the lines of the serial log are
-- left out.
pub mod Vectors
mod Tests
use compute_kernel.Common.{
  ℕ, ◌+◌, ◌-◌, ◌^◌, ◌<◌, ◌≤◌, ◌≡◌, nth_bit, Option, none, some, List, [], ◌∷◌, ◌++◌, ◌==◌,
  if◌then◌else◌, bit_and, bit_or, Outcome, done, panic, find?,
}
use compute_kernel.Process.{Kernel}
use compute_kernel.Process.Scheduler.{tick}
use compute_kernel.Segments.{double_fault_ist_index, gpf_ist_index}
use compute_kernel.Drivers.Keyboard.{KeyBuffer, DecodedKey, handle_interrupt}

abbrev pub pic_1_offset : ℕ
pic_1_offset = 0x20

abbrev pub pic_2_offset : ℕ
pic_2_offset = pic_1_offset + 8

pub data InterruptIndex : Type 0 where
  timer keyboard cascade com2 com1 lpt2 floppy_disk lpt1 rtc_timer legacy1 legacy2 legacy3 ps2_mouse
        fpu_coprocessor primary_ata secondary_ata :
      InterruptIndex

-- `as_u8`: the discriminants go up from PIC_1_OFFSET.
unfoldable pub as_u8 : InterruptIndex → ℕ
as_u8 timer = pic_1_offset
as_u8 keyboard = pic_1_offset + 1
as_u8 cascade = pic_1_offset + 2
as_u8 com2 = pic_1_offset + 3
as_u8 com1 = pic_1_offset + 4
as_u8 lpt2 = pic_1_offset + 5
as_u8 floppy_disk = pic_1_offset + 6
as_u8 lpt1 = pic_1_offset + 7
as_u8 rtc_timer = pic_1_offset + 8
as_u8 legacy1 = pic_1_offset + 9
as_u8 legacy2 = pic_1_offset + 10
as_u8 legacy3 = pic_1_offset + 11
as_u8 ps2_mouse = pic_1_offset + 12
as_u8 fpu_coprocessor = pic_1_offset + 13
as_u8 primary_ata = pic_1_offset + 14
as_u8 secondary_ata = pic_1_offset + 15

-- The handlers, by the names of the functions. `irq` stands for those that only end the interrupt.
pub data Handler : Type 0 where
  divide_error debug nmi breakpoint overflow bound_range_exceeded invalid_opcode
        device_not_available double_fault invalid_tss segment_not_present stack_segment_fault
        general_protection_fault page_fault x87_floating_point alignment_check machine_check
        simd_floating_point virtualization security_exception timer_interrupt keyboard_interrupt :
      Handler
  irq : InterruptIndex → Handler

-- What an interrupt changes: the process state, the keyboard, and the vectors whose end has been
-- told to the PIC.
pub record Machine {ℓ} (Decoder : Type ℓ) : Type ℓ where
  pub kernel : Kernel
  pub decoder : Decoder
  pub keys : KeyBuffer
  pub ended : List ℕ

-- The table that `idt::init` builds: the entries that it sets for exceptions and for the PIC's
-- interrupts, in order.
unfoldable pub exception_entries : List (ℕ × Handler)
exception_entries =
    (0, divide_error)
    ∷ (1, debug)
    ∷ (2, nmi)
    ∷ (3, breakpoint)
    ∷ (4, overflow)
    ∷ (5, bound_range_exceeded)
    ∷ (6, invalid_opcode)
    ∷ (7, device_not_available)
    ∷ (8, double_fault)
    ∷ (10, invalid_tss)
    ∷ (11, segment_not_present)
    ∷ (12, stack_segment_fault)
    ∷ (13, general_protection_fault)
    ∷ (14, page_fault)
    ∷ (16, x87_floating_point)
    ∷ (17, alignment_check)
    ∷ (18, machine_check)
    ∷ (19, simd_floating_point)
    ∷ (20, virtualization)
    ∷ (30, security_exception)
    ∷ []

unfoldable pub irq_entries : List (ℕ × Handler)
unfolding as_u8
irq_entries =
    (as_u8 timer, timer_interrupt)
    ∷ (as_u8 keyboard, keyboard_interrupt)
    ∷ (as_u8 cascade, irq cascade)
    ∷ (as_u8 com2, irq com2)
    ∷ (as_u8 com1, irq com1)
    ∷ (as_u8 lpt2, irq lpt2)
    ∷ (as_u8 floppy_disk, irq floppy_disk)
    ∷ (as_u8 lpt1, irq lpt1)
    ∷ (as_u8 rtc_timer, irq rtc_timer)
    ∷ (as_u8 legacy1, irq legacy1)
    ∷ (as_u8 legacy2, irq legacy2)
    ∷ (as_u8 legacy3, irq legacy3)
    ∷ (as_u8 ps2_mouse, irq ps2_mouse)
    ∷ (as_u8 fpu_coprocessor, irq fpu_coprocessor)
    ∷ (as_u8 primary_ata, irq primary_ata)
    ∷ (as_u8 secondary_ata, irq secondary_ata)
    ∷ []

unfoldable pub find_entry : ℕ → List (ℕ × Handler) → Option Handler
find_entry vector [] = none
find_entry vector ((v, h) ∷ entries) = if v == vector then some h else find_entry vector entries

-- The handler of a vector, if one is set.
unfoldable pub idt : ℕ → Option Handler
unfolding find_entry exception_entries irq_entries
idt vector = find_entry vector (exception_entries ++ irq_entries)

-- `write_masks` of `init_pics`: `0xFF & !((1 << 0) | (1 << 1) | (1 << 2))`, and all of the second.
unfoldable pub primary_mask : ℕ
primary_mask = bit_and 0xff (255 - bit_or (bit_or (2 ^ 0) (2 ^ 1)) (2 ^ 2))

abbrev pub secondary_mask : ℕ
secondary_mask = 0xff

-- The interrupt stacks that `idt::init` gives to entries, by their index.
unfoldable pub stack_index : Handler → Option ℕ
stack_index double_fault = some double_fault_ist_index
stack_index general_protection_fault = some gpf_ist_index
stack_index _ = none

-- `ChainedPics` of the crate pic8259: two PICs with the vectors of their first lines. A line raises
-- an interrupt only where its bit is clear in the masks written last, and then with the vector of its
-- place.
pub record ChainedPics (Pics : Type 0) : Type 0 where
  pub new : ℕ → ℕ → Pics
  pub initialize : Pics → Pics
  pub write_masks : ℕ → ℕ → Pics → Pics
  pub raises : Pics → ℕ → Option ℕ
  pub raises-first :
      (offset₁ offset₂ mask₁ mask₂ line vector : ℕ)
      → line < 8
      → raises (write_masks mask₁ mask₂ (initialize (new offset₁ offset₂))) line ≡ some vector
      → (nth_bit line mask₁ ≡ 0) × (vector ≡ offset₁ + line)
  pub raises-second :
      (offset₁ offset₂ mask₁ mask₂ line vector : ℕ)
      → line < 8
      → raises (write_masks mask₁ mask₂ (initialize (new offset₁ offset₂))) (8 + line) ≡ some vector
      → (nth_bit line mask₂ ≡ 0) × (vector ≡ offset₂ + line)
  pub raises-beyond : (pics : Pics) (line : ℕ) → 16 ≤ line → raises pics line ≡ none

-- The static PICS, and `init_pics`.
module _ {Pics : Type 0} (pics : ChainedPics Pics) where
  unfoldable pub both_pics : Pics
  both_pics = pics.new pic_1_offset pic_2_offset

  unfoldable pub init_pics : Pics → Pics
  init_pics p = pics.write_masks primary_mask secondary_mask (pics.initialize p)

module _ {ℓ} {Decoder : Type ℓ} (add_scancode : Decoder → ℕ → Option DecodedKey × Decoder) where
  -- `notify_end_of_interrupt`.
  abbrev pub notify : InterruptIndex → Machine Decoder → Machine Decoder
  notify index m = record m { ended = m.ended ++ (as_u8 index ∷ []) }

  -- A handler's run, with the byte that the keyboard's data port holds. The handlers of debug and
  -- breakpoint exceptions write to the log and return; those of other exceptions panic.
  unfoldable pub handle : ℕ → Handler → Machine Decoder → Outcome (Machine Decoder)
  unfolding as_u8
  handle scancode debug m = done m
  handle scancode breakpoint m = done m
  handle scancode timer_interrupt m = done (notify timer (record m { kernel = tick m.kernel }))
  handle scancode keyboard_interrupt m =
      let (decoder, keys) = handle_interrupt add_scancode scancode (m.decoder, m.keys) in
      done (notify keyboard (record m { decoder = decoder; keys = keys }))
  handle scancode (irq index) m = done (notify index m)
  handle scancode _ m = panic
