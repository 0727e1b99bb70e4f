-- ===== src/Interrupts/Vectors.antt =====
-- What the table of kernel/src/arch/x86_64/idt.rs binds to the interrupts of the PIC, and what the
-- handlers of interrupts.rs do to the rest of the machine.
use compute_kernel.Common.{
  ℕ, zero, suc, ◌<◌, ◌≤◌, ◌≡◌, ◌↔◌, ◌⊎◌, refl, Option, none, some, [], ◌∷◌, ◌++◌, arith, nth_bit,
  done, lt_cases, inl, inr, ap, sym, ◌∙◌, ◌+◌, ◌-◌,
}
use compute_kernel.Process.Pids.{Reach, here, next}
use compute_kernel.Process.Pids as Pids
use compute_kernel.Drivers.Keyboard.{DecodedKey, handle_interrupt, decode_scancode}
use compute_kernel.Interrupts.{
  InterruptIndex, timer, keyboard, cascade, com2, com1, lpt2, floppy_disk, lpt1, rtc_timer, legacy1,
  legacy2, legacy3, ps2_mouse, fpu_coprocessor, primary_ata, secondary_ata, as_u8, Handler, Machine,
  exception_entries, irq_entries, find_entry, idt, primary_mask, handle, ChainedPics, init_pics,
  both_pics, pic_1_offset, pic_2_offset, secondary_mask,
}

module _ {ℓ} {Decoder : Type ℓ} (add_scancode : Decoder → ℕ → Option DecodedKey × Decoder) where
  -- Every interrupt of the PIC has a handler in the table, which returns and has told the PIC the end
  -- of its own interrupt, and of no other. It takes the process state to one that is reached from it,
  -- and leaves the decoder or gives it the scancode.
  pub irq_ends :
      (index : InterruptIndex) (scancode : ℕ) (m : Machine Decoder)
      → (h : Handler) × ((idt (as_u8 index) ≡ some h)
          × ((m' : Machine Decoder) × ((handle add_scancode scancode h m ≡ done m')
                × (m'.ended ≡ m.ended ++ (as_u8 index ∷ []))
                × (Reach m.kernel m'.kernel)
                × ((m'.decoder ≡ m.decoder) ⊎ (m'.decoder ≡ (add_scancode m.decoder scancode).1)))))
  unfolding idt find_entry exception_entries irq_entries as_u8 handle handle_interrupt
      decode_scancode
  irq_ends timer scancode m =
      (_, (refl, (_, (refl, refl, next here (Pids.timer m.kernel), inl refl))))
  irq_ends keyboard scancode m = (_, (refl, (_, (refl, refl, here, inr refl))))
  irq_ends cascade scancode m = (_, (refl, (_, (refl, refl, here, inl refl))))
  irq_ends com2 scancode m = (_, (refl, (_, (refl, refl, here, inl refl))))
  irq_ends com1 scancode m = (_, (refl, (_, (refl, refl, here, inl refl))))
  irq_ends lpt2 scancode m = (_, (refl, (_, (refl, refl, here, inl refl))))
  irq_ends floppy_disk scancode m = (_, (refl, (_, (refl, refl, here, inl refl))))
  irq_ends lpt1 scancode m = (_, (refl, (_, (refl, refl, here, inl refl))))
  irq_ends rtc_timer scancode m = (_, (refl, (_, (refl, refl, here, inl refl))))
  irq_ends legacy1 scancode m = (_, (refl, (_, (refl, refl, here, inl refl))))
  irq_ends legacy2 scancode m = (_, (refl, (_, (refl, refl, here, inl refl))))
  irq_ends legacy3 scancode m = (_, (refl, (_, (refl, refl, here, inl refl))))
  irq_ends ps2_mouse scancode m = (_, (refl, (_, (refl, refl, here, inl refl))))
  irq_ends fpu_coprocessor scancode m = (_, (refl, (_, (refl, refl, here, inl refl))))
  irq_ends primary_ata scancode m = (_, (refl, (_, (refl, refl, here, inl refl))))
  irq_ends secondary_ata scancode m = (_, (refl, (_, (refl, refl, here, inl refl))))

-- The masks let the timer, the keyboard and the cascade through, and nothing else.
pub mask_lets_through : (line : ℕ) → line < 8 → (nth_bit line primary_mask ≡ 0) ↔ (line < 3)
unfolding nth_bit primary_mask
mask_lets_through zero h = ground arith
mask_lets_through (suc zero) h = ground arith
mask_lets_through (suc (suc zero)) h = ground arith
mask_lets_through (suc (suc (suc zero))) h = ground arith
mask_lets_through (suc (suc (suc (suc zero)))) h = ground arith
mask_lets_through (suc (suc (suc (suc (suc zero))))) h = ground arith
mask_lets_through (suc (suc (suc (suc (suc (suc zero)))))) h = ground arith
mask_lets_through (suc (suc (suc (suc (suc (suc (suc zero))))))) h = ground arith
mask_lets_through (suc (suc (suc (suc (suc (suc (suc (suc line)))))))) h = absurd (omega arith)

all_masked : (line : ℕ) → line < 8 → nth_bit line secondary_mask ≡ 1
unfolding nth_bit
all_masked zero h = refl
all_masked (suc zero) h = refl
all_masked (suc (suc zero)) h = refl
all_masked (suc (suc (suc zero))) h = refl
all_masked (suc (suc (suc (suc zero)))) h = refl
all_masked (suc (suc (suc (suc (suc zero))))) h = refl
all_masked (suc (suc (suc (suc (suc (suc zero)))))) h = refl
all_masked (suc (suc (suc (suc (suc (suc (suc zero))))))) h = refl
all_masked (suc (suc (suc (suc (suc (suc (suc (suc line)))))))) h = absurd (omega arith)

three_lines :
    (line vector : ℕ)
    → line < 3
    → vector ≡ pic_1_offset + line
    → (index : InterruptIndex) × (vector ≡ as_u8 index)
unfolding as_u8
three_lines zero vector h e = (timer, e)
three_lines (suc zero) vector h e = (keyboard, e)
three_lines (suc (suc zero)) vector h e = (cascade, e)
three_lines (suc (suc (suc line))) vector h e = absurd (omega arith)

-- Once the PICs are set up, a line that raises an interrupt is one of the first three, and raises
-- the timer's, the keyboard's or the cascade's vector.
pub raised_vector :
    {Pics : Type 0} (pics : ChainedPics Pics) (line : ℕ) {vector : ℕ}
    → pics.raises (init_pics pics (both_pics pics)) line ≡ some vector
    → (index : InterruptIndex) × (vector ≡ as_u8 index)
unfolding init_pics both_pics
raised_vector pics line {vector} h = elim (lt_cases line 8) [
  | inl first ↦
      let (clear, at) =
        pics.raises-first pic_1_offset pic_2_offset primary_mask secondary_mask line vector first
          h in
      three_lines line vector ((mask_lets_through line first).0 clear) at
  | inr behind ↦ elim (lt_cases line 16) [
    | inl second ↦
        let place : line ≡ 8 + (line - 8) = omega arith in
        let (clear, _) =
          pics.raises-second pic_1_offset pic_2_offset primary_mask secondary_mask (line - 8) vector
            (omega arith) (ap (pics.raises (init_pics pics (both_pics pics))) (sym place) ∙ h) in
        absurd (omega (arith, all_masked (line - 8) (omega arith)))
    | inr beyond ↦ ground (arith, pics.raises-beyond (init_pics pics (both_pics pics)) line beyond)
  ]
]

-- No vector above the PIC's has a handler.
pub no_handler_above : (vector : ℕ) → 48 ≤ vector → idt vector ≡ none
unfolding idt find_entry exception_entries irq_entries as_u8
no_handler_above vector h = ground arith
