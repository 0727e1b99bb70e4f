-- ===== src/Boot/Interrupted.antt =====
-- The interrupts that come in while the start of kernel/src/main.rs goes on.
use compute_kernel.Common.{
  ℕ, not, ◌≡◌, refl, sym, ap, ◌∙◌, Bool, true, false, Option, none, some, List, [], ◌∷◌, ◌++◌, done,
  ◌>>=◌, arith, inl, inr, any, Option-cases,
}
use compute_kernel.Process.{Kernel}
use compute_kernel.Process.Pids.{Reach, here, next}
use compute_kernel.Interrupts.{Handler, Machine, idt, handle}
use compute_kernel.Interrupts.Vectors.{raised_vector, irq_ends}
use compute_kernel.Boot.{
  BootInfo, Platform, Startup, Stage, enable, log, run_stage, run_stages, take_interrupt,
  take_interrupts, add_to_decoder, machine_of, with_machine,
}
use compute_kernel.Boot.Stages.{println_sent}
use compute_kernel.Boot.SetUp.{IsSetUp}

abbrev pub is_log : Stage → Bool
is_log (log text) = true
is_log _ = false

log_text : (x : Stage) → is_log x ≡ true → (text : List ℕ) × (x ≡ log text)
log_text (log text) h = (text, refl)
log_text _ h = absurd cc

Reach-trans : {k k' k'' : Kernel} → Reach k k' → Reach k' k'' → Reach k k''
Reach-trans r here = r
Reach-trans r (next r' step) = next (Reach-trans r r') step

module _ {Port Table Selector Pics Mapper Decoder : Type 0}
    (platform : Platform Port Table Selector Pics Mapper Decoder) (boot_info : BootInfo) where
  abbrev pub State : Type 0
  State = Startup Port Table Selector Pics Mapper Decoder

  -- A decoder that is there stays there.
  decoder_stays :
      (d : Option Decoder) (scancode : ℕ) {kb : Decoder}
      → d ≡ some kb
      → (kb' : Decoder) × ((add_to_decoder platform boot_info d scancode).1 ≡ some kb')
  decoder_stays none scancode e = absurd cc
  decoder_stays (some kb) scancode e = ((platform.add_scancode kb scancode).1, refl)

  -- The ends told to the PIC once a line has asked for an interrupt.
  abbrev pub told : State → ℕ → List ℕ
  told s line = elim (platform.pics.raises s.pics line) [
    | none ↦ s.ended
    | some vector ↦ s.ended ++ (vector ∷ [])
  ]

  -- An interrupt that is served.
  served :
      (line scancode : ℕ) (s : State) {vector : ℕ} {h : Handler} {m : Machine (Option Decoder)}
      → platform.pics.raises s.pics line ≡ some vector
      → s.interrupts_on ≡ true
      → s.idt_loaded ≡ true
      → idt vector ≡ some h
      → handle (add_to_decoder platform boot_info) scancode h (machine_of platform boot_info s)
        ≡ done m
      → take_interrupt platform boot_info (line, scancode) s
        ≡ done (with_machine platform boot_info s m)
  unfolding take_interrupt
  served line scancode s raised on there set returns =
      simp (take_interrupt, raised, on, there, set, returns, ◌>>=◌)

  -- An interrupt returns, and has told its end.
  pub interrupt_returns :
      (line scancode : ℕ) (s : State)
      → IsSetUp platform s
      → s.interrupts_on ≡ true
      → (s' : State) × ((take_interrupt platform boot_info (line, scancode) s ≡ done s')
          × (s'.interrupts_on ≡ true)
          × (s'.ended ≡ told s line)
          × IsSetUp platform s')
  unfolding take_interrupt
  interrupt_returns line scancode s v on = elim (Option-cases (platform.pics.raises s.pics line)) [
    | inl silent ↦ (s, (rw (take_interrupt, silent) refl, on, rw (told, silent) refl, v))
    | inr (vector, raised) ↦
        let (index, at) =
          raised_vector platform.pics line
            (sym (ap (λ (p : Pics). platform.pics.raises p line) (v.pics_there)) ∙ raised) in
        let m = machine_of platform boot_info s in
        let (h, (set, (m', (returns, ended, reached, decoder)))) =
          irq_ends (add_to_decoder platform boot_info) index scancode m in
        let (kb, there) = v.decoder_there in
        (
          with_machine platform boot_info s m',
          (
            served line scancode s raised on v.idt_there (ap idt at ∙ set) returns,
            on,
            rw (told, raised) (ended ∙ ap (λ (w : ℕ). s.ended ++ (w ∷ [])) (sym at)),
            record {
              idt_there = v.idt_there;
              pics_there = v.pics_there;
              segments_there = v.segments_there;
              heap_there = v.heap_there;
              decoder_there = elim decoder [
                | inl same ↦ (kb, same ∙ there)
                | inr fed ↦ let (kb', e) = decoder_stays s.decoder scancode there in (kb', fed ∙ e)
              ];
              kernel_there = Reach-trans v.kernel_there reached;
            },
          ),
        )
  ]

  pub interrupts_return :
      (is : List (ℕ × ℕ)) (s : State)
      → IsSetUp platform s
      → s.interrupts_on ≡ true
      → (s' : State) × ((take_interrupts platform boot_info is s ≡ done s')
          × (s'.interrupts_on ≡ true)
          × IsSetUp platform s')
  unfolding take_interrupts
  interrupts_return [] s v on = (s, (refl, on, v))
  interrupts_return ((line, scancode) ∷ is) s v on =
      let (s₁, (e₁, on₁, told₁, v₁)) = interrupt_returns line scancode s v on in
      let (s₂, (e₂, on₂, v₂)) = interrupts_return is s₁ v₁ on₁ in
      (s₂, (rw (take_interrupts, e₁) e₂, on₂, v₂))

  module _ (sent : List ℕ → Port → Port)
      (sends : (text : List ℕ) (port : Port)
        → platform.uart.write_fmt text port ≡ some (sent text port))
      (arrivals : Stage → List (ℕ × ℕ)) where
    -- Lines for the log, and interrupts between them.
    logs_run :
        (xs : List Stage) (s : State)
        → any (λ x. not (is_log x)) xs ≡ false
        → IsSetUp platform s
        → s.interrupts_on ≡ true
        → (s' : State) × ((run_stages platform boot_info arrivals xs s ≡ done s')
            × (s'.interrupts_on ≡ true)
            × IsSetUp platform s')
    unfolding run_stages run_stage
    logs_run [] s h v on = (s, (refl, on, v))
    logs_run (x ∷ xs) s h v on =
        let (text, same) = log_text x (ground (arith, h)) in
        let port = sent (text ++ (10 ∷ [])) s.serial in
        let logged : State = record s { serial = port } in
        let v₁ : IsSetUp platform logged = record {
          idt_there = v.idt_there;
          pics_there = v.pics_there;
          segments_there = v.segments_there;
          heap_there = v.heap_there;
          decoder_there = v.decoder_there;
          kernel_there = v.kernel_there;
        } in
        let e : run_stage platform boot_info x s ≡ done logged =
          rw (same, run_stage, println_sent platform boot_info sent sends text s.serial) refl in
        let (s₂, (e₂, on₂, v₂)) = interrupts_return (arrivals x) logged v₁ on in
        let (s₃, (e₃, on₃, v₃)) = logs_run xs s₂ (ground (arith, h)) v₂ on₂ in
        (s₃, (rw (run_stages, e, e₂) e₃, on₃, v₃))

    -- From `enable` on.
    pub enabled_run :
        (xs : List Stage) (s : State)
        → any (λ x. not (is_log x)) xs ≡ false
        → IsSetUp platform s
        → (s' : State) × ((run_stages platform boot_info arrivals (enable ∷ xs) s ≡ done s')
            × (s'.interrupts_on ≡ true)
            × IsSetUp platform s')
    unfolding run_stages run_stage
    enabled_run xs s h v =
        let enabled : State = record s { interrupts_on = true } in
        let v₁ : IsSetUp platform enabled = record {
          idt_there = v.idt_there;
          pics_there = v.pics_there;
          segments_there = v.segments_there;
          heap_there = v.heap_there;
          decoder_there = v.decoder_there;
          kernel_there = v.kernel_there;
        } in
        let (s₂, (e₂, on₂, v₂)) = interrupts_return (arrivals enable) enabled v₁ refl in
        let (s₃, (e₃, on₃, v₃)) = logs_run xs s₂ h v₂ on₂ in (s₃, (rw (run_stages, e₂) e₃, on₃, v₃))
