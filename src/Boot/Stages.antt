-- ===== src/Boot/Stages.antt =====
-- Runs of the stages of kernel/src/main.rs.
use compute_kernel.Common.{
  ℕ, ◌≡◌, refl, Bool, true, false, none, some, List, [], ◌∷◌, ◌++◌, Outcome, done, panic, ◌>>=◌,
  arith, codes, show_u64, length, any, Outcome-cases, Option-cases, inl, inr, ◌∙◌,
}
use compute_kernel.Boot.{
  BootInfo, Platform, Startup, Stage, pci_init, enable, log, run_stage, run_stages, take_interrupt,
  take_interrupts,
}
use compute_kernel.Drivers.Serial.{serial_print, serial_println}
use compute_kernel.Drivers.Pci.{PciDevice}
use compute_kernel.Drivers.Pci.Listing.{log_devices, device_line}
use compute_kernel.Drivers.Pci.{enumerate}
use compute_kernel.Drivers.Pci.Listing as Listing

abbrev pub is_enable : Stage → Bool
is_enable enable = true
is_enable _ = false

-- The lines that the stages themselves log.
abbrev pub lines_of : List Stage → List (List ℕ)
lines_of [] = []
lines_of (log text ∷ xs) = text ∷ lines_of xs
lines_of (_ ∷ xs) = lines_of xs

module _ {Port Table Selector Pics Mapper Decoder : Type 0}
    (platform : Platform Port Table Selector Pics Mapper Decoder) (boot_info : BootInfo) where
  abbrev pub State : Type 0
  State = Startup Port Table Selector Pics Mapper Decoder

  -- The stages without interrupts.
  unfoldable pub run_quiet : List Stage → State → Outcome State
  run_quiet [] s = done s
  run_quiet (x ∷ xs) s = do s' ← run_stage platform boot_info x s; run_quiet xs s'

  pub run_quiet-append :
      (xs ys : List Stage) (s : State)
      → run_quiet (xs ++ ys) s ≡ (run_quiet xs s >>= λ s'. run_quiet ys s')
  unfolding run_quiet
  run_quiet-append [] ys s = refl
  run_quiet-append (x ∷ xs) ys s =
      over (run_stage platform boot_info x s) (λ s'. run_quiet-append xs ys s')
    where
      over :
          (r : Outcome State)
          → ((s' : State) → run_quiet (xs ++ ys) s' ≡ (run_quiet xs s' >>= λ s''. run_quiet ys s''))
          → (r >>= λ s'. run_quiet (xs ++ ys) s')
            ≡ ((r >>= λ s'. run_quiet xs s') >>= λ s'. run_quiet ys s')
      over (done s') ih = ih s'
      over panic ih = refl

  -- Only `enable` turns interrupts on.
  pub run_stage-off :
      (x : Stage) (s : State) {s' : State}
      → is_enable x ≡ false
      → run_stage platform boot_info x s ≡ done s'
      → s'.interrupts_on ≡ s.interrupts_on
  unfolding run_stage
  run_stage-off x s h e = ground arith

  -- With interrupts off, none is taken.
  take_interrupt-off :
      (i : ℕ × ℕ) (s : State)
      → s.interrupts_on ≡ false
      → take_interrupt platform boot_info i s ≡ done s
  unfolding take_interrupt
  take_interrupt-off (line, scancode) s off =
      elim (Option-cases (platform.pics.raises s.pics line)) [
        | inl silent ↦ rw (take_interrupt, silent) refl
        | inr (vector, raised) ↦ rw (take_interrupt, raised, off) refl
      ]

  take_interrupts-off :
      (is : List (ℕ × ℕ)) (s : State)
      → s.interrupts_on ≡ false
      → take_interrupts platform boot_info is s ≡ done s
  unfolding take_interrupts
  take_interrupts-off [] s off = refl
  take_interrupts-off (i ∷ is) s off =
      rw (take_interrupts, take_interrupt-off i s off) (take_interrupts-off is s off)

  module _ (arrivals : Stage → List (ℕ × ℕ)) where
    -- Up to `enable`, interrupts change nothing.
    pub run_stages-quiet :
        (xs : List Stage) (s : State)
        → any is_enable xs ≡ false
        → s.interrupts_on ≡ false
        → run_stages platform boot_info arrivals xs s ≡ run_quiet xs s
    unfolding run_stages run_quiet
    run_stages-quiet [] s h off = refl
    run_stages-quiet (x ∷ xs) s h off = elim (Outcome-cases (run_stage platform boot_info x s)) [
      | inl stopped ↦ rw (stopped, run_stages, run_quiet) refl
      | inr (s₁, e) ↦
          let off₁ = run_stage-off x s (ground (arith, h)) e ∙ off in
          rw (e, run_stages, run_quiet, take_interrupts-off (arrivals x) s₁ off₁)
            (run_stages-quiet xs s₁ (ground (arith, h)) off₁)
    ]

    pub run_stages-append :
        (xs ys : List Stage) (s : State)
        → run_stages platform boot_info arrivals (xs ++ ys) s ≡ (
            run_stages platform boot_info arrivals xs s >>= λ s'.
            run_stages platform boot_info arrivals ys s')
    unfolding run_stages
    run_stages-append [] ys s = refl
    run_stages-append (x ∷ xs) ys s = elim (Outcome-cases (run_stage platform boot_info x s)) [
      | inl stopped ↦ rw (stopped, run_stages) refl
      | inr (s₁, e) ↦ elim (Outcome-cases (take_interrupts platform boot_info (arrivals x) s₁)) [
        | inl fault ↦ rw (e, fault, run_stages) refl
        | inr (s₂, e₂) ↦ rw (e, e₂, run_stages) (run_stages-append xs ys s₂)
      ]
    ]

  -- The log does not fail, if the port takes what is written.
  module _ (sent : List ℕ → Port → Port)
      (sends : (text : List ℕ) (port : Port)
        → platform.uart.write_fmt text port ≡ some (sent text port)) where
    -- The port after some lines.
    abbrev pub logged : List (List ℕ) → Port → Port
    logged [] port = port
    logged (text ∷ texts) port = logged texts (sent (text ++ (10 ∷ [])) port)

    pub println_sent :
        (text : List ℕ) (port : Port)
        → serial_println platform.uart text port ≡ done (sent (text ++ (10 ∷ [])) port)
    unfolding serial_println serial_print
    println_sent text port = rw (sends (text ++ (10 ∷ [])) port, serial_print) refl

    log_devices_total :
        (devices : List PciDevice) (port : Port)
        → (port' : Port) × (log_devices platform.uart devices port ≡ done port')
    unfolding log_devices
    log_devices_total [] port = (port, refl)
    log_devices_total (dev ∷ devices) port =
        let line = device_line dev in
        let (port', e) = log_devices_total devices (sent (line ++ (10 ∷ [])) port) in
        (port', rw (println_sent line port) e)

    listing_total :
        (port : Port)
        → (port' : Port) × (Listing.init platform.uart platform.config port ≡ done port')
    unfolding Listing.init
    listing_total port =
        let (port', e) = log_devices_total (enumerate platform.config) port in
        let text =
          codes "[PCI] Found "
          ++ (show_u64 (length (enumerate platform.config)) ++ codes " device(s)") in
        (sent (text ++ (10 ∷ [])) port', rw e (println_sent text port'))

    -- With the heap there, the enumeration of the PCI bus changes nothing but the log.
    pub pci_stage :
        (s : State) {mapper : Mapper}
        → s.heap ≡ some mapper
        → (port : Port) × (run_stage platform boot_info pci_init s
            ≡ done (record s { serial = port }))
    unfolding run_stage
    pci_stage s h =
        let (port, e) = listing_total s.serial in (port, found (enumerate platform.config) e)
      where
        found :
            (devices : List PciDevice) {port : Port}
            → Listing.init platform.uart platform.config s.serial ≡ done port
            → (elim devices [
              | [] ↦ done s
              | device ∷ rest ↦ elim (s.heap) [ none ↦ panic | some mapper ↦ done s ]
            ]
                >>= λ (ready : State).
                    (Listing.init platform.uart platform.config ready.serial >>= λ (port' : Port).
                    done (record ready { serial = port' })))
              ≡ done (record s { serial = port })
        found [] e = rw e refl
        found (device ∷ rest) e = simp (h, e, ◌>>=◌)
