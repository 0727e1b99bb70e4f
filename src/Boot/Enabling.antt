-- ===== src/Boot/Enabling.antt =====
-- What an interrupt finds during the start of kernel/src/main.rs.
use compute_kernel.Common.{
  ℕ, zero, suc, some, not, ◌≡◌, ◌+◌, ◌-◌, ◌≤◌, refl, sym, ap, ◌∙◌, Bool, true, false, List, [], ◌∷◌,
  ◌++◌, Outcome, Outcome-cases, >>=-eq-done, done, panic, arith, take, drop, inl, inr, any,
  lt_cases, length,
}
use mathlib.Core.Path.{subst}
use native.Mathlib.Nat.{zero-add}
use compute_kernel.Boot.{
  BootInfo, Platform, Startup, Stage, enable, stages, run_stage, run_stages, take_interrupt,
  at_entry, task_state,
}
use compute_kernel.Boot.Stages.{
  run_quiet, run_stages-quiet, run_stages-append, run_stage-off, is_enable,
}
use compute_kernel.Boot.SetUp.{IsSetUp, set_up, ready-IsSetUp, mapping, unmapped_panics}
use compute_kernel.Boot.Interrupted.{is_log, told, interrupt_returns, enabled_run}
use compute_kernel.Segments.{Segments, unset, ist_stack_size}
use compute_kernel.Segments as Segments
use compute_kernel.Segments.Loading.{IsLoaded, StaysCanonical, init-IsLoaded}

any-take {ℓ} :
    {A : Type ℓ} (f : A → Bool) (n : ℕ) (xs : List A) → any f xs ≡ false → any f (take n xs) ≡ false
any-take f zero xs h = refl
any-take f (suc n) [] h = refl
any-take f (suc n) (x ∷ xs) h = ground (arith, any-take f n xs)

take-take {ℓ} : {A : Type ℓ} (n m : ℕ) (xs : List A) → n ≤ m → take n (take m xs) ≡ take n xs
take-take zero m xs h = refl
take-take (suc n) zero xs h = absurd (omega arith)
take-take (suc n) (suc m) [] h = refl
take-take (suc n) (suc m) (x ∷ xs) h = ap (◌∷◌ x) (take-take n m xs (omega arith))

suc-add : (n m : ℕ) → suc n + m ≡ suc (n + m)
suc-add n m = omega arith

take_nil {ℓ} : {A : Type ℓ} (n : ℕ) → take {A = A} n [] ≡ []
take_nil zero = refl
take_nil (suc n) = refl

take_beyond {ℓ} :
    {A : Type ℓ} (n m : ℕ) (xs : List A) → take (n + m) xs ≡ take n xs ++ take m (drop n xs)
take_beyond zero m xs = ap (λ (k : ℕ). take k xs) (zero-add m)
take_beyond (suc n) m [] = rw (suc-add n m) (sym (take_nil m))
take_beyond (suc n) m (x ∷ xs) = rw (suc-add n m) (ap (◌∷◌ x) (take_beyond n m xs))

done_injective {ℓ} : {A : Type ℓ} {a b : A} → done a ≡ done b → a ≡ b
done_injective e = cc

module _ {Port Table Selector Pics Mapper Decoder : Type 0}
    (platform : Platform Port Table Selector Pics Mapper Decoder) (boot_info : BootInfo) where
  abbrev State : Type 0
  State = Startup Port Table Selector Pics Mapper Decoder

  -- Stages without `enable` leave interrupts as they are.
  run_quiet-off :
      (xs : List Stage) (s : State) {s' : State}
      → any is_enable xs ≡ false
      → run_quiet platform boot_info xs s ≡ done s'
      → s'.interrupts_on ≡ s.interrupts_on
  unfolding run_quiet
  run_quiet-off [] s h e = cc
  run_quiet-off (x ∷ xs) s h e =
      let (s₁, (e₁, e₂)) =
        >>=-eq-done (run_stage platform boot_info x s) (run_quiet platform boot_info xs) e in
      run_quiet-off xs s₁ (ground (arith, h)) e₂
      ∙ run_stage-off platform boot_info x s (ground (arith, h)) e₁

module _ {Port Table Selector Pics Mapper Decoder : Type 0}
    (platform : Platform Port Table Selector Pics Mapper Decoder) (boot_info : BootInfo)
    (sent : List ℕ → Port → Port)
    (sends : (text : List ℕ) (port : Port)
      → platform.uart.write_fmt text port ≡ some (sent text port))
    (memory : ℕ → ℕ) (arrivals : Stage → List (ℕ × ℕ)) where
  abbrev Begun : Type 0
  Begun = Startup Port Table Selector Pics Mapper Decoder

  abbrev entry : Begun
  entry = at_entry platform memory

  module _ (loaded : Segments Table Selector)
      (seg : Segments.init platform.tables (task_state platform) unset ≡ done loaded)
      (filled : IsLoaded platform.tables platform.double_fault_stack platform.gpf_stack
        loaded) where
    -- The state before `enable`, if it is come to.
    before_enable-IsSetUp :
        {s : Begun}
        → run_quiet platform boot_info (take 25 stages) entry ≡ done s
        → IsSetUp platform s
    before_enable-IsSetUp {s} e = elim (Outcome-cases (mapping platform boot_info)) [
      | inl unmapped ↦ absurd (
          let panics =
            unmapped_panics platform boot_info sent sends memory loaded seg filled unmapped in
          let clash : ◌≡◌ {A = Outcome Begun} panic (done s) = sym panics ∙ e in cc)
      | inr ((mapper, frames), mem) ↦
          let (port, e') =
            set_up platform boot_info sent sends memory loaded seg filled mapper frames mem in
          subst (IsSetUp platform) (done_injective (sym e' ∙ e)) (
            ready-IsSetUp platform boot_info sent sends memory loaded seg filled mapper frames mem
              port)
    ]

    -- Behind `enable` there are only lines for the log.
    enabled-IsSetUp :
        (k : ℕ) {s : Begun}
        → run_stages platform boot_info arrivals (take (25 + suc k) stages) entry ≡ done s
        → IsSetUp platform s
    unfolding stages
    enabled-IsSetUp k {s} e =
        let before = take 25 stages in
        let behind = take k (drop 26 stages) in
        let parts =
          sym (
            ap (λ (xs : List Stage). run_stages platform boot_info arrivals xs entry)
              (take_beyond 25 (suc k) stages)
            ∙ run_stages-append platform boot_info arrivals before (enable ∷ behind) entry)
          ∙ e in
        let (s₁, (e₁, e₂)) =
          >>=-eq-done (run_stages platform boot_info arrivals before entry)
            (run_stages platform boot_info arrivals (enable ∷ behind)) parts in
        let quiet = run_stages-quiet platform boot_info arrivals before entry refl refl in
        let (s₂, (e₃, on, v)) =
          enabled_run platform boot_info sent sends arrivals behind s₁
            (any-take (λ x. not (is_log x)) k (drop 26 stages) refl)
            (before_enable-IsSetUp (sym quiet ∙ e₁)) in
        subst (IsSetUp platform) (done_injective (sym e₃ ∙ e₂)) v

  on-late :
      (n : ℕ) {s : Begun}
      → run_stages platform boot_info arrivals (take n stages) entry ≡ done s
      → s.interrupts_on ≡ true
      → 26 ≤ n
  unfolding stages
  on-late n {s} e on = elim (lt_cases n 26) [
    | inr late ↦ late
    | inl early ↦
        let short = any-take is_enable n (take 25 stages) refl in
        let same = take-take n 25 stages (omega arith) in
        let without = sym (ap (any is_enable) same) ∙ short in
        let quiet =
          run_stages-quiet platform boot_info arrivals (take n stages) entry without refl in
        let off = run_quiet-off platform boot_info (take n stages) entry without (sym quiet ∙ e) in
        absurd (let clash : false ≡ true = sym off ∙ on in cc)
  ]

  -- Whatever interrupts come in behind the stages of the start-up: wherever interrupts are on, the
  -- segments, the interrupt table, the PICs' masks, the heap and the keyboard's decoder are in place,
  -- the process state is one that the kernel reaches from `process::init`, and a line of the PICs that
  -- asks for an interrupt is served without a panic. Its vector, if its mask lets it through, is the
  -- next one whose end is told to the PIC, and what was in place still is. It holds where the serial
  -- port takes what is written, the sum of a canonical address and a number is that of the numbers as
  -- long as it stays canonical, the two interrupt stacks stay canonical, and a task state has seven
  -- interrupt stacks.
  pub interrupts_handled :
      (n line scancode : ℕ) {s : Begun}
      → length (platform.new_tss.interrupt_stack_table) ≡ 7
      → ((a k : ℕ) → StaysCanonical a k → platform.virt_add a k ≡ done (a + k))
      → StaysCanonical platform.double_fault_stack ist_stack_size
      → StaysCanonical platform.gpf_stack ist_stack_size
      → run_stages platform boot_info arrivals (take n stages) entry ≡ done s
      → s.interrupts_on ≡ true
      → IsSetUp platform s
        × ((s' : Begun) × ((take_interrupt platform boot_info (line, scancode) s ≡ done s')
              × (s'.interrupts_on ≡ true)
              × (s'.ended ≡ told platform boot_info s line)
              × IsSetUp platform s'))
  interrupts_handled n line scancode {s} seven adds placed placed' e on =
      let late = on-late n e on in
      let place : n ≡ 25 + suc (n - 26) = omega arith in
      let (loaded, (seg, filled)) =
        init-IsLoaded platform.new_tss platform.virt_add platform.double_fault_stack
          platform.gpf_stack seven adds placed placed' platform.tables in
      let v = enabled-IsSetUp loaded seg filled (n - 26) (
        sym (ap (λ (k : ℕ). run_stages platform boot_info arrivals (take k stages) entry) place)
        ∙ e) in
      (v, interrupt_returns platform boot_info line scancode s v on)
