-- ===== src/Process/Scheduler.antt =====
-- The round-robin scheduler: kernel/src/process/scheduler.rs.
use compute_kernel.Common.{
  ℕ, zero, suc, ◌+◌, ◌%◌, ◌^◌, Bool, true, false, Option, none, some, List, [], ◌∷◌, ◌==◌,
  if◌then◌else◌, length, get_elem?,
}
use compute_kernel.Process.{Process, ProcessState, ready, running, Kernel, has_pid, exit_current}
use compute_kernel.Process.Signal.{dispatch_signals}

-- Time-slice length in ticks.
abbrev pub timeslice : ℕ
timeslice = 10

abbrev pub is_runnable_state : ProcessState → Bool
is_runnable_state ready = true
is_runnable_state running = true
is_runnable_state _ = false

abbrev pub is_runnable : Process → Bool
is_runnable p = is_runnable_state p.state

-- `iter().position(f)`.
abbrev pub position? {ℓ} : {A : Type ℓ} → (A → Bool) → List A → Option ℕ
position? f [] = none
position? f (x ∷ xs) =
    if f x then some 0 else elim (position? f xs) [ some i ↦ some (suc i) | none ↦ none ]

-- The slot where the search starts: that of the current process, or 0 if it is gone.
unfoldable pub start_slot : ℕ → List Process → ℕ
start_slot current table = elim (position? (has_pid current) table) [ some idx ↦ idx | none ↦ 0 ]

-- `for i in 1..=n`, with `rounds` left from `i` on: the PID of the first runnable process.
-- (An index out of range, which does not occur, would be a panic.)
unfoldable pub next_runnable : List Process → ℕ → ℕ → ℕ → Option ℕ
next_runnable table start i zero = none
next_runnable table start i (suc rounds) =
    let later = next_runnable table start (i + 1) rounds in
    elim (get_elem? table ((start + i) % length table)) [
      | none ↦ none
      | some p ↦ if is_runnable p then some p.pid else later
    ]

unfoldable pub schedule : Kernel → Kernel
unfolding start_slot next_runnable
schedule k =
    let n = length k.table in
    if n == 0
    then record k { current_pid = 0 }
    else elim (next_runnable k.table (start_slot k.current_pid k.table) 1 n) [
      | some pid ↦ record k { current_pid = pid }
      | none ↦ k
    ]

unfoldable pub force_schedule : Kernel → Kernel
force_schedule k = schedule k

-- The timer interrupt. The tick counter is a u64.
unfoldable pub tick : Kernel → Kernel
tick k =
    let t = (k.ticks + 1) % 2 ^ 64 in
    let signalled = dispatch_signals k.current_pid (record k { ticks = t }) in
    if t % timeslice == 0 then schedule signalled else signalled

-- `process::exit`, which then halts for good.
unfoldable pub exit : ℕ → Kernel → Kernel
exit code k = force_schedule (exit_current code k)
