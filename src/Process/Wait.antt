-- ===== src/Process/Wait.antt =====
-- `process::waitpid`: the loop around `wait_round`. A round that finds no exited child halts the
-- CPU until an interrupt; `pauses` says how many timer interrupts come before each next round.
use compute_kernel.Common.{ℕ, zero, suc, Option, List, [], ◌∷◌}
use compute_kernel.Process.{Kernel, no_child, exited, pending, wait_round}
use compute_kernel.Process.Scheduler.{tick}

-- `n` timer interrupts.
unfoldable pub ticks_pass : ℕ → Kernel → Kernel
ticks_pass zero k = k
ticks_pass (suc n) k = ticks_pass n (tick k)

-- What a caller sees: the error, the PID and exit code of a child, or that it still waits when the
-- pauses given are used up.
pub data WaitResult : Type 0 where
  failed : WaitResult
  reaped : ℕ → ℕ → WaitResult
  waiting : WaitResult

unfoldable pub waitpid : Option ℕ → List ℕ → Kernel → WaitResult × Kernel
waitpid target [] k = elim (wait_round target k).0 [
  | no_child ↦ (failed, k)
  | exited pid code ↦ (reaped pid code, (wait_round target k).1)
  | pending ↦ (waiting, k)
]
waitpid target (pause ∷ pauses) k =
    let later = waitpid target pauses (ticks_pass pause k) in
    elim (wait_round target k).0 [
      | no_child ↦ (failed, k)
      | exited pid code ↦ (reaped pid code, (wait_round target k).1)
      | pending ↦ later
    ]
