-- ===== src/Process/Pids.antt =====
-- The invariant of the process table and the counter NEXT_PID (kernel/src/process/mod.rs) under the
-- operations of kernel/src/process/.
use compute_kernel.Common.{
  ℕ, ◌+◌, ◌%◌, ◌^◌, ◌<◌, ◌≡◌, refl, Bool, Option, List, [], ◌∷◌, ◌++◌, arith, All, All-append,
  find?, Option-cases, Bool-cases, inl, inr, any,
}
use compute_kernel.Process.{
  Process, Kernel, boot, init, fork, execve, exit_current, update_pid, remove_first, rsplit_next,
  wait_round, has_pid, zombie, bump_pid, fork_child, is_child, is_exited_child,
}
use compute_kernel.Process.Signal.{kill, add_signal, deliver, dispatch_signals}
use compute_kernel.Process.Scheduler.{schedule, force_schedule, tick}
use compute_kernel.Process.Table.{
  pids, Distinct, pids-reparent, pids-update_pid, pids-append, remove_first-Below,
  remove_first-Distinct, Distinct-append,
}

-- Every PID in the table has been handed out, and no two processes share one.
pub record IsValid (k : Kernel) : Type 0 where
  pub below : All (λ x. x < k.next_pid) (pids k.table)
  pub distinct : Distinct (pids k.table)
  pub in_range : k.next_pid < 2 ^ 32

-- An operation that hands out no PID and keeps the PIDs of the table.
abbrev pub SamePids : Kernel → Kernel → Type 0
SamePids k k' = (k'.next_pid ≡ k.next_pid) × (pids k'.table ≡ pids k.table)

pub SamePids-IsValid : {k k' : Kernel} → SamePids k k' → IsValid k → IsValid k'
SamePids-IsValid {k} {k'} s v = record {
  below = rw (s.0, s.1) (v.below);
  distinct = rw (s.1) (v.distinct);
  in_range = rw (s.0) (v.in_range);
}

pub schedule-keeps :
    (k : Kernel) → ((schedule k).next_pid ≡ k.next_pid) × ((schedule k).table ≡ k.table)
unfolding schedule
schedule-keeps k = ground arith

pub pid-deliver : (p : Process) → (deliver p).pid ≡ p.pid
unfolding deliver
pid-deliver p = ground arith

pub tick-SamePids : (k : Kernel) → SamePids k (tick k)
unfolding tick dispatch_signals
tick-SamePids k = ground (
  arith,
  schedule-keeps (dispatch_signals k.current_pid (record k { ticks = (k.ticks + 1) % 2 ^ 64 })),
  pids-update_pid deliver pid-deliver k.current_pid k.table,
)

pub execve-SamePids : (path : List ℕ) (k : Kernel) → SamePids k (execve path k).1
unfolding execve
execve-SamePids path k = ground (
  arith,
  pids-update_pid (λ p. record p { name = rsplit_next path; pending_signals = 0 }) (λ p. refl)
      k.current_pid k.table,
)

pub exit_current-SamePids : (code : ℕ) (k : Kernel) → SamePids k (exit_current code k)
unfolding exit_current
exit_current-SamePids code k = ground (
  arith,
  pids-reparent k.current_pid
      (update_pid k.current_pid (λ p. record p { state = zombie; exit_code = code }) k.table),
  pids-update_pid (λ p. record p { state = zombie; exit_code = code }) (λ p. refl) k.current_pid
      k.table,
)

pub force_schedule-SamePids : (k : Kernel) → SamePids k (force_schedule k)
unfolding force_schedule
force_schedule-SamePids k = ground (arith, schedule-keeps k)

pub kill-SamePids : (pid sig : ℕ) (k : Kernel) → SamePids k (kill pid sig k).1
unfolding kill
kill-SamePids pid sig k = ground (arith, pids-update_pid (add_signal sig) (λ p. refl) pid k.table)

All-lt_suc : (n : ℕ) (xs : List ℕ) → All (λ x. x < n) xs → All (λ x. x < n + 1) xs
All-lt_suc n [] h = tt
All-lt_suc n (x ∷ xs) h = (omega (arith, h.0), All-lt_suc n xs h.1)

child-IsValid :
    {k : Kernel} (p : Process)
    → k.next_pid + 1 < 2 ^ 32
    → IsValid k
    → IsValid (record k {
      next_pid = bump_pid k.next_pid;
      table = k.table ++ (fork_child k.next_pid p ∷ []);
    })
child-IsValid {k} p room v =
    let bumped : bump_pid k.next_pid ≡ k.next_pid + 1 = omega arith in
    let below = All-lt_suc k.next_pid (pids k.table) v.below in
    let last : k.next_pid < k.next_pid + 1 = omega arith in
    record {
      below =
          rw (bumped, pids-append)
            (All-append (λ x. x < k.next_pid + 1) (pids k.table) (k.next_pid ∷ []) below
              (last, tt));
      distinct = rw pids-append (Distinct-append k.next_pid (pids k.table) v.below v.distinct);
      in_range = omega arith;
    }

pub fork-IsValid : {k : Kernel} → k.next_pid + 1 < 2 ^ 32 → IsValid k → IsValid (fork k).1
unfolding fork
fork-IsValid {k} room v = elim (Option-cases (find? (has_pid k.current_pid) k.table)) [
  | inl gone ↦ rw (gone, fork) v
  | inr (p, found) ↦ rw (found, fork) (child-IsValid p room v)
]

removed-IsValid :
    (f : Process → Bool) {k : Kernel}
    → IsValid k
    → IsValid (record k { table = remove_first f k.table })
removed-IsValid f {k} v = record {
  below = remove_first-Below k.next_pid f k.table v.below;
  distinct = remove_first-Distinct f k.table v.distinct;
  in_range = v.in_range;
}

wait_round-IsValid : (target : Option ℕ) {k : Kernel} → IsValid k → IsValid (wait_round target k).1
unfolding wait_round
wait_round-IsValid target {k} v =
    let exited_child = is_exited_child target k.current_pid in
    elim (Bool-cases (any (is_child target k.current_pid) k.table)) [
      | inl some_child ↦ elim (Option-cases (find? exited_child k.table)) [
        | inl waiting ↦ rw (some_child, waiting, wait_round) v
        | inr (p, found) ↦ rw (some_child, found, wait_round) (removed-IsValid exited_child v)
      ]
      | inr no_child ↦ rw (no_child, wait_round) v
    ]

-- One event in the life of the kernel: an operation of the current process, or the timer. `fork` is
-- taken while the PID counter has not come to its end, and an exit code is a 32-bit pattern. `exit`
-- lets interrupts in between its two parts, so they are two events.
pub data Step : Kernel → Kernel → Type 0 where
  forks : (k : Kernel) → k.next_pid + 1 < 2 ^ 32 → Step k (fork k).1
  execs : (k : Kernel) (path : List ℕ) → Step k (execve path k).1
  exits : (k : Kernel) (code : ℕ) → code < 2 ^ 32 → Step k (exit_current code k)
  switches : (k : Kernel) → Step k (force_schedule k)
  waits : (k : Kernel) (target : Option ℕ) → Step k (wait_round target k).1
  kills : (k : Kernel) (pid sig : ℕ) → Step k (kill pid sig k).1
  timer : (k : Kernel) → Step k (tick k)

pub data Reach (k : Kernel) : Kernel → Type 0 where
  here : Reach k k
  next : {k' k'' : Kernel} → Reach k k' → Step k' k'' → Reach k k''

Step-IsValid : {k k' : Kernel} → Step k k' → IsValid k → IsValid k'
Step-IsValid (forks k room) v = fork-IsValid room v
Step-IsValid (execs k path) v = SamePids-IsValid (execve-SamePids path k) v
Step-IsValid (exits k code fits) v = SamePids-IsValid (exit_current-SamePids code k) v
Step-IsValid (switches k) v = SamePids-IsValid (force_schedule-SamePids k) v
Step-IsValid (waits k target) v = wait_round-IsValid target v
Step-IsValid (kills k pid sig) v = SamePids-IsValid (kill-SamePids pid sig k) v
Step-IsValid (timer k) v = SamePids-IsValid (tick-SamePids k) v

Reach-IsValid : {k k' : Kernel} → Reach k k' → IsValid k → IsValid k'
Reach-IsValid here v = v
Reach-IsValid (next r s) v = Step-IsValid s (Reach-IsValid r v)

init-IsValid : IsValid (init boot)
unfolding init
init-IsValid = omega arith

-- In every state that the kernel reaches from `process::init` by forks (while the PID counter has
-- not come to its end), execs, exits, forced switches, rounds of waitpid, kills and timer
-- interrupts, no two processes have one PID, and every PID in the table is below NEXT_PID.
pub reachable-IsValid : {k : Kernel} → Reach (init boot) k → IsValid k
reachable-IsValid r = Reach-IsValid r init-IsValid
