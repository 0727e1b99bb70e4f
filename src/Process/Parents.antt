-- ===== src/Process/Parents.antt =====
-- The parents' PIDs of the process table (kernel/src/process/mod.rs): each has been handed out.
use compute_kernel.Common.{
  ℕ, ◌+◌, ◌<◌, ◌%◌, ◌^◌, ◌==◌, ◌≡◌, refl, Option, List, [], ◌∷◌, arith, All, All-append, find?,
  Option-cases, Bool-cases, inl, inr, any, ltb,
}
use compute_kernel.Process.{
  Process, Kernel, boot, init, new, fork, execve, exit_current, update_pid, rsplit_next, wait_round,
  has_pid, zombie, bump_pid, fork_child, is_child, is_exited_child,
}
use compute_kernel.Process.Signal.{kill, add_signal, deliver, dispatch_signals}
use compute_kernel.Process.Scheduler.{force_schedule, tick, timeslice}
use compute_kernel.Process.Table.{find?-All}
use compute_kernel.Process.Kept.{update_pid-All, remove_first-All, reparent-All}
use compute_kernel.Process.Pids.{
  IsValid, schedule-keeps, Step, forks, execs, exits, switches, waits, kills, timer, Reach, here,
  next, reachable-IsValid, SamePids, tick-SamePids, execve-SamePids, exit_current-SamePids,
  kill-SamePids, force_schedule-SamePids,
}

-- The PIDs below the next one are those handed out; 1 is the PID that orphans are handed to.
pub record HasParents (k : Kernel) : Type 0 where
  pub one_taken : 1 < k.next_pid
  pub parents_taken : All (λ q. q.parent_pid < k.next_pid) k.table

-- An operation that hands out no PID, for which the parents of the new table are taken.
kept :
    {k k' : Kernel}
    → SamePids k k'
    → All (λ q. q.parent_pid < k.next_pid) k'.table
    → HasParents k
    → HasParents k'
kept same taken h = record {
  one_taken = rw (same.0) (h.one_taken);
  parents_taken = rw (same.0) taken;
}

module _ (n : ℕ) where
  abbrev IsBelow : Process → Type 0
  IsBelow q = q.parent_pid < n

  updated :
      (pid : ℕ) (f : Process → Process)
      → ((p : Process) → (f p).parent_pid ≡ p.parent_pid)
      → (t : List Process) → All IsBelow t
      → All IsBelow (update_pid pid f t)
  updated pid f same t h = update_pid-All IsBelow f (λ p v. rw (same p) v) pid t h

  deliver-parent : (p : Process) → (deliver p).parent_pid ≡ p.parent_pid
  unfolding deliver
  deliver-parent p = ground arith

  tick-IsBelow : (k : Kernel) → All IsBelow k.table → All IsBelow (tick k).table
  unfolding tick dispatch_signals
  tick-IsBelow k h =
      let t = (k.ticks + 1) % 2 ^ 64 in
      let signalled = dispatch_signals k.current_pid (record k { ticks = t }) in
      let delivered = updated k.current_pid deliver deliver-parent k.table h in
      elim (Bool-cases (t % timeslice == 0)) [
        | inl due ↦ rw (due, (schedule-keeps signalled).1) delivered
        | inr early ↦ rw early delivered
      ]

  execve-IsBelow :
      (path : List ℕ) (k : Kernel) → All IsBelow k.table → All IsBelow (execve path k).1.table
  unfolding execve
  execve-IsBelow path k h = elim (Option-cases (find? (has_pid k.current_pid) k.table)) [
    | inl gone ↦ rw (gone, execve) h
    | inr (p, found) ↦
        rw (found, execve)
          (updated k.current_pid (λ p. record p { name = rsplit_next path; pending_signals = 0 })
            (λ p. refl) k.table h)
  ]

  exit_current-IsBelow :
      (code : ℕ) (k : Kernel)
      → 1 < n
      → All IsBelow k.table
      → All IsBelow (exit_current code k).table
  unfolding exit_current
  exit_current-IsBelow code k one h =
      reparent-All IsBelow (λ p v. one) k.current_pid _
        (updated k.current_pid (λ p. record p { state = zombie; exit_code = code }) (λ p. refl)
          k.table h)

  kill-IsBelow :
      (pid sig : ℕ) (k : Kernel) → All IsBelow k.table → All IsBelow (kill pid sig k).1.table
  unfolding kill
  kill-IsBelow pid sig k h =
      let marked = updated pid (add_signal sig) (λ p. refl) k.table h in
      elim (Bool-cases (ltb 31 sig)) [
        | inl too_big ↦ rw (too_big, kill) h
        | inr small ↦ elim (Option-cases (find? (has_pid pid) k.table)) [
          | inl gone ↦ rw (small, gone, kill) h
          | inr (p, found) ↦ elim (Bool-cases (sig == 0)) [
            | inl probe ↦ rw (small, found, probe, kill) h
            | inr real ↦ rw (small, found, real, kill) marked
          ]
        ]
      ]

  wait_round-IsBelow :
      (target : Option ℕ) (k : Kernel)
      → All IsBelow k.table
      → All IsBelow (wait_round target k).1.table
  unfolding wait_round
  wait_round-IsBelow target k h =
      let exited_child = is_exited_child target k.current_pid in
      let left = remove_first-All IsBelow exited_child k.table h in
      elim (Bool-cases (any (is_child target k.current_pid) k.table)) [
        | inl some_child ↦ elim (Option-cases (find? exited_child k.table)) [
          | inl none_yet ↦ rw (some_child, none_yet, wait_round) h
          | inr (p, found) ↦ rw (some_child, found, wait_round) left
        ]
        | inr childless ↦ rw (childless, wait_round) h
      ]

wait_round-next : (target : Option ℕ) (k : Kernel) → (wait_round target k).1.next_pid ≡ k.next_pid
unfolding wait_round
wait_round-next target k = ground arith

wait_round-HasParents :
    (target : Option ℕ) {k : Kernel} → HasParents k → HasParents (wait_round target k).1
wait_round-HasParents target {k} h =
    let n_same = wait_round-next target k in
    record {
      one_taken = rw n_same (h.one_taken);
      parents_taken = rw n_same (wait_round-IsBelow k.next_pid target k h.parents_taken);
    }

All-IsBelow_suc : (n : ℕ) (t : List Process) → All (IsBelow n) t → All (IsBelow (n + 1)) t
All-IsBelow_suc n [] h = tt
All-IsBelow_suc n (p ∷ t) h = (omega (arith, h.0), All-IsBelow_suc n t h.1)

fork-HasParents :
    {k : Kernel} → k.next_pid + 1 < 2 ^ 32 → IsValid k → HasParents k → HasParents (fork k).1
unfolding fork
fork-HasParents {k} room v h = elim (Option-cases (find? (has_pid k.current_pid) k.table)) [
  | inl gone ↦ rw (gone, fork) h
  | inr (p, found) ↦
      let bumped : bump_pid k.next_pid ≡ k.next_pid + 1 = omega arith in
      let taken : p.pid < k.next_pid =
        find?-All (λ x. x < k.next_pid) (has_pid k.current_pid) k.table v.below found in
      rw (found, fork)
        (record {
          one_taken = omega (arith, h.one_taken);
          parents_taken = rw bumped (
              All-append (IsBelow (k.next_pid + 1)) k.table (fork_child k.next_pid p ∷ [])
                (All-IsBelow_suc k.next_pid k.table h.parents_taken) (omega (arith, taken), tt));
        })
]

Step-HasParents : {k k' : Kernel} → Step k k' → IsValid k → HasParents k → HasParents k'
unfolding force_schedule
Step-HasParents (forks k room) v h = fork-HasParents room v h
Step-HasParents (execs k path) v h =
    kept (execve-SamePids path k) (execve-IsBelow k.next_pid path k h.parents_taken) h
Step-HasParents (exits k code fits) v h =
    kept (exit_current-SamePids code k)
      (exit_current-IsBelow k.next_pid code k h.one_taken h.parents_taken) h
Step-HasParents (switches k) v h =
    kept (force_schedule-SamePids k) (rw ((schedule-keeps k).1) (h.parents_taken)) h
Step-HasParents (waits k target) v h = wait_round-HasParents target h
Step-HasParents (kills k pid sig) v h =
    kept (kill-SamePids pid sig k) (kill-IsBelow k.next_pid pid sig k h.parents_taken) h
Step-HasParents (timer k) v h = kept (tick-SamePids k) (tick-IsBelow k.next_pid k h.parents_taken) h

init-HasParents : HasParents (init boot)
unfolding init new
init-HasParents = ground arith

-- In every state that the kernel reaches from `process::init`, each parent's PID in the table has
-- been handed out, as PID 1 has.
pub reachable-HasParents : {k : Kernel} → Reach (init boot) k → HasParents k
reachable-HasParents here = init-HasParents
reachable-HasParents (next r s) = Step-HasParents s (reachable-IsValid r) (reachable-HasParents r)
