-- ===== src/Process/Lifecycle.antt =====
-- What `process::fork`, `process::execve` and `process::exit` (kernel/src/process/mod.rs) do to the
-- process table, seen through lookups by PID.
use mathlib.Core.Option
use compute_kernel.Common.{
  ℕ, ◌<◌, ◌≡◌, refl, ◌≢◌, ◌⊎◌, inl, inr, none, some, List, [], ◌∷◌, ◌++◌, arith, ◌==◌,
  if◌then◌else◌, All, Option-cases, ap,
}
use compute_kernel.Process.{
  Process, Kernel, zombie, fork, fork_child, execve, exit_current, update_pid, reparent,
  rsplit_next, after_last_slash,
}
use compute_kernel.Process.Scheduler.{force_schedule, exit}
use compute_kernel.Process.Table.{
  lookup, pids, lookup_pid, lookup-append, lookup-reparent, lookup-update_pid, lookup_absent,
}
use compute_kernel.Process.Pids.{IsValid, schedule-keeps}

All-ne_of_lt : (n : ℕ) (xs : List ℕ) → All (λ x. x < n) xs → All (λ x. x ≢ n) xs
All-ne_of_lt n [] h = tt
All-ne_of_lt n (x ∷ xs) h = (omega (arith, h.0), All-ne_of_lt n xs h.1)

-- The next PID is not in use.
pub next_pid_unused : {k : Kernel} → IsValid k → lookup k.next_pid k.table ≡ none
next_pid_unused {k} v =
    lookup_absent k.next_pid k.table (All-ne_of_lt k.next_pid (pids k.table) v.below)

-- With the current process `p` in a table of unique PIDs that are all below NEXT_PID, a u32, `fork`
-- returns a PID that no process has;
-- afterwards that PID finds the child of `p` (ready, with no signal pending, `p` its parent), every
-- other PID finds what it found before, and the current process stays the same.
pub fork_lem :
    {k : Kernel} {p : Process} (i : ℕ)
    → IsValid k
    → lookup k.current_pid k.table ≡ some p
    → let (result, k') = fork k in
      (result ≡ some k.next_pid)
      × (lookup k.next_pid k.table ≡ none)
      × (lookup i k'.table
          ≡ (if k.next_pid == i then some (fork_child k.next_pid p) else lookup i k.table))
      × (k'.current_pid ≡ k.current_pid)
unfolding fork
fork_lem {k} {p} i v found =
    ground (arith, next_pid_unused v, lookup-append i k.table (fork_child k.next_pid p))

-- A process that is not in the table cannot fork: the call fails and changes nothing.
pub fork_orphan : (k : Kernel) → lookup k.current_pid k.table ≡ none → fork k ≡ (none, k)
unfolding fork
fork_orphan k gone = ground arith

after_last_slash_absent : (path : List ℕ) → after_last_slash path ≡ none → All (λ c. c ≢ b'/') path
unfolding after_last_slash
after_last_slash_absent [] h = tt
after_last_slash_absent (c ∷ cs) h = elim (Option-cases (after_last_slash cs)) [
  | inl deeper ↦ (ground arith, after_last_slash_absent cs deeper)
  | inr (name, deeper) ↦ absurd (ground arith)
]

-- What `after_last_slash` finds has no slash, and the path goes on with it behind one.
IsLastPart : List ℕ → List ℕ → Type 0
IsLastPart path name = All (λ c. c ≢ b'/') name × ((dir : List ℕ) × (path ≡ dir ++ (b'/' ∷ name)))

after_last_slash-IsLastPart :
    (path name : List ℕ) → after_last_slash path ≡ some name → IsLastPart path name
unfolding after_last_slash IsLastPart
after_last_slash-IsLastPart [] name h = cc
after_last_slash-IsLastPart (c ∷ cs) name h = elim (Option-cases (after_last_slash cs)) [
  | inl deeper ↦
      let here : (c ≡ b'/') × (cs ≡ name) = ground arith in
      (rw (← here.1) (after_last_slash_absent cs deeper), ([], rw (here.0, here.1)))
  | inr (deep, deeper) ↦
      let same : deep ≡ name = ground arith in
      let (clean, (dir, split)) = after_last_slash-IsLastPart cs deep deeper in
      (rw (← same) clean, (c ∷ dir, rw (← same) (ap (◌∷◌ c) split)))
]

-- The name that `execve` gives has no `/`; it is the whole path, or what stands behind a `/` of it.
rsplit_next_lem :
    (path : List ℕ)
    → All (λ c. c ≢ b'/') (rsplit_next path)
      × ((rsplit_next path ≡ path) ⊎ ((dir : List ℕ) × (path ≡ dir ++ (b'/' ∷ rsplit_next path))))
unfolding IsLastPart rsplit_next
rsplit_next_lem path = elim (Option-cases (after_last_slash path)) [
  | inl absent ↦ rw (absent, rsplit_next) (after_last_slash_absent path absent, inl refl)
  | inr (name, found) ↦
      let (clean, split) = after_last_slash-IsLastPart path name found in
      rw (found, rsplit_next) (clean, inr split)
]

-- `execve` renames the current process by the last component of the path and drops its pending
-- signals; every other process, the current PID and the rest of the process stay as they are.
execve_lem :
    (path : List ℕ) (k : Kernel) {p : Process} (i : ℕ)
    → lookup k.current_pid k.table ≡ some p
    → let (result, k') = execve path k in
      (result ≡ some tt)
      × (k'.current_pid ≡ k.current_pid)
      × (lookup i k'.table ≡ (
          if i == k.current_pid
          then some (record p { name = rsplit_next path; pending_signals = 0 })
          else lookup i k.table))
unfolding execve
execve_lem path k {p} i found = ground (
  arith,
  lookup-update_pid (λ p. record p { name = rsplit_next path; pending_signals = 0 }) (λ p. refl) i
      k.current_pid k.table,
)

-- What becomes of each process when the current one exits.
abbrev pub after_exit : ℕ → ℕ → Process → Process
after_exit current code p =
    let q = if p.pid == current then record p { state = zombie; exit_code = code } else p in
    if q.parent_pid == current then record q { parent_pid = 1 } else q

pub lookup-exit_current :
    (code : ℕ) (k : Kernel) (i : ℕ)
    → lookup i (exit_current code k).table
      ≡ Option.map (after_exit k.current_pid code) (lookup i k.table)
unfolding exit_current
lookup-exit_current code k i = elim (Option-cases (lookup i k.table)) [
  | inl gone ↦ ground (arith, marked, moved)
  | inr (p, found) ↦ ground (arith, marked, moved, lookup_pid i k.table {p = p})
]
  where
    mark : Process → Process
    mark p = record p { state = zombie; exit_code = code }

    marked :
        lookup i (update_pid k.current_pid mark k.table)
        ≡ (if i == k.current_pid then Option.map mark (lookup i k.table) else lookup i k.table)
    marked = lookup-update_pid mark (λ p. refl) i k.current_pid k.table

    moved :
        lookup i (reparent k.current_pid (update_pid k.current_pid mark k.table))
        ≡ Option.map
            (λ p. if p.parent_pid == k.current_pid then record p { parent_pid = 1 } else p)
            (lookup i (update_pid k.current_pid mark k.table))
    moved = lookup-reparent i k.current_pid (update_pid k.current_pid mark k.table)

orphaned : (pid : ℕ) (t : List Process) → pid ≢ 1 → All (λ q. q.parent_pid ≢ pid) (reparent pid t)
unfolding reparent
orphaned pid [] h = tt
orphaned pid (p ∷ t) h = (ground arith, orphaned pid t h)

-- When a process other than process 1 exits, every PID finds what it found before, with the
-- current process made a zombie that holds the exit code and its children handed to process 1; no
-- process is left with the current one as its parent.
pub exit_lem :
    (code : ℕ) (k : Kernel) (i : ℕ)
    → k.current_pid ≢ 1
    → let k' = exit code k in
      (lookup i k'.table ≡ Option.map (after_exit k.current_pid code) (lookup i k.table))
      × All (λ q. q.parent_pid ≢ k.current_pid) k'.table
unfolding exit force_schedule
exit_lem code k i h =
    rw ((schedule-keeps (exit_current code k)).1)
      (lookup-exit_current code k i, unfold exit_current in orphaned k.current_pid _ h)
