-- ===== src/Process/Lives.antt =====
-- The life of a child from `process::fork` over `process::exit` to `process::waitpid`
-- (kernel/src/process/mod.rs).
use mathlib.Core.Option
use mathlib.Core.Path.{sym, ◌∙◌}
use compute_kernel.Common.{
  ℕ, ◌+◌, ◌^◌, ◌<◌, ◌≡◌, ◌≢◌, none, some, List, [], ◌∷◌, arith, ◌==◌, if◌then◌else◌, All,
  Option-cases, inl, inr, refl, ap, Bool-cases,
}
use compute_kernel.Process.{
  Process, Kernel, boot, init, zombie, fork, fork_child, exit_current, has_pid,
}
use compute_kernel.Process.Wait.{reaped, waitpid}
use compute_kernel.Process.Table.{lookup, lookup_pid}
use compute_kernel.Process.Pids.{
  Reach, reachable-IsValid, IsValid, fork-IsValid, exit_current-SamePids, SamePids-IsValid,
}
use compute_kernel.Process.Parents.{reachable-HasParents}
use compute_kernel.Process.Kept.{find-All}
use compute_kernel.Process.Lifecycle.{fork_lem, lookup-exit_current, after_exit, next_pid_unused}
use compute_kernel.Process.Reap.{waitpid_reaps}

-- The kernel with another process as the current one.
abbrev pub running_as : ℕ → Kernel → Kernel
running_as pid k = record k { current_pid = pid }

running_as-IsValid : (pid : ℕ) {k : Kernel} → IsValid k → IsValid (running_as pid k)
running_as-IsValid pid v = record { below = v.below; distinct = v.distinct; in_range = v.in_range }

-- The exit of a process leaves alone whoever is neither that process nor its child.
after_exit_other :
    (pid code : ℕ) (q : Process) → q.pid ≢ pid → q.parent_pid ≢ pid → after_exit pid code q ≡ q
after_exit_other pid code q h h' = ground (arith, h, h')

not_next :
    {k : Kernel} {p : Process} (i : ℕ) → IsValid k → lookup i k.table ≡ some p → i ≢ k.next_pid
not_next {k} i v found same =
    let unused = next_pid_unused v in let at_next = ap (λ x. lookup x k.table) same in cc

-- The child once it has exited.
abbrev pub ended_child : ℕ → ℕ → Process → Process
ended_child pid code p = record (fork_child pid p) { state = zombie; exit_code = code }

after_exit_child :
    (pid code : ℕ) (p : Process)
    → p.pid ≢ pid
    → after_exit pid code (fork_child pid p) ≡ ended_child pid code p
after_exit_child pid code p h = ground (arith, h)

-- What the table holds once the child of the current process has exited.
child_gone :
    (code i : ℕ) {k : Kernel} {p : Process}
    → IsValid k
    → lookup k.current_pid k.table ≡ some p
    → lookup i (exit_current code (running_as k.next_pid (fork k).1)).table ≡ (
        if k.next_pid == i
        then some (after_exit k.next_pid code (fork_child k.next_pid p))
        else Option.map (after_exit k.next_pid code) (lookup i k.table))
child_gone code i {k} {p} v found =
    let forked = (fork_lem i v found).2 in
    let ended = lookup-exit_current code (running_as k.next_pid (fork k).1) i in
    rw (ended, forked) (ground arith)

exit_current-IsValid : (code : ℕ) {k : Kernel} → IsValid k → IsValid (exit_current code k)
exit_current-IsValid code {k} v =
    SamePids-IsValid {k = k} {k' = exit_current code k} (exit_current-SamePids code k) v

-- The exit of the child leaves what the other PIDs find.
others_stay :
    (code i : ℕ) (k : Kernel)
    → All (λ q. q.parent_pid ≢ k.next_pid) k.table
    → i ≢ k.next_pid
    → Option.map (after_exit k.next_pid code) (lookup i k.table) ≡ lookup i k.table
others_stay code i k h other = elim (Option-cases (lookup i k.table)) [
  | inl gone ↦ rw gone refl
  | inr (q, found) ↦
      let parent = find-All (λ q. q.parent_pid ≢ k.next_pid) (has_pid i) k.table h found in
      let same =
        after_exit_other k.next_pid code q (λ e. other (◌∙◌ (sym (lookup_pid i k.table found)) e))
          parent in
      rw found (ap some same)
]

as_before :
    (code i : ℕ) {k : Kernel} {p : Process}
    → IsValid k
    → lookup k.current_pid k.table ≡ some p
    → All (λ q. q.parent_pid ≢ k.next_pid) k.table
    → (if k.next_pid == i
        then none
        else lookup i (exit_current code (running_as k.next_pid (fork k).1)).table)
      ≡ lookup i k.table
as_before code i {k} v found h = elim (Bool-cases (k.next_pid == i)) [
  | inl same ↦
      let e : k.next_pid ≡ i = ground (arith, same) in
      rw same (◌∙◌ (sym (next_pid_unused v)) (ap (λ x. lookup x k.table) e))
  | inr other ↦
      rw (other, child_gone code i v found, other)
        (others_stay code i k h (λ e. ground (arith, other, e)))
]

parents_differ :
    (n : ℕ) (t : List Process) → All (λ q. q.parent_pid < n) t → All (λ q. q.parent_pid ≢ n) t
parents_differ n [] h = tt
parents_differ n (q ∷ t) h = (omega (arith, h.0), parents_differ n t h.1)

reaped_as_before :
    (code : ℕ) (pauses : List ℕ) (i : ℕ) {k : Kernel} {p : Process}
    → IsValid k
    → k.next_pid + 1 < 2 ^ 32
    → lookup k.current_pid k.table ≡ some p
    → All (λ q. q.parent_pid ≢ k.next_pid) k.table
    → let (made, forked) = fork k in
      let ended = exit_current code (running_as k.next_pid forked) in
      let (result, k') = waitpid (some k.next_pid) pauses (running_as k.current_pid ended) in
      (made ≡ some k.next_pid)
      × (result ≡ reaped k.next_pid code)
      × (lookup i k'.table ≡ lookup i k.table)
reaped_as_before code pauses i {k} {p} v room found no_child =
    let c = k.next_pid in
    let made = (fork_lem i v found).0 in
    let p_pid = lookup_pid k.current_pid k.table found in
    let born = running_as-IsValid c (fork-IsValid {k = k} room v) in
    let ended = exit_current code (running_as c (fork k).1) in
    let valid =
      running_as-IsValid k.current_pid
        (exit_current-IsValid code {k = running_as c (fork k).1} born) in
    let other : k.current_pid ≢ c = not_next k.current_pid v found in
    let z = ended_child c code p in
    let dead : lookup c ended.table ≡ some z =
      rw (child_gone code c v found, after_exit_child c code p (λ e. other (◌∙◌ (sym p_pid) e)))
        (ground arith) in
    let (result, left) =
      waitpid_reaps c pauses {k = running_as k.current_pid ended} {z = z} i valid dead refl p_pid in
    (made, result, ◌∙◌ left (as_before code i v found no_child))

-- In every state that the kernel reaches from `process::init`, while the PID counter has not come
-- to its end, let the current process fork, its child become current and exit with a code, and the
-- parent, current again, wait for the PID that `fork` gave it. The wait returns at once with that
-- PID and the code, and then every PID finds in the table what it found before the fork.
pub fork-exit-waitpid :
    (code : ℕ) (pauses : List ℕ) (i : ℕ) {k : Kernel} {p : Process}
    → Reach (init boot) k
    → k.next_pid + 1 < 2 ^ 32
    → lookup k.current_pid k.table ≡ some p
    → let (made, forked) = fork k in
      let ended = exit_current code (running_as k.next_pid forked) in
      let (result, k') = waitpid made pauses (running_as k.current_pid ended) in
      (made ≡ some k.next_pid)
      × (result ≡ reaped k.next_pid code)
      × (lookup i k'.table ≡ lookup i k.table)
fork-exit-waitpid code pauses i {k} r room found =
    let v = reachable-IsValid r in
    let parents = parents_differ k.next_pid k.table (reachable-HasParents r).parents_taken in
    let (made, result, table) = reaped_as_before code pauses i v room found parents in
    rw made (refl, result, table)
