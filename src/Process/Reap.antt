-- ===== src/Process/Reap.antt =====
-- Waiting for children: one round of `process::waitpid` and its loop
-- (kernel/src/process/mod.rs), from both sides: what a reaped child was, and when one is reaped.
use native.Mathlib.Nat.{zero-add, suc-add}
use compute_kernel.Process.Scheduler.{tick}
use compute_kernel.Common.{
  zero, suc, ◌+◌, ◌↔◌, ℕ, ◌≡◌, refl, ◌≢◌, Bool, true, false, Option, none, some, List, [], ◌∷◌,
  arith, ◌==◌, if◌then◌else◌, find?, any, All, Option-cases, Bool-cases, inl, inr, find?_passes,
}
use compute_kernel.Process.{
  Process, Kernel, zombie, is_wanted, is_child, is_exited_child, WaitRound, no_child, exited,
  pending, wait_round, remove_first,
}
use compute_kernel.Process.Wait.{reaped, waitpid, ticks_pass}
use compute_kernel.Process.Table.{
  lookup, pids, Distinct, lookup-remove_first, find?-All, lookup_pid,
}
use compute_kernel.Process.Pids.{IsValid}

-- A search by a test that only one PID passes.
find?_of_lookup :
    (f : Process → Bool) (c : ℕ)
    → ((p : Process) → f p ≡ true → p.pid ≡ c)
    → (t : List Process) {z : Process} → lookup c t ≡ some z
    → f z ≡ true
    → find? f t ≡ some z
find?_of_lookup f c only [] h passes = cc
find?_of_lookup f c only (q ∷ t) {z} h passes = elim (Bool-cases (q.pid == c)) [
  | inl same ↦ let e : q ≡ z = ground arith in rw (e, passes)
  | inr other ↦
      let rest : lookup c t ≡ some z = ground arith in
      ground (arith, only q, find?_of_lookup f c only t rest passes)
]

any_of_lookup :
    (f : Process → Bool) (c : ℕ) (t : List Process) {z : Process}
    → lookup c t ≡ some z
    → f z ≡ true
    → any f t ≡ true
any_of_lookup f c [] h passes = cc
any_of_lookup f c (q ∷ t) {z} h passes = elim (Bool-cases (q.pid == c)) [
  | inl same ↦ let e : q ≡ z = ground arith in rw (e, passes)
  | inr other ↦ ground (arith, any_of_lookup f c t {z = z} (ground arith) passes)
]

-- In a table of unique PIDs, a search finds what the PID of its result finds.
lookup_of_find? :
    (f : Process → Bool) (t : List Process) {z : Process}
    → Distinct (pids t)
    → find? f t ≡ some z
    → lookup z.pid t ≡ some z
lookup_of_find? f [] d h = cc
lookup_of_find? f (q ∷ t) {z} d h = elim (Bool-cases (f q)) [
  | inl found ↦ let e : q ≡ z = ground arith in rw e (ground arith)
  | inr passed ↦
      let rest : find? f t ≡ some z = ground arith in
      ground (arith, lookup_of_find? f t d.1 rest, find?-All (λ x. x ≢ q.pid) f t d.0 rest)
]

-- A child `c` of the current process that is a zombie is reaped at once: the call returns its PID
-- and exit code, `c` leaves the table, and every other process stays.
pub wait_round_reaps :
    (c : ℕ) {k : Kernel} {z : Process} (i : ℕ)
    → IsValid k
    → lookup c k.table ≡ some z
    → z.state ≡ zombie
    → z.parent_pid ≡ k.current_pid
    → let (round, k') = wait_round (some c) k in
      (round ≡ exited c z.exit_code)
      × (lookup i k'.table ≡ (if c == i then none else lookup i k.table))
unfolding wait_round
wait_round_reaps c {k} {z} i v found dead child =
    let z_pid : z.pid ≡ c = lookup_pid c k.table found in
    let hit : find? (is_exited_child (some c) k.current_pid) k.table ≡ some z =
      find?_of_lookup (is_exited_child (some c) k.current_pid) c (λ p h. ground arith) k.table found
        (ground arith) in
    let some_child : any (is_child (some c) k.current_pid) k.table ≡ true =
      any_of_lookup (is_child (some c) k.current_pid) c k.table found (ground arith) in
    ground
      (arith, lookup-remove_first (is_exited_child (some c) k.current_pid) k.table v.distinct hit i)

-- What a round that reaps a child has found.
exited_inv :
    (target : Option ℕ) (k : Kernel) {k' : Kernel} {pid code : ℕ}
    → wait_round target k ≡ (exited pid code, k')
    → (z : Process) × (find? (is_exited_child target k.current_pid) k.table ≡ some z)
      × (z.pid ≡ pid)
      × (z.exit_code ≡ code)
      × (k'.table ≡ remove_first (is_exited_child target k.current_pid) k.table)
unfolding wait_round
exited_inv target k {k'} {pid} {code} e =
    elim (Option-cases (find? (is_exited_child target k.current_pid) k.table)) [
      | inl none_dead ↦ absurd (ground arith)
      | inr (z, found) ↦ (z, found, ground arith, ground arith, ground arith)
    ]

exited_child_facts :
    (target : Option ℕ) (current : ℕ) (z : Process)
    → is_exited_child target current z ≡ true
    → (z.state ≡ zombie) × (z.parent_pid ≡ current) × (is_wanted target z ≡ true)
exited_child_facts target current z h = ground arith

-- Whatever a round reaps was a zombie child of the current process, under the PID asked for if one
-- was, and holds the exit code returned; it leaves the table and every other process stays.
pub wait_round_sound :
    (target : Option ℕ) {k k' : Kernel} {pid code : ℕ} (i : ℕ)
    → IsValid k
    → wait_round target k ≡ (exited pid code, k')
    → ((z : Process) × (lookup pid k.table ≡ some z)
        × (z.state ≡ zombie)
        × (z.parent_pid ≡ k.current_pid)
        × (z.exit_code ≡ code)
        × (is_wanted target z ≡ true))
      × (lookup i k'.table ≡ (if pid == i then none else lookup i k.table))
unfolding wait_round
wait_round_sound target {k} {k'} {pid} {code} i v e =
    let (z, found, z_pid, z_code, removed) = exited_inv target k e in
    let exited_child = is_exited_child target k.current_pid in
    let facts =
      exited_child_facts target k.current_pid z (find?_passes exited_child k.table found) in
    (
      (
        z,
        rw (← z_pid) (lookup_of_find? exited_child k.table v.distinct found),
        facts.0,
        facts.1,
        z_code,
        facts.2,
      ),
      rw (removed, ← z_pid) (lookup-remove_first exited_child k.table v.distinct found i),
    )

any-false : (f : Process → Bool) (t : List Process) → any f t ≡ false → All (λ p. f p ≡ false) t
any-false f [] h = tt
any-false f (p ∷ t) h = elim (Bool-cases (f p)) [
  | inl passes ↦ absurd (ground arith)
  | inr fails ↦ (fails, any-false f t (ground arith))
]

none_passes : (f : Process → Bool) (t : List Process) → All (λ p. f p ≡ false) t → any f t ≡ false
none_passes f [] h = refl
none_passes f (p ∷ t) h = ground (arith, none_passes f t h.1)

-- A round fails with "no child" exactly when no process of the table is a child of the current
-- process that is asked for.
wait_round_no_child :
    (target : Option ℕ) (k : Kernel)
    → (wait_round target k ≡ (no_child, k))
      ↔ All (λ p. is_child target k.current_pid p ≡ false) k.table
unfolding wait_round
wait_round_no_child target k = (
  λ e. any-false (is_child target k.current_pid) k.table (ground arith),
  λ h. rw (none_passes (is_child target k.current_pid) k.table h),
)

ticks_pass-add : (m n : ℕ) (k : Kernel) → ticks_pass n (ticks_pass m k) ≡ ticks_pass (m + n) k
unfolding ticks_pass
ticks_pass-add zero n k = rw zero-add
ticks_pass-add (suc m) n k = rw suc-add (ticks_pass-add m n (tick k))

-- A call of `waitpid` that reaps a child does so by a round that runs after some number of timer
-- interrupts, with the PID, the exit code and the state of that round.
waitpid_sound :
    (target : Option ℕ) (pauses : List ℕ) (k : Kernel) {k' : Kernel} {pid code : ℕ}
    → waitpid target pauses k ≡ (reaped pid code, k')
    → (m : ℕ) × (wait_round target (ticks_pass m k) ≡ (exited pid code, k'))
unfolding waitpid
waitpid_sound target [] k {k'} {pid} {code} e =
    (0, unfold ticks_pass in waitpid_end (wait_round target k).0 refl)
  where
    waitpid_end :
        (r : WaitRound) → (wait_round target k).0 ≡ r → wait_round target k ≡ (exited pid code, k')
    waitpid_end no_child q = absurd (ground arith)
    waitpid_end (exited a b) q = ground arith
    waitpid_end pending q = absurd (ground arith)
waitpid_sound target (pause ∷ pauses) k {k'} {pid} {code} e =
    go (wait_round target k).0 refl (waitpid_sound target pauses (ticks_pass pause k))
  where
    go :
        (r : WaitRound)
        → (wait_round target k).0 ≡ r
        → ((waitpid target pauses (ticks_pass pause k) ≡ (reaped pid code, k'))
            → (m : ℕ) × (wait_round target (ticks_pass m (ticks_pass pause k))
                ≡ (exited pid code, k')))
        → (m : ℕ) × (wait_round target (ticks_pass m k) ≡ (exited pid code, k'))
    go no_child q later = absurd (ground arith)
    go (exited a b) q later = (0, unfold ticks_pass in ground arith)
    go pending q later =
        let (m, found) = later (ground arith) in (pause + m, rw (← ticks_pass-add pause m k) found)

waitpid_first :
    (target : Option ℕ) (pauses : List ℕ) (k : Kernel) {pid code : ℕ}
    → (wait_round target k).0 ≡ exited pid code
    → waitpid target pauses k ≡ (reaped pid code, (wait_round target k).1)
unfolding waitpid
waitpid_first target [] k e = ground arith
waitpid_first target (pause ∷ pauses) k e = ground arith

-- Called for a zombie child `c` of the current process, `waitpid` returns without waiting, whatever
-- comes later: it gives the PID and exit code of `c`, which leaves the table; every other process
-- stays.
pub waitpid_reaps :
    (c : ℕ) (pauses : List ℕ) {k : Kernel} {z : Process} (i : ℕ)
    → IsValid k
    → lookup c k.table ≡ some z
    → z.state ≡ zombie
    → z.parent_pid ≡ k.current_pid
    → let (result, k') = waitpid (some c) pauses k in
      (result ≡ reaped c z.exit_code)
      × (lookup i k'.table ≡ (if c == i then none else lookup i k.table))
waitpid_reaps c pauses {k} {z} i v found dead child =
    let (round, others) = wait_round_reaps c {k = k} {z = z} i v found dead child in
    rw (waitpid_first (some c) pauses k round) (refl, others)
