-- ===== src/Process/Ranges.antt =====
-- The integers of the process state stay within their types (kernel/src/process/mod.rs and
-- scheduler.rs: u32 for PIDs and pending signals, i32 patterns for exit codes, u64 for ticks and stack
-- pointers).
use compute_kernel.Common.{
  ℕ, zero, suc, ◌==◌, if◌then◌else◌, ◌+◌, ◌%◌, ◌^◌, ◌<◌, ◌≤◌, ◌≡◌, Bool, Option, some, List, [],
  ◌∷◌, arith, All, All-append, find?, Option-cases, Bool-cases, inl, inr, any, ltb, true, false,
  length, get_elem?, All-get_elem?, bit_or-lt,
}
use native.Mathlib.Nat.{pow-le-pow_right}
use compute_kernel.Process.{
  Process, Kernel, boot, init, new, fork, execve, exit_current, update_pid, remove_first,
  rsplit_next, reparent, wait_round, has_pid, zombie, bump_pid, fork_child, is_child,
  is_exited_child,
}
use compute_kernel.Process.Signal.{kill, add_signal, deliver, dispatch_signals, terminating_sig}
use compute_kernel.Process.Scheduler.{
  timeslice, schedule, force_schedule, tick, next_runnable, start_slot,
}
use compute_kernel.Process.Kept.{update_pid-All, remove_first-All, reparent-All, find-All}
use compute_kernel.Process.Pids.{Step, forks, execs, exits, switches, waits, kills, timer}

pub record IsTyped (p : Process) : Type 0 where
  pub pid_fits : p.pid < 2 ^ 32
  pub parent_fits : p.parent_pid < 2 ^ 32
  pub rsp_fits : p.kernel_rsp < 2 ^ 64
  pub code_fits : p.exit_code < 2 ^ 32
  pub signals_fit : p.pending_signals < 2 ^ 32

pub record HasRanges (k : Kernel) : Type 0 where
  pub next_fits : k.next_pid < 2 ^ 32
  pub ticks_fit : k.ticks < 2 ^ 64
  pub current_fits : k.current_pid < 2 ^ 32
  pub table_typed : All IsTyped k.table

next_runnable-fits :
    (t : List Process) (start i n : ℕ) {pid : ℕ}
    → All IsTyped t
    → next_runnable t start i n ≡ some pid
    → pid < 2 ^ 32
unfolding next_runnable
next_runnable-fits t start i zero h e = cc
next_runnable-fits t start i (suc n) {pid} h e =
    let slot = get_elem? t ((start + i) % length t) in
    elim (Option-cases slot) [
      | inl gone ↦ ground (arith, gone)
      | inr (p, at) ↦
          let fits = (All-get_elem? IsTyped t ((start + i) % length t) h at).pid_fits in
          ground (arith, at, fits, next_runnable-fits t start (i + 1) n {pid = pid} h)
    ]

bump-fits : (n : ℕ) → bump_pid n < 2 ^ 32
bump-fits n = omega arith

schedule-HasRanges : {k : Kernel} → HasRanges k → HasRanges (schedule k)
unfolding schedule
schedule-HasRanges {k} r = elim (Bool-cases (length k.table == 0)) [
  | inl empty ↦
      rw (empty, schedule)
        (record {
          next_fits = r.next_fits;
          ticks_fit = r.ticks_fit;
          current_fits = omega arith;
          table_typed = r.table_typed;
        })
  | inr some_process ↦
      let start = start_slot k.current_pid k.table in
      elim (Option-cases (next_runnable k.table start 1 (length k.table))) [
        | inl nothing ↦ rw (some_process, nothing, schedule) r
        | inr (pid, found) ↦
            rw (some_process, found, schedule)
              (record {
                next_fits = r.next_fits;
                ticks_fit = r.ticks_fit;
                current_fits =
                    next_runnable-fits k.table start 1 (length k.table) (r.table_typed) found;
                table_typed = r.table_typed;
              })
      ]
]

either : (b : Bool) {x y : Kernel} → HasRanges x → HasRanges y → HasRanges (if b then x else y)
either true r r' = r
either false r r' = r'

-- A new table of processes that are in range.
with_table :
    {k : Kernel} (t : List Process)
    → HasRanges k
    → All IsTyped t
    → HasRanges (record k { table = t })
with_table t r h = record {
  next_fits = r.next_fits;
  ticks_fit = r.ticks_fit;
  current_fits = r.current_fits;
  table_typed = h;
}

updated :
    {k : Kernel} (pid : ℕ) (f : Process → Process)
    → ((p : Process) → IsTyped p → IsTyped (f p))
    → HasRanges k
    → HasRanges (record k { table = update_pid pid f k.table })
updated {k} pid f keeps r =
    with_table (update_pid pid f k.table) r
      (update_pid-All IsTyped f keeps pid k.table r.table_typed)

deliver-IsTyped : (p : Process) → IsTyped p → IsTyped (deliver p)
unfolding deliver terminating_sig
deliver-IsTyped p h = ground arith

dispatch_signals-HasRanges :
    (pid : ℕ) {k : Kernel} → HasRanges k → HasRanges (dispatch_signals pid k)
unfolding dispatch_signals
dispatch_signals-HasRanges pid r = updated pid deliver deliver-IsTyped r

tick-HasRanges : {k : Kernel} → HasRanges k → HasRanges (tick k)
unfolding tick
tick-HasRanges {k} r =
    let t = (k.ticks + 1) % 2 ^ 64 in
    let later : HasRanges (record k { ticks = t }) = record {
      next_fits = r.next_fits;
      ticks_fit = omega arith;
      current_fits = r.current_fits;
      table_typed = r.table_typed;
    } in
    let signalled = dispatch_signals-HasRanges k.current_pid later in
    either (t % timeslice == 0) (schedule-HasRanges signalled) signalled

add_signal-IsTyped : (sig : ℕ) → sig ≤ 31 → (p : Process) → IsTyped p → IsTyped (add_signal sig p)
add_signal-IsTyped sig h p v = record {
  pid_fits = v.pid_fits;
  parent_fits = v.parent_fits;
  rsp_fits = v.rsp_fits;
  code_fits = v.code_fits;
  signals_fit =
      let power : 2 ^ sig ≤ 2 ^ 31 = pow-le-pow_right (omega arith) h in
      bit_or-lt 32 p.pending_signals (2 ^ sig) v.signals_fit (omega (arith, power));
}

kill-HasRanges : (pid sig : ℕ) {k : Kernel} → HasRanges k → HasRanges (kill pid sig k).1
unfolding kill
kill-HasRanges pid sig {k} r = elim (Bool-cases (ltb 31 sig)) [
  | inl too_big ↦ rw (too_big, kill) r
  | inr small ↦ elim (Option-cases (find? (has_pid pid) k.table)) [
    | inl gone ↦ rw (small, gone, kill) r
    | inr (p, found) ↦
        rw (small, found, kill)
          (either (sig == 0) r
            (updated pid (add_signal sig) (add_signal-IsTyped sig (ground (arith, small))) r))
  ]
]

exit_current-HasRanges :
    (code : ℕ) {k : Kernel} → code < 2 ^ 32 → HasRanges k → HasRanges (exit_current code k)
unfolding exit_current
exit_current-HasRanges code {k} h r =
    let ended = λ (p : Process). record p { state = zombie; exit_code = code } in
    let t = update_pid k.current_pid ended k.table in
    with_table (reparent k.current_pid t) r (
      reparent-All IsTyped (λ p v. ground (arith, v)) k.current_pid t
        (update_pid-All IsTyped ended (λ p v. ground (arith, v, h)) k.current_pid k.table
          r.table_typed))

child-IsTyped : (pid : ℕ) (p : Process) → pid < 2 ^ 32 → IsTyped p → IsTyped (fork_child pid p)
child-IsTyped pid p h v = ground arith

fork-HasRanges : {k : Kernel} → HasRanges k → HasRanges (fork k).1
unfolding fork
fork-HasRanges {k} r = elim (Option-cases (find? (has_pid k.current_pid) k.table)) [
  | inl gone ↦ rw (gone, fork) r
  | inr (p, found) ↦
      let parent = find-All IsTyped (has_pid k.current_pid) k.table r.table_typed found in
      rw (found, fork)
        (record {
          next_fits = bump-fits k.next_pid;
          ticks_fit = r.ticks_fit;
          current_fits = r.current_fits;
          table_typed =
              All-append IsTyped k.table (fork_child k.next_pid p ∷ []) r.table_typed
                (child-IsTyped k.next_pid p r.next_fits parent, tt);
        })
]

execve-HasRanges : (path : List ℕ) {k : Kernel} → HasRanges k → HasRanges (execve path k).1
unfolding execve
execve-HasRanges path {k} r = elim (Option-cases (find? (has_pid k.current_pid) k.table)) [
  | inl gone ↦ rw (gone, execve) r
  | inr (p, found) ↦
      rw (found, execve)
        (updated k.current_pid (λ p. record p { name = rsplit_next path; pending_signals = 0 })
          (λ p v. ground (arith, v)) r)
]

wait_round-HasRanges :
    (target : Option ℕ) {k : Kernel} → HasRanges k → HasRanges (wait_round target k).1
unfolding wait_round
wait_round-HasRanges target {k} r =
    let exited_child = is_exited_child target k.current_pid in
    elim (Bool-cases (any (is_child target k.current_pid) k.table)) [
      | inl some_child ↦ elim (Option-cases (find? exited_child k.table)) [
        | inl none_yet ↦ rw (some_child, none_yet, wait_round) r
        | inr (p, found) ↦
            rw (some_child, found, wait_round)
              (with_table (remove_first exited_child k.table) r
                (remove_first-All IsTyped exited_child k.table r.table_typed))
      ]
      | inr childless ↦ rw (childless, wait_round) r
    ]

Step-HasRanges : {k k' : Kernel} → Step k k' → HasRanges k → HasRanges k'
unfolding force_schedule
Step-HasRanges (forks k room) r = fork-HasRanges r
Step-HasRanges (execs k path) r = execve-HasRanges path r
Step-HasRanges (exits k code fits) r = exit_current-HasRanges code fits r
Step-HasRanges (switches k) r = schedule-HasRanges r
Step-HasRanges (waits k target) r = wait_round-HasRanges target r
Step-HasRanges (kills k pid sig) r = kill-HasRanges pid sig r
Step-HasRanges (timer k) r = tick-HasRanges r

init-HasRanges : HasRanges (init boot)
unfolding init new
init-HasRanges = ground arith

-- The operations with `fork` at any PID counter, NEXT_PID at the end of u32 included.
pub data Event : Kernel → Kernel → Type 0 where
  forks_any : (k : Kernel) → Event k (fork k).1
  steps : {k k' : Kernel} → Step k k' → Event k k'

pub data Runs (k : Kernel) : Kernel → Type 0 where
  start : Runs k k
  and_then : {k' k'' : Kernel} → Runs k k' → Event k' k'' → Runs k k''

Event-HasRanges : {k k' : Kernel} → Event k k' → HasRanges k → HasRanges k'
Event-HasRanges (forks_any k) r = fork-HasRanges r
Event-HasRanges (steps s) r = Step-HasRanges s r

-- In every state that the kernel reaches from `process::init` by forks (at any NEXT_PID, the last u32
-- included), execs, exits with 32-bit codes, forced switches, rounds of waitpid, kills and timer
-- interrupts, the PIDs, parents' PIDs and pending signals of the table, NEXT_PID and CURRENT_PID are
-- u32, exit codes are 32-bit patterns, and ticks and stack pointers are u64.
pub reachable-HasRanges : {k : Kernel} → Runs (init boot) k → HasRanges k
reachable-HasRanges start = init-HasRanges
reachable-HasRanges (and_then r s) = Event-HasRanges s (reachable-HasRanges r)
