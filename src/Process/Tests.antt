-- ===== src/Process/Tests.antt =====
-- The process component on concrete kernels: test runs of the operations of
-- kernel/src/process/{mod,scheduler,signal}.rs, and the theorems at the states they reach.
use compute_kernel.Common.{
  ℕ, true, ◌<◌, ◌≤◌, ◌≡◌, ◌≢◌, refl, none, some, [], ◌∷◌, codes, arith, All, nth_bit, length,
}
use compute_kernel.Process.{
  Process, Kernel, ready, zombie, normal, idle_process, boot, init, fork, fork_child, wait_round,
  new, update_pid, exit_current, rsplit_next, is_wanted, remove_first,
}
use compute_kernel.Process.Signal.{
  kill, dispatch_signals, deliver, terminating_sig, add_signal, sigkill,
}
use compute_kernel.Process.Scheduler.{schedule, start_slot, next_runnable, tick, exit}
use compute_kernel.Process.Wait.{waitpid, failed, reaped, ticks_pass}
use compute_kernel.Process.Table.{lookup}
use compute_kernel.Process.Pids.{IsValid, next, here, forks, kills, timer, reachable-IsValid}
use compute_kernel.Process.Ranges.{
  HasRanges, start, and_then, forks_any, steps, reachable-HasRanges,
}
use compute_kernel.Process.RoundRobin.{schedule-eq-find}
use compute_kernel.Process.Fairness.{schedule_times, schedule_fair}
use compute_kernel.Process.Lifecycle.{fork_lem, exit_lem}
use compute_kernel.Process.Lives.{running_as, fork-exit-waitpid}
use compute_kernel.Process.Reap.{wait_round_sound, waitpid_reaps}
use compute_kernel.Process.Delivery.{deliver_lem, kill-dispatch_fatal}

-- A process that `Process::new` makes, with a PID and a parent.
abbrev plain : ℕ → ℕ → Process
plain pid parent = record {
  pid = pid;
  parent_pid = parent;
  name = codes "sh";
  state = ready;
  priority = normal;
  kernel_rsp = 0;
  exit_code = 0;
  pending_signals = 0;
}

abbrev dead_child : Process
dead_child = record (plain 3 1) { state = zombie; exit_code = 7 }

-- Process 1 runs; 2 is its child, 3 an exited child.
abbrev demo : Kernel
demo = record {
  next_pid = 4;
  table = idle_process ∷ plain 1 0 ∷ plain 2 1 ∷ dead_child ∷ [];
  ticks = 0;
  current_pid = 1;
}

-- The same with process 2 running.
abbrev in_child : Kernel
in_child = record demo { current_pid = 2 }

demo-IsValid : IsValid demo
demo-IsValid = omega arith

boots_two : length (init boot).table ≡ 2
unfolding init new
boots_two = refl

forks_from_idle : (fork (init boot)).0 ≡ some 2
unfolding init new fork
forks_from_idle = refl

schedules_next : (schedule demo).current_pid ≡ 2
unfolding schedule start_slot next_runnable
schedules_next = refl

killed_at_tick :
    lookup 1 (tick (kill 1 9 demo).1).table
    ≡ some (record (plain 1 0) { state = zombie; exit_code = 137 })
unfolding tick kill dispatch_signals update_pid deliver terminating_sig
killed_at_tick = refl

path_name : rsplit_next (codes "/bin/sh") ≡ codes "sh"
unfolding rsplit_next
path_name = refl

reachable-IsValid_example : IsValid (tick (kill 1 9 (fork (init boot)).1).1)
reachable-IsValid_example = reachable-IsValid (
    next
      (next (next here (forks (init boot) (unfold init in unfold new in omega arith)))
        (kills (fork (init boot)).1 1 9))
      (timer (kill 1 9 (fork (init boot)).1).1))

reachable-HasRanges_example : HasRanges (tick (kill 1 9 (fork (init boot)).1).1)
reachable-HasRanges_example = reachable-HasRanges (
    and_then
      (and_then (and_then start (forks_any (init boot))) (steps (kills (fork (init boot)).1 1 9)))
      (steps (timer (kill 1 9 (fork (init boot)).1).1)))

schedule-eq-find_example : schedule demo ≡ in_child
unfolding start_slot
schedule-eq-find_example = schedule-eq-find demo

schedule_fair_example : (m : ℕ) × (0 < m) × (m ≤ 4) × ((schedule_times m demo).current_pid ≡ 0)
schedule_fair_example = schedule_fair 0 demo demo-IsValid refl refl

wait_round_sound_example :
    ((z : Process) × (lookup 3 demo.table ≡ some z)
      × (z.state ≡ zombie)
      × (z.parent_pid ≡ 1)
      × (z.exit_code ≡ 7)
      × (is_wanted none z ≡ true))
    × (lookup 2 (wait_round none demo).1.table ≡ some (plain 2 1))
wait_round_sound_example =
    wait_round_sound none {k = demo} {k' = (wait_round none demo).1} {pid = 3} {code = 7} 2
      demo-IsValid (unfold wait_round in unfold remove_first in refl)

fork_lem_example :
    let (result, k') = fork demo in
    (result ≡ some 4)
    × (lookup 4 demo.table ≡ none)
    × (lookup 4 k'.table ≡ some (fork_child 4 (plain 1 0)))
    × (k'.current_pid ≡ 1)
fork_lem_example = fork_lem 4 demo-IsValid refl

exit_lem_example :
    (lookup 2 (exit 5 in_child).table ≡ some (record (plain 2 1) { state = zombie; exit_code = 5 }))
    × All (λ q. q.parent_pid ≢ 2) (exit 5 in_child).table
exit_lem_example = exit_lem 5 in_child 2 (λ e. omega (arith, e))

deliver_lem_example :
    ((deliver (add_signal 15 (plain 2 1))).pending_signals ≡ 0)
    × ((deliver (add_signal 15 (plain 2 1))).state ≡ zombie)
    × ((deliver (add_signal 15 (plain 2 1))).exit_code ≡ 143)
unfolding nth_bit
deliver_lem_example = deliver_lem (add_signal 15 (plain 2 1))

waitpid_reaps_example :
    let (result, k') = waitpid (some 3) (5 ∷ 1 ∷ []) demo in
    (result ≡ reaped 3 7) × (lookup 2 k'.table ≡ some (plain 2 1))
waitpid_reaps_example = waitpid_reaps 3 (5 ∷ 1 ∷ []) 2 demo-IsValid refl refl refl

-- Process 1 waits for its only child 2 at tick 9. The next tick makes 2 the current process, in
-- whose name the next round asks: the call fails although the child is there.
abbrev before_switch : Kernel
before_switch = record {
  next_pid = 3;
  table = idle_process ∷ plain 1 0 ∷ plain 2 1 ∷ [];
  ticks = 9;
  current_pid = 1;
}

waits_as_another : (waitpid none (1 ∷ []) before_switch).0 ≡ failed
unfolding waitpid wait_round ticks_pass tick dispatch_signals update_pid deliver schedule start_slot
    next_runnable
waits_as_another = refl

kill-dispatch_fatal_example :
    lookup 2 (dispatch_signals 2 (kill 2 sigkill demo).1).table
    ≡ some (record (plain 2 1) { state = zombie; exit_code = 137; pending_signals = 0 })
kill-dispatch_fatal_example = kill-dispatch_fatal 2 demo refl

-- Process 2, the parent of 3, is killed by a signal at a tick and reaped by process 1. Its child
-- keeps it as its parent, so no process can wait for the child any more.
abbrev three_generations : Kernel
three_generations = record {
  next_pid = 4;
  table = plain 1 0 ∷ plain 2 1 ∷ plain 3 2 ∷ [];
  ticks = 0;
  current_pid = 2;
}

abbrev orphaned : Kernel
orphaned =
    (wait_round (some 2) (record (tick (kill 2 9 three_generations).1) { current_pid = 1 })).1

keeps_lost_parent : (lookup 3 orphaned.table ≡ some (plain 3 2)) × (lookup 2 orphaned.table ≡ none)
unfolding wait_round tick dispatch_signals update_pid deliver kill remove_first terminating_sig
keeps_lost_parent = (refl, refl)

fork-exit-waitpid_example :
    let k = tick (fork (init boot)).1 in
    let (made, forked) = fork k in
    let ended = exit_current 7 (running_as 3 forked) in
    let (result, k') = waitpid made (4 ∷ []) (running_as 0 ended) in
    (made ≡ some 3) × (result ≡ reaped 3 7) × (lookup 1 k'.table ≡ lookup 1 k.table)
unfolding tick fork exit_current waitpid init dispatch_signals update_pid deliver
fork-exit-waitpid_example =
    fork-exit-waitpid 7 (4 ∷ []) 1 {k = tick (fork (init boot)).1}
      (next (next here (forks (init boot) (unfold init in unfold new in omega arith)))
        (timer (fork (init boot)).1))
      (omega arith) refl
