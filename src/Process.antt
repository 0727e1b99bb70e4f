-- ===== src/Process.antt =====
-- Process management: kernel/src/process/mod.rs (the process control block, the process table and
-- its operations), over the state that mod.rs and scheduler.rs keep in statics. A function that
-- changes a static returns the new state.
--
-- Names and paths are byte strings. An `i32` exit code is its 32-bit pattern. The lines written to
-- the serial log are left out: they return nothing to the code. Each operation runs with interrupts
-- off and holds the table's lock, so it is one step of the model.
pub mod Signal
pub mod Scheduler
pub mod Wait
pub mod Table
pub mod Pids
pub mod Kept
pub mod Ranges
pub mod Parents
pub mod Lifecycle
pub mod Reap
pub mod Lives
pub mod Delivery
pub mod RoundRobin
pub mod Fairness
mod Tests
use compute_kernel.Common.{
  ℕ, ◌+◌, ◌%◌, ◌^◌, Bool, true, false, ◌&&◌, Option, none, some, List, [], ◌∷◌, ◌++◌, ◌==◌,
  if◌then◌else◌, codes, find?, any,
}

pub data ProcessState : Type 0 where
  ready running blocked zombie : ProcessState

-- `p.state == ProcessState::Zombie`.
abbrev pub is_zombie_state : ProcessState → Bool
is_zombie_state zombie = true
is_zombie_state _ = false

pub data Priority : Type 0 where
  idle low normal high real_time : Priority

pub record Process : Type 0 where
  pub pid : ℕ
  pub parent_pid : ℕ
  pub name : List ℕ
  pub state : ProcessState
  pub priority : Priority
  pub kernel_rsp : ℕ
  pub exit_code : ℕ
  pub pending_signals : ℕ

-- The statics NEXT_PID, PROCESS_TABLE, TICK and CURRENT_PID.
pub record Kernel : Type 0 where
  pub next_pid : ℕ
  pub table : List Process
  pub ticks : ℕ
  pub current_pid : ℕ

-- The values that the statics are initialised with.
abbrev pub boot : Kernel
boot = record { next_pid = 1; table = []; ticks = 0; current_pid = 0 }

-- `NEXT_PID.fetch_add(1)` on an AtomicU32 wraps.
abbrev pub bump_pid : ℕ → ℕ
bump_pid n = (n + 1) % 2 ^ 32

-- `Process::new`: the process takes the next PID.
unfoldable pub new : Kernel → List ℕ → ℕ → Process × Kernel
new k name parent_pid = (
  record {
    pid = k.next_pid;
    parent_pid = parent_pid;
    name = name;
    state = ready;
    priority = normal;
    kernel_rsp = 0;
    exit_code = 0;
    pending_signals = 0;
  },
  record k { next_pid = bump_pid k.next_pid },
)

abbrev pub idle_process : Process
idle_process = record {
  pid = 0;
  parent_pid = 0;
  name = codes "idle";
  state = running;
  priority = idle;
  kernel_rsp = 0;
  exit_code = 0;
  pending_signals = 0;
}

-- `scheduler::init`.
abbrev pub scheduler_init : Kernel → Kernel
scheduler_init k = record k { ticks = 0; current_pid = 0 }

-- `process::init`.
unfoldable pub init : Kernel → Kernel
unfolding new
init k =
    let idle_pushed = record k { table = k.table ++ (idle_process ∷ []) } in
    let (p, numbered) = new idle_pushed (codes "init") 0 in
    scheduler_init (record numbered { table = numbered.table ++ (p ∷ []) })

abbrev pub has_pid : ℕ → Process → Bool
has_pid pid p = p.pid == pid

-- `iter_mut().find(|p| p.pid == pid)` followed by an update of what is found.
unfoldable pub update_pid : ℕ → (Process → Process) → List Process → List Process
update_pid pid f [] = []
update_pid pid f (p ∷ ps) = if p.pid == pid then f p ∷ ps else p ∷ update_pid pid f ps

-- The child that `fork` makes of its parent.
abbrev pub fork_child : ℕ → Process → Process
fork_child pid parent = record {
  pid = pid;
  parent_pid = parent.pid;
  name = parent.name;
  state = ready;
  priority = parent.priority;
  kernel_rsp = parent.kernel_rsp;
  exit_code = 0;
  pending_signals = 0;
}

-- `process::fork`; `none` is the error "current process not found".
unfoldable pub fork : Kernel → Option ℕ × Kernel
fork k = elim (find? (has_pid k.current_pid) k.table) [
  | none ↦ (none, k)
  | some parent ↦ (
    some k.next_pid,
    record k {
      next_pid = bump_pid k.next_pid;
      table = k.table ++ (fork_child k.next_pid parent ∷ []);
    },
  )
]

-- What stands behind the last `/` of a path, if it has one.
pub after_last_slash : List ℕ → Option (List ℕ)
after_last_slash [] = none
after_last_slash (c ∷ cs) = elim (after_last_slash cs) [
  | some name ↦ some name
  | none ↦ if c == b'/' then some cs else none
]

-- `path.rsplit('/').next()`.
unfoldable pub rsplit_next : List ℕ → List ℕ
unfolding after_last_slash
rsplit_next path = elim (after_last_slash path) [ some name ↦ name | none ↦ path ]

-- `process::execve`; `none` is the error "current process not found".
unfoldable pub execve : List ℕ → Kernel → Option (Unit {0}) × Kernel
execve path k = elim (find? (has_pid k.current_pid) k.table) [
  | none ↦ (none, k)
  | some _ ↦ (
    some tt,
    record k {
      table =
          update_pid k.current_pid (λ p. record p { name = rsplit_next path; pending_signals = 0 })
            k.table;
    },
  )
]

-- The children of `pid` become children of process 1.
unfoldable pub reparent : ℕ → List Process → List Process
reparent pid [] = []
reparent pid (p ∷ ps) =
    (if p.parent_pid == pid then record p { parent_pid = 1 } else p) ∷ reparent pid ps

-- `process::exit` up to the scheduling decision.
unfoldable pub exit_current : ℕ → Kernel → Kernel
exit_current code k = record k {
  table =
      reparent k.current_pid
        (update_pid k.current_pid (λ p. record p { state = zombie; exit_code = code }) k.table);
}

unfoldable pub getpid : Kernel → ℕ
getpid k = k.current_pid

unfoldable pub current_is_zombie : Kernel → Bool
current_is_zombie k = elim (find? (has_pid k.current_pid) k.table) [
  | none ↦ false
  | some p ↦ is_zombie_state p.state
]

-- `target.map_or(true, |wanted| p.pid == wanted)`.
abbrev pub is_wanted : Option ℕ → Process → Bool
is_wanted none p = true
is_wanted (some wanted) p = p.pid == wanted

abbrev pub is_child : Option ℕ → ℕ → Process → Bool
is_child target current p = p.parent_pid == current && is_wanted target p

abbrev pub is_exited_child : Option ℕ → ℕ → Process → Bool
is_exited_child target current p =
    p.parent_pid == current && (is_zombie_state p.state && is_wanted target p)

-- `table.remove(idx)` for the index of the first process that passes the test.
unfoldable pub remove_first : (Process → Bool) → List Process → List Process
remove_first f [] = []
remove_first f (p ∷ ps) = if f p then ps else p ∷ remove_first f ps

-- One round of the loop of `process::waitpid`: the error "no child", a child that has exited, or
-- `Ok(None)`, after which the caller halts until the next interrupt.
pub data WaitRound : Type 0 where
  no_child : WaitRound
  exited : ℕ → ℕ → WaitRound
  pending : WaitRound

unfoldable pub wait_round : Option ℕ → Kernel → WaitRound × Kernel
wait_round target k =
    let exited_child = is_exited_child target k.current_pid in
    if any (is_child target k.current_pid) k.table
    then elim (find? exited_child k.table) [
      | some p ↦ (exited p.pid p.exit_code, record k { table = remove_first exited_child k.table })
      | none ↦ (pending, k)
    ]
    else (no_child, k)
