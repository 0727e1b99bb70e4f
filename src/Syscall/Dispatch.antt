-- ===== src/Syscall/Dispatch.antt =====
-- The remaining handlers and the dispatcher of kernel/src/syscall/mod.rs.
use compute_kernel.Common.{
  ℕ, ◌*◌, ◌/◌, ◌%◌, ◌^◌, Bool, Option, none, some, List, [], ◌∷◌, ◌==◌, if◌then◌else◌, ℤ, pos,
  as_i32, ltb_int, as_usize, bit_and, find?,
}
use compute_kernel.Process.{fork, execve, getpid, has_pid}
use compute_kernel.Process.Signal.{kill, sent}
use compute_kernel.Process.Scheduler.{exit}
use compute_kernel.Process.Wait.{waitpid, failed, reaped, waiting}
use compute_kernel.Syscall.{System, errno, fault, no_ent, srch, no_sys, store, read_user_cstr}
use compute_kernel.Syscall.Numbers as Numbers
use compute_kernel.Syscall.Files.{sys_open, sys_close}
use compute_kernel.Syscall.Io.{
  KeyPoll, SysResult, returns, waits, exits, sys_read, sys_write, result_of,
}

pub record SyscallFrame : Type 0 where
  pub num : ℕ
  pub rdi : ℕ
  pub rsi : ℕ
  pub rdx : ℕ
  pub r10 : ℕ
  pub r8 : ℕ
  pub r9 : ℕ

-- What happens while a call waits: the keyboard's polls, and the timer interrupts of each pause.
pub record Environment : Type 0 where
  pub polls : List KeyPoll
  pub pauses : List ℕ

unfoldable pub sys_getpid : System → ℤ
sys_getpid s = pos (getpid s.kernel)

unfoldable pub sys_getppid : System → ℤ
sys_getppid s = elim (find? (has_pid (getpid s.kernel)) s.kernel.table) [
  | none ↦ errno srch
  | some p ↦ pos p.parent_pid
]

unfoldable pub sys_fork : System → ℤ × System
sys_fork s = elim (fork s.kernel).0 [
  | none ↦ (errno no_sys, record s { kernel = (fork s.kernel).1 })
  | some child ↦ (pos child, record s { kernel = (fork s.kernel).1 })
]

unfoldable pub sys_execve : ℕ → System → ℤ × System
sys_execve path s =
    if path == 0 then (errno fault, s) else elim (read_user_cstr s.memory path 256) [
      | none ↦ (errno fault, s)
      | some name ↦ (
        elim (execve name s.kernel).0 [ none ↦ errno no_ent | some _ ↦ pos 0 ],
        record s { kernel = (execve name s.kernel).1 },
      )
    ]

-- The exit code is the low 32 bits of the register.
unfoldable pub sys_exit : ℕ → System → System
sys_exit code s = record s { kernel = exit code s.kernel }

unfoldable pub sys_kill : ℕ → ℕ → System → ℤ × System
sys_kill pid sig s =
    let (result, k) = kill pid sig s.kernel in
    (elim result [ sent ↦ pos 0 | _ ↦ errno srch ], record s { kernel = k })

-- `(code & 0xff) << 8` as the four bytes of an i32.
abbrev pub status_bytes : ℕ → List ℕ
status_bytes code =
    let status = bit_and code 255 * 256 in
    (status % 256) ∷ (status / 256 % 256) ∷ (status / 65536 % 256) ∷ (status / 16777216 % 256) ∷ []

-- `pid <= 0` waits for any child.
abbrev pub wait_target : ℤ → Option ℕ
wait_target pid = if ltb_int pid 1 then none else some (as_usize pid)

unfoldable pub sys_wait4 : List ℕ → ℤ → ℕ → System → SysResult
sys_wait4 pauses pid status s =
    let (result, k) = waitpid (wait_target pid) pauses s.kernel in
    elim result [
      | failed ↦ returns (errno srch) (record s { kernel = k })
      | reaped child code ↦ returns (pos child) (record s {
        kernel = k;
        memory = if status == 0 then s.memory else store s.memory status (status_bytes code);
      })
      | waiting ↦ waits (record s { kernel = k })
    ]

unfoldable pub sys_brk : System → ℤ
sys_brk s = pos 0

abbrev pub answer : ℤ × System → SysResult
answer r = returns r.0 r.1

-- `dispatch`: the casts `as i32`, `as u32` and `as u8` keep the low bits of a register.
unfoldable pub dispatch : Bool → Environment → SyscallFrame → System → SysResult
dispatch checks env f s =
    if f.num == Numbers.read
    then sys_read checks env.polls (as_i32 f.rdi) f.rsi f.rdx s
    else if f.num == Numbers.write
    then sys_write checks (as_i32 f.rdi) f.rsi f.rdx s
    else if f.num == Numbers.open_call
    then answer (sys_open f.rdi (f.rsi % 2 ^ 32) s)
    else if f.num == Numbers.close
    then result_of (sys_close checks (as_i32 f.rdi) s)
    else if f.num == Numbers.getpid
    then returns (sys_getpid s) s
    else if f.num == Numbers.fork
    then answer (sys_fork s)
    else if f.num == Numbers.execve
    then answer (sys_execve f.rdi s)
    else if f.num == Numbers.exit
    then exits (sys_exit (f.rdi % 2 ^ 32) s)
    else if f.num == Numbers.exit_group
    then exits (sys_exit (f.rdi % 2 ^ 32) s)
    else if f.num == Numbers.wait4
    then sys_wait4 env.pauses (as_i32 f.rdi) f.rsi s
    else if f.num == Numbers.kill
    then answer (sys_kill (f.rdi % 2 ^ 32) (f.rsi % 256) s)
    else if f.num == Numbers.getppid
    then returns (sys_getppid s) s
    else if f.num == Numbers.brk
    then returns (sys_brk s) s
    else returns (errno no_sys) s
