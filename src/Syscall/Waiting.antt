-- ===== src/Syscall/Waiting.antt =====
-- The wait4 call (`sys_wait4` of kernel/src/syscall/mod.rs) for a child that has exited.
use compute_kernel.Common.{
  ℕ, ◌+◌, ◌%◌, ◌<◌, ◌≡◌, refl, some, none, List, ◌&&◌, arith, ◌==◌, ltb, leb, if◌then◌else◌, pos,
  bit_and-low,
}
use compute_kernel.Process.{Process, zombie}
use compute_kernel.Process.Wait.{waitpid}
use compute_kernel.Process.Table.{lookup}
use compute_kernel.Process.Pids.{IsValid}
use compute_kernel.Process.Reap.{waitpid_reaps}
use compute_kernel.Syscall.{System, store}
use compute_kernel.Syscall.Io.{returns}
use compute_kernel.Syscall.Dispatch.{sys_wait4, status_bytes}

-- The status word in memory: the code's low byte stands in its second byte, the others are zero.
store-status_bytes :
    (memory : ℕ → ℕ) (status code a : ℕ)
    → store memory status (status_bytes code) a ≡ (
        if a == status + 1
        then code % 256
        else if leb status a && ltb a (status + 4)
        then 0
        else memory a)
unfolding store
store-status_bytes memory status code a = ground (arith, bit_and-low 8 code 255 refl)

-- A wait4 for a child `c` of the current process that is a zombie returns its PID without waiting,
-- writes its exit code's low byte as the second byte of the status word and zeros as the other
-- three, and changes no other memory; `c` leaves the table, and every other process, the open files
-- and the output stay.
pub sys_wait4_reaps :
    (c : ℕ) (pauses : List ℕ) (status : ℕ) (s : System) {z : Process} (i a : ℕ)
    → IsValid s.kernel
    → 0 < c
    → 0 < status
    → lookup c s.kernel.table ≡ some z
    → z.state ≡ zombie
    → z.parent_pid ≡ s.kernel.current_pid
    → (s' : System) × (sys_wait4 pauses (pos c) status s ≡ returns (pos c) s')
      × (lookup i s'.kernel.table ≡ (if c == i then none else lookup i s.kernel.table))
      × (s'.memory a ≡ (
          if a == status + 1
          then z.exit_code % 256
          else if leb status a && ltb a (status + 4)
          then 0
          else s.memory a))
      × (s' ≡ record s { kernel = s'.kernel; memory = s'.memory })
unfolding sys_wait4
sys_wait4_reaps c pauses status s {z} i a v lo there found dead child =
    let (result, others) = waitpid_reaps c pauses {k = s.kernel} {z = z} i v found dead child in
    (
      record s {
        kernel = (waitpid (some c) pauses s.kernel).1;
        memory = store s.memory status (status_bytes z.exit_code);
      },
      ground arith,
      others,
      store-status_bytes s.memory status z.exit_code a,
      refl,
    )
