-- ===== src/Syscall/Tests.antt =====
-- The system calls of kernel/src/syscall/mod.rs on concrete states: test runs, and the theorems at
-- them.
use compute_kernel.Common.{
  ℕ, ◌-◌, ◌≤◌, ◌<◌, ◌≢◌, ◌↔◌, length, ◌≡◌, refl, Bool, true, none, some, List, [], ◌∷◌, codes,
  arith, ltb, if◌then◌else◌, get_or, is_utf8, pos, done,
}
use compute_kernel.Process.Pids.{IsValid}
use compute_kernel.Process.Table.{lookup}
use compute_kernel.Syscall.Waiting.{sys_wait4_reaps}
use compute_kernel.Process.{idle_process, zombie, boot}
use compute_kernel.Syscall.{
  PseudoNode, sys_hostname, dev_zero, OpenFile, System, errno, no_sys, open_at, read_user_cstr,
}
use compute_kernel.Syscall.Files.{sys_open, sys_close, node_of_path, allocate}
use compute_kernel.Syscall.Io.{node_bytes, read_file, sys_read, returns, panics}
use compute_kernel.Syscall.Dispatch.{sys_wait4, Environment, dispatch}
use compute_kernel.Syscall.Descriptors.{sys_open_lem, sys_close-open}
use compute_kernel.Syscall.Strings.{HoldsString, read_user_cstr_lem}
use compute_kernel.Syscall.Reading.{read_file_lem, sys_read_low_fd}

abbrev zero_file : OpenFile
zero_file = record { node = dev_zero; offset = 0 }

abbrev host_file : OpenFile
host_file = record { node = sys_hostname; offset = 0 }

-- Memory that holds a path at address 4096 and zeros elsewhere.
abbrev with_path : List ℕ → ℕ → ℕ
with_path path a = if ltb a 4096 then 0 else get_or path (a - 4096) 0

-- Descriptor 4 is free, 3 and 5 are open.
abbrev demo : System
demo = record {
  kernel = boot;
  files = some host_file ∷ none ∷ some zero_file ∷ [];
  memory = with_path (codes "/dev/zero");
  serial = [];
  screen = [];
}

abbrev opened : System
opened = record demo { files = some host_file ∷ some zero_file ∷ some zero_file ∷ [] }

abbrev closed : System
closed = record demo { files = none ∷ none ∷ some zero_file ∷ [] }

opens_lowest : sys_open 4096 0 demo ≡ (pos 4, opened)
unfolding sys_open read_user_cstr is_utf8 node_of_path allocate
opens_lowest = refl

closes : sys_close true (pos 3) demo ≡ done (pos 0, closed)
unfolding sys_close
closes = refl

unknown_call :
    (checks : Bool) (env : Environment) (s : System)
    → dispatch checks env
        (record { num = 99; rdi = 0; rsi = 0; rdx = 0; r10 = 0; r8 = 0; r9 = 0 })
        s
      ≡ returns (errno no_sys) s
unfolding dispatch
unknown_call checks env s = refl

sys_open_lem_example :
    (3 ≤ 4)
    × (open_at demo.files 1 ≡ none)
    × ((name : List ℕ) × (node : PseudoNode) × (read_user_cstr demo.memory 4096 256 ≡ some name)
        × (node_of_path name ≡ some node)
        × (open_at opened.files 1 ≡ some (record { node = node; offset = 0 })))
    × (opened ≡ record demo { files = opened.files })
sys_open_lem_example = sys_open_lem 4096 0 4 demo 1 opens_lowest

sys_close-open_example :
    (s'' : System) × (sys_close true (pos 4) opened ≡ done (pos 0, s''))
    × (open_at s''.files 2 ≡ some zero_file)
sys_close-open_example = sys_close-open true 4096 0 4 demo 2 opens_lowest

read_file_lem_example :
    (s' : System) × (read_file true (pos 5) 8192 2 demo ≡ done (pos 2, s'))
    × (2 ≤ 2)
    × (s'.memory 8193 ≡ 0)
    × (open_at s'.files 2 ≡ some (record { node = dev_zero; offset = 2 }))
unfolding node_bytes
read_file_lem_example = read_file_lem true 5 8192 2 demo 8193 2 (omega arith) refl

sys_read_low_fd_example : sys_read true [] (pos 2) 4096 1 demo ≡ panics
sys_read_low_fd_example =
    sys_read_low_fd true [] 2 4096 1 demo (omega arith) (omega arith) (omega arith) (omega arith)
      (omega arith)

-- The idle process runs and has an exited child 1, whose code is 263.
abbrev waiting : System
waiting = record demo {
  kernel = record boot {
    next_pid = 2;
    table = idle_process ∷ record idle_process { pid = 1; state = zombie; exit_code = 263 } ∷ [];
  };
}

waiting-IsValid : IsValid waiting.kernel
waiting-IsValid = omega arith

sys_wait4_reaps_example :
    (s' : System) × (sys_wait4 [] (pos 1) 8192 waiting ≡ returns (pos 1) s')
    × (lookup 1 s'.kernel.table ≡ none)
    × (s'.memory 8193 ≡ 7)
    × (s' ≡ record waiting { kernel = s'.kernel; memory = s'.memory })
sys_wait4_reaps_example =
    sys_wait4_reaps 1 [] 8192 waiting 1 8193 waiting-IsValid (omega arith) (omega arith) refl refl
      refl

read_user_cstr_lem_example :
    let path = codes "/dev/zero" in
    let address : ℕ = 4096 in
    read_user_cstr demo.memory address 256 ≡ some path
    ↔ (address ≢ 0)
      × HoldsString demo.memory address path
      × (length path < 256)
      × (is_utf8 path ≡ true)
read_user_cstr_lem_example = read_user_cstr_lem demo.memory 4096 256 (codes "/dev/zero")
