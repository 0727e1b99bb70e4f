-- ===== src/Syscall/Files.antt =====
-- Opening and closing: `sys_open` and `sys_close` of kernel/src/syscall/mod.rs.
use compute_kernel.Common.{
  ℕ, suc, ◌+◌, Bool, true, false, ◌||◌, ◌&&◌, Option, none, some, List, [], ◌∷◌, ◌==◌,
  if◌then◌else◌, codes, bytes_eq, set, ℤ, pos, ltb_int, Outcome, done, ◌>>=◌, bit_and,
}
use compute_kernel.Syscall.Numbers.{o_accmode, o_wronly, o_rdwr}
use compute_kernel.Syscall.{
  PseudoNode, proc_version, proc_uptime, proc_meminfo, sys_hostname, dev_null, dev_zero, dev_full,
  dev_tty_s0, OpenFile, System, errno, fault, no_ent, acces, bad_f, fd_slot, open_at,
  read_user_cstr,
}

-- `match path.as_str()`.
unfoldable pub node_of_path : List ℕ → Option PseudoNode
node_of_path path =
    if bytes_eq path (codes "/proc/version")
    then some proc_version
    else if bytes_eq path (codes "/proc/uptime")
    then some proc_uptime
    else if bytes_eq path (codes "/proc/meminfo")
    then some proc_meminfo
    else if bytes_eq path (codes "/sys/kernel/hostname")
    then some sys_hostname
    else if bytes_eq path (codes "/dev/null")
    then some dev_null
    else if bytes_eq path (codes "/dev/zero")
    then some dev_zero
    else if bytes_eq path (codes "/dev/full")
    then some dev_full
    else if bytes_eq path (codes "/dev/ttyS0")
    then some dev_tty_s0
    else none

abbrev pub is_read_only : PseudoNode → Bool
is_read_only proc_version = true
is_read_only proc_uptime = true
is_read_only proc_meminfo = true
is_read_only sys_hostname = true
is_read_only _ = false

-- `flags & O_ACCMODE` is O_WRONLY or O_RDWR. The flags are a 32-bit pattern.
abbrev pub wants_write : ℕ → Bool
wants_write flags = let access = bit_and flags o_accmode in access == o_wronly || access == o_rdwr

-- The first free slot takes the file; if there is none, it is pushed.
unfoldable pub allocate : OpenFile → List (Option OpenFile) → ℕ × List (Option OpenFile)
allocate file [] = (0, some file ∷ [])
allocate file (none ∷ slots) = (0, some file ∷ slots)
allocate file (some f ∷ slots) =
    let (idx, slots') = allocate file slots in (suc idx, some f ∷ slots')

unfoldable pub sys_open : ℕ → ℕ → System → ℤ × System
unfolding node_of_path
sys_open path flags s =
    if path == 0 then (errno fault, s) else elim (read_user_cstr s.memory path 256) [
      | none ↦ (errno fault, s)
      | some name ↦ elim (node_of_path name) [
        | none ↦ (errno no_ent, s)
        | some node ↦
            if wants_write flags && is_read_only node
            then (errno acces, s)
            else let (idx, files') = allocate (record { node = node; offset = 0 }) s.files in
              (pos (idx + 3), record s { files = files' })
      ]
    ]

unfoldable pub sys_close : Bool → ℤ → System → Outcome (ℤ × System)
sys_close checks fd s = if ltb_int fd 3 then done (pos 0, s) else do
  slot ← fd_slot checks fd
  elim (open_at s.files slot) [
    | none ↦ done (errno bad_f, s)
    | some file ↦ done (pos 0, record s { files = set s.files slot none })
  ]
