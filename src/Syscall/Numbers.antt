-- ===== src/Syscall/Numbers.antt =====
-- The system call numbers of kernel/src/syscall/mod.rs, SYS_READ and the others, and the flags of
-- `open`.
use compute_kernel.Common.{ℕ}

abbrev pub read : ℕ
read = 0

abbrev pub write : ℕ
write = 1

abbrev pub open_call : ℕ
open_call = 2

abbrev pub close : ℕ
close = 3

abbrev pub stat : ℕ
stat = 4

abbrev pub fstat : ℕ
fstat = 5

abbrev pub lstat : ℕ
lstat = 6

abbrev pub poll : ℕ
poll = 7

abbrev pub lseek : ℕ
lseek = 8

abbrev pub mmap : ℕ
mmap = 9

abbrev pub mprotect : ℕ
mprotect = 10

abbrev pub munmap : ℕ
munmap = 11

abbrev pub brk : ℕ
brk = 12

abbrev pub rt_sigaction : ℕ
rt_sigaction = 13

abbrev pub rt_sigprocmask : ℕ
rt_sigprocmask = 14

abbrev pub ioctl : ℕ
ioctl = 16

abbrev pub getpid : ℕ
getpid = 39

abbrev pub fork : ℕ
fork = 57

abbrev pub vfork : ℕ
vfork = 58

abbrev pub execve : ℕ
execve = 59

abbrev pub exit : ℕ
exit = 60

abbrev pub wait4 : ℕ
wait4 = 61

abbrev pub kill : ℕ
kill = 62

abbrev pub getppid : ℕ
getppid = 110

abbrev pub exit_group : ℕ
exit_group = 231

abbrev pub o_wronly : ℕ
o_wronly = 1

abbrev pub o_rdwr : ℕ
o_rdwr = 2

abbrev pub o_accmode : ℕ
o_accmode = 3
