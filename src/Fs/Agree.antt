-- ===== src/Fs/Agree.antt =====
-- The pseudo file systems (kernel/src/fs) against the system calls (kernel/src/syscall/mod.rs),
-- which serve the same files by code of their own.
use compute_kernel.Common.{
  ℕ, ◌<◌, ◌≡◌, ◌≢◌, refl, sym, append-nil, min, leb, ◌⊎◌, inl, inr, if◌then◌else◌, Bool-cases,
  length-take, length-drop, length-replicate, drop_all, replicate, List, ◌++◌, arith, length, take,
  drop, ℤ, as_i64,
}
use compute_kernel.Process.{Kernel}
use compute_kernel.Syscall.{
  PseudoNode, proc_version, proc_uptime, proc_meminfo, sys_hostname, dev_null, dev_zero, dev_full,
  dev_tty_s0, System, errno, perm, no_spc,
}
use compute_kernel.Syscall.Io.{
  node_bytes, write_node, read_static, version_text, uptime_text, meminfo_text, hostname_text,
}
use compute_kernel.Fs.{no_space, Result, ok, err, Inode, new, regular_file, char_device, copy_into}
use compute_kernel.Fs.ProcFs
use compute_kernel.Fs.SysFs
use compute_kernel.Fs.SysFs.{sys_fs}
use compute_kernel.Syscall.Reading.{read_static-eq-take}
use compute_kernel.Fs.DevFs
use compute_kernel.Fs.Tree.{PseudoFs, proc, sys, dev, file_system}

-- Where a node of the system calls stands among the file systems.
abbrev pub fs_of : PseudoNode → PseudoFs
fs_of proc_version = proc
fs_of proc_uptime = proc
fs_of proc_meminfo = proc
fs_of sys_hostname = sys
fs_of _ = dev

abbrev pub inode_of : PseudoNode → Inode
inode_of proc_version = new 2 regular_file
inode_of proc_uptime = new 3 regular_file
inode_of proc_meminfo = new 4 regular_file
inode_of sys_hostname = new 3 regular_file
inode_of dev_null = new 2 char_device
inode_of dev_zero = new 3 char_device
inode_of dev_full = new 4 char_device
inode_of dev_tty_s0 = new 5 char_device

-- The error numbers of the two errors that writes of these files have.
abbrev pub code_of : Result ℕ → ℤ
code_of (ok n) = as_i64 n
code_of (err no_space) = errno no_spc
code_of (err _) = errno perm

-- A write through the file systems and a write by the system call give the same result and send the
-- same bytes to the serial port, for every file.
write_agrees :
    (node : PseudoNode) (offset : ℕ) (bytes : List ℕ) (s : System)
    → let written = (file_system (fs_of node)).write (inode_of node) offset bytes in
      ((write_node node bytes s).0 ≡ code_of written.0)
      × ((write_node node bytes s).1.serial ≡ s.serial ++ written.1)
unfolding write_node ProcFs.write SysFs.write DevFs.write
write_agrees proc_version offset bytes s = (refl, sym (append-nil s.serial))
write_agrees proc_uptime offset bytes s = (refl, sym (append-nil s.serial))
write_agrees proc_meminfo offset bytes s = (refl, sym (append-nil s.serial))
write_agrees sys_hostname offset bytes s = (refl, sym (append-nil s.serial))
write_agrees dev_null offset bytes s = (refl, sym (append-nil s.serial))
write_agrees dev_zero offset bytes s = (refl, sym (append-nil s.serial))
write_agrees dev_full offset bytes s = (refl, sym (append-nil s.serial))
write_agrees dev_tty_s0 offset bytes s = (refl, refl)

-- The buffer of a read: the bytes read, and after them what stood there.
abbrev pub filled : List ℕ → List ℕ → Result (ℕ × List ℕ)
filled buf bytes = ok (length bytes, bytes ++ drop (length bytes) buf)

copied :
    (buf content : List ℕ) (offset : ℕ)
    → (if leb (length content) offset
        then ok (0, buf)
        else ok (copy_into buf (drop offset content)))
      ≡ filled buf (read_static (length buf) offset content)
unfolding read_static
copied buf content offset = elim (Bool-cases (leb (length content) offset)) [
  | inl past ↦ rw (past, read_static) refl
  | inr inside ↦
      let available = drop offset content in
      let n = min (length buf) (length available) in
      let read_n : length (take n available) ≡ n = omega (arith, length-take n available) in
      let same : min (length available) (length buf) ≡ n = omega arith in
      rw (inside, read_static, same, read_n) refl
]

zeros_filled :
    (buf : List ℕ)
    → ok (length buf, replicate (length buf) 0) ≡ filled buf (replicate (length buf) 0)
zeros_filled buf =
    rw
      (
        length-replicate {A = ℕ} (length buf) 0,
        drop_all buf (length buf) (omega arith),
        append-nil {A = ℕ} (replicate (length buf) 0),
      )
      refl

-- A read through the file systems fills the buffer with the bytes that the system call reads from
-- the same file at the same offset and ticks, and leaves the rest of the buffer; for /sys only at
-- offset 0.
pub read_agrees :
    (node : PseudoNode) (offset : ℕ) (buf : List ℕ) (k : Kernel)
    → (offset ≡ 0) ⊎ (fs_of node ≢ sys)
    → (file_system (fs_of node)).read k.ticks (inode_of node) offset buf
      ≡ filled buf (node_bytes node (length buf) offset k)
unfolding node_bytes ProcFs.read SysFs.read DevFs.read
read_agrees proc_version offset buf k h = copied buf version_text offset
read_agrees proc_uptime offset buf k h = copied buf (uptime_text k.ticks) offset
read_agrees proc_meminfo offset buf k h = copied buf meminfo_text offset
read_agrees sys_hostname offset buf k (inl start) = rw start (at_start buf)
  where
    at_start :
        (buf : List ℕ)
        → ok (copy_into buf hostname_text) ≡ filled buf (read_static (length buf) 0 hostname_text)
    at_start buf = copied buf hostname_text 0
read_agrees sys_hostname offset buf k (inr other) = absurd (other refl)
read_agrees dev_null offset buf k h = refl
read_agrees dev_zero offset buf k h = zeros_filled buf
read_agrees dev_full offset buf k h = zeros_filled buf
read_agrees dev_tty_s0 offset buf k h = refl

-- A read of /sys/kernel/hostname that goes on from where a first read ended gets nothing from the
-- file system, whatever is left; the system call gives the next of the 14 bytes.
hostname_rest :
    (offset : ℕ) (buf : List ℕ) (k : Kernel)
    → 0 < offset
    → offset < 14
    → 0 < length buf
    → (sys_fs.read k.ticks (inode_of sys_hostname) offset buf ≡ ok (0, buf))
      × (0 < length (node_bytes sys_hostname (length buf) offset k))
unfolding SysFs.read node_bytes
hostname_rest offset buf k lo hi room = (
  ground arith,
  rw (read_static-eq-take (length buf) offset hostname_text) (
      omega (
        arith,
        length-take (length buf) (drop offset hostname_text),
        length-drop offset hostname_text,
      )),
)
