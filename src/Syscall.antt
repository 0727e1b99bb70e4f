-- ===== src/Syscall.antt =====
-- The system call layer: kernel/src/syscall/mod.rs, its state and the helpers of its handlers.
--
-- User memory is a function from addresses to bytes, and a pointer is an address (0 is null). An
-- `i32` argument is an integer, a result in rax an integer that stands for an i64. The slot of a
-- file descriptor is computed by `fd as usize - 3`, which underflows below 3: `checks` says whether
-- the kernel is built with overflow checks (as in the dev profile), when it panics there, or not
-- (as in the release profile), when it wraps.
pub mod Numbers
pub mod Files
pub mod Io
pub mod Dispatch
pub mod Descriptors
pub mod Reading
pub mod Waiting
pub mod Strings
mod Tests
use compute_kernel.Common.{
  ℕ, zero, suc, ◌+◌, ◌-◌, ◌*◌, ◌/◌, ◌%◌, ◌^◌, Bool, true, false, Option, none, some, List, [], ◌∷◌,
  ◌++◌, ◌==◌, ltb, if◌then◌else◌, codes, ℤ, pos, negsuc, as_usize, Outcome, done, panic, is_utf8,
}
use compute_kernel.Process.{Kernel}

pub data PseudoNode : Type 0 where
  proc_version proc_uptime proc_meminfo sys_hostname dev_null dev_zero dev_full dev_tty_s0 :
      PseudoNode

pub record OpenFile : Type 0 where
  pub node : PseudoNode
  pub offset : ℕ

-- The process state, the static FD_TABLE, user memory, and what has been printed: the bytes sent to
-- the serial port and those sent to the VGA text buffer.
pub record System : Type 0 where
  pub kernel : Kernel
  pub files : List (Option OpenFile)
  pub memory : ℕ → ℕ
  pub serial : List ℕ
  pub screen : List ℕ

-- `Errno`, as the values that the handlers return.
pub data Errno : Type 0 where
  success perm no_ent srch intr io bad_f no_mem acces fault inval n_file m_file no_spc no_sys :
      Errno

abbrev pub errno : Errno → ℤ
errno success = pos 0
errno perm = negsuc 0
errno no_ent = negsuc 1
errno srch = negsuc 2
errno intr = negsuc 3
errno io = negsuc 4
errno bad_f = negsuc 8
errno no_mem = negsuc 11
errno acces = negsuc 12
errno fault = negsuc 13
errno inval = negsuc 21
errno n_file = negsuc 22
errno m_file = negsuc 23
errno no_spc = negsuc 27
errno no_sys = negsuc 37

-- `fd as usize - 3`.
abbrev pub fd_slot : Bool → ℤ → Outcome ℕ
fd_slot checks fd =
    if ltb (as_usize fd) 3
    then if checks then panic else done (2 ^ 64 + as_usize fd - 3)
    else done (as_usize fd - 3)

-- `table.get_mut(idx)` followed by `slot.as_mut()`.
abbrev pub open_at : List (Option OpenFile) → ℕ → Option OpenFile
open_at [] i = none
open_at (slot ∷ slots) zero = slot
open_at (slot ∷ slots) (suc i) = open_at slots i

-- Bytes written to memory from an address on.
pub store : (ℕ → ℕ) → ℕ → List ℕ → ℕ → ℕ
store memory address [] a = memory a
store memory address (b ∷ bs) a = if a == address then b else store memory (address + 1) bs a

-- `count` bytes of memory from an address on.
unfoldable pub load : (ℕ → ℕ) → ℕ → ℕ → List ℕ
load memory address zero = []
load memory address (suc count) = memory address ∷ load memory (address + 1) count

-- The loop of `read_user_cstr`, with `left` bytes left to look at; `bytes` are those read.
read_cstr_from : (ℕ → ℕ) → ℕ → ℕ → List ℕ → Option (List ℕ)
read_cstr_from memory address zero bytes = none
read_cstr_from memory address (suc left) bytes =
    let longer = read_cstr_from memory (address + 1) left (bytes ++ (memory address ∷ [])) in
    if memory address == 0 then if is_utf8 bytes then some bytes else none else longer

unfoldable pub read_user_cstr : (ℕ → ℕ) → ℕ → ℕ → Option (List ℕ)
unfolding read_cstr_from
read_user_cstr memory address max_len =
    if address == 0 then none else read_cstr_from memory address max_len []
