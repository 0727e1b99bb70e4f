-- ===== src/Syscall/Io.antt =====
-- Reading and writing: `sys_read` and `sys_write` of kernel/src/syscall/mod.rs. What the keyboard
-- gives is a list of polls, since decoding stands outside this file.
use compute_kernel.Common.{
  ℕ, zero, suc, ◌+◌, ◌-◌, ◌/◌, ◌%◌, ◌^◌, min, Bool, ◌||◌, none, some, List, [], ◌∷◌, ◌++◌, ◌==◌,
  leb, ltb, if◌then◌else◌, codes, length, take, drop, set, replicate, ℤ, pos, int_eq, as_i64,
  Outcome, done, panic, ◌>>=◌, is_utf8, show_u64,
}
use compute_kernel.Process.{Kernel, current_is_zombie}
use compute_kernel.Process.Wait.{ticks_pass}
use compute_kernel.Syscall.{
  PseudoNode, proc_version, proc_uptime, proc_meminfo, sys_hostname, dev_null, dev_zero, dev_full,
  dev_tty_s0, System, errno, fault, intr, bad_f, perm, no_spc, fd_slot, open_at, store, load,
}

-- `read_static`: the bytes that it copies into a buffer of `count` bytes.
unfoldable pub read_static : ℕ → ℕ → List ℕ → List ℕ
read_static count offset content =
    if leb (length content) offset
    then []
    else let available = drop offset content in take (min (length available) count) available

abbrev pub version_text : List ℕ
version_text = codes "ComputeKERNEL version 1.0.0 (Rust nightly)" ++ (10 ∷ [])

-- `format!("{}.00 {}.00\n", seconds, seconds)` at 100 ticks a second.
abbrev pub uptime_text : ℕ → List ℕ
uptime_text ticks =
    let seconds = show_u64 (ticks / 100) in
    seconds ++ (codes ".00 " ++ (seconds ++ (codes ".00" ++ (10 ∷ []))))

abbrev pub meminfo_text : List ℕ
meminfo_text =
    codes "MemTotal:         102400 kB" ++ (10 ∷ (codes "MemFree:           51200 kB" ++ (10 ∷ [])))

abbrev pub hostname_text : List ℕ
hostname_text = codes "computekernel" ++ (10 ∷ [])

-- The bytes that a read of an open file puts into the buffer, `match file.node`.
unfoldable pub node_bytes : PseudoNode → ℕ → ℕ → Kernel → List ℕ
node_bytes proc_version count offset k = read_static count offset version_text
node_bytes proc_uptime count offset k = read_static count offset (uptime_text k.ticks)
node_bytes proc_meminfo count offset k = read_static count offset meminfo_text
node_bytes sys_hostname count offset k = read_static count offset hostname_text
node_bytes dev_null count offset k = []
node_bytes dev_zero count offset k = replicate count 0
node_bytes dev_full count offset k = replicate count 0
node_bytes dev_tty_s0 count offset k = []

-- `u64::saturating_add`.
abbrev pub saturating_add : ℕ → ℕ → ℕ
saturating_add a b = min (a + b) (2 ^ 64 - 1)

-- One poll of the keyboard: a key, or nothing, after which the CPU halts while timer interrupts
-- come.
pub data KeyPoll : Type 0 where
  key : ℕ → KeyPoll
  no_key : ℕ → KeyPoll

pub data SysResult : Type 0 where
  returns : ℤ → System → SysResult
  panics : SysResult
  -- The call has not returned by the end of the polls or pauses given.
  waits : System → SysResult
  -- The process has exited; the call does not return.
  exits : System → SysResult

-- The second loop of a read from fd 0: further keys up to a line end, a full buffer or a poll
-- without a key. `left` is the room in the buffer.
unfoldable pub read_more_keys : ℕ → List KeyPoll → List ℕ
read_more_keys left [] = []
read_more_keys left (no_key n ∷ polls) = []
read_more_keys zero (key ch ∷ polls) = []
read_more_keys (suc left) (key ch ∷ polls) =
    let more = read_more_keys left polls in ch ∷ (if ch == 10 || ch == 13 then [] else more)

-- A read from fd 0 of `count` bytes, 0 < count: the first loop waits for a key.
unfoldable pub read_keys : ℕ → ℕ → List KeyPoll → System → SysResult
read_keys buf count [] s = if current_is_zombie s.kernel then returns (errno intr) s else waits s
read_keys buf count (key ch ∷ polls) s =
    if current_is_zombie s.kernel
    then returns (errno intr) s
    else let bytes = ch ∷ read_more_keys (count - 1) polls in
      returns (as_i64 (length bytes)) (record s { memory = store s.memory buf bytes })
read_keys buf count (no_key n ∷ polls) s =
    let later = read_keys buf count polls (record s { kernel = ticks_pass n s.kernel }) in
    if current_is_zombie s.kernel then returns (errno intr) s else later

unfoldable pub read_file : Bool → ℤ → ℕ → ℕ → System → Outcome (ℤ × System)
read_file checks fd buf count s = do
  slot ← fd_slot checks fd
  elim (open_at s.files slot) [
    | none ↦ done (errno bad_f, s)
    | some file ↦
        let bytes = node_bytes file.node count file.offset s.kernel in
        let moved = record file { offset = saturating_add file.offset (length bytes) } in
        done (
          as_i64 (length bytes),
          record s { memory = store s.memory buf bytes; files = set s.files slot (some moved) },
        )
  ]

abbrev pub result_of : Outcome (ℤ × System) → SysResult
result_of (done (value, s)) = returns value s
result_of panic = panics

unfoldable pub sys_read : Bool → List KeyPoll → ℤ → ℕ → ℕ → System → SysResult
sys_read checks polls fd buf count s =
    if count == 0
    then returns (pos 0) s
    else if buf == 0
    then returns (errno fault) s
    else if int_eq fd 0
    then read_keys buf count polls s
    else result_of (read_file checks fd buf count s)

-- `byte as char` printed: the UTF-8 of the code point.
abbrev pub char_bytes : List ℕ → List ℕ
char_bytes [] = []
char_bytes (b ∷ bs) =
    (if ltb b 128 then b ∷ [] else (192 + b / 64) ∷ (128 + b % 64) ∷ []) ++ char_bytes bs

-- What a write of `bytes` to an open device or file does.
unfoldable pub write_node : PseudoNode → List ℕ → System → ℤ × System
write_node dev_null bytes s = (as_i64 (length bytes), s)
write_node dev_zero bytes s = (as_i64 (length bytes), s)
write_node dev_full bytes s = (errno no_spc, s)
write_node dev_tty_s0 bytes s =
    (as_i64 (length bytes), record s { serial = s.serial ++ char_bytes bytes })
write_node _ bytes s = (errno perm, s)

unfoldable pub write_file : Bool → ℤ → List ℕ → System → Outcome (ℤ × System)
write_file checks fd bytes s = do
  slot ← fd_slot checks fd
  elim (open_at s.files slot) [
    | none ↦ done (errno bad_f, s)
    | some file ↦ done (write_node file.node bytes s)
  ]

unfoldable pub sys_write : Bool → ℤ → ℕ → ℕ → System → SysResult
sys_write checks fd buf count s =
    if count == 0
    then returns (pos 0) s
    else if buf == 0
    then returns (errno fault) s
    else let bytes = load s.memory buf count in
      if int_eq fd 1 || int_eq fd 2
      then returns (as_i64 count) (
          if is_utf8 bytes
          then record s { serial = s.serial ++ bytes; screen = s.screen ++ bytes }
          else s)
      else result_of (write_file checks fd bytes s)
