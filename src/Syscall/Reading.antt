-- ===== src/Syscall/Reading.antt =====
-- What a read returns and where it writes (`read_static` and `sys_read` of
-- kernel/src/syscall/mod.rs).
use native.Mathlib.Nat.{suc-add}
use compute_kernel.Process.{Kernel}
use compute_kernel.Common.{
  ℕ, zero, suc, ◌+◌, ◌-◌, ◌<◌, ◌≤◌, ◌^◌, min, ◌≡◌, refl, sym, ap, ◌∙◌, Bool, true, ◌&&◌, Option,
  none, some, List, [], ◌∷◌, ◌++◌, arith, ◌==◌, ltb, leb, if◌then◌else◌, set, get_or, length, take,
  drop, drop_all, take_all, length-take, length-replicate, pos, as_i64, done, Bool-cases, leb→le,
  inl, inr,
}
use compute_kernel.Syscall.{
  PseudoNode, proc_version, proc_uptime, proc_meminfo, sys_hostname, dev_null, dev_zero, dev_full,
  dev_tty_s0, OpenFile, System, errno, bad_f, perm, open_at, store,
}
use compute_kernel.Syscall.Io.{
  read_static, node_bytes, read_file, saturating_add, KeyPoll, returns, panics, sys_read, sys_write,
  version_text, uptime_text, meminfo_text, hostname_text, write_file, write_node,
}
use compute_kernel.Syscall.Files.{is_read_only}

take-nil : (n : ℕ) → take {A = ℕ} n [] ≡ []
take-nil zero = refl
take-nil (suc n) = refl

drop-nil : (n : ℕ) → drop {A = ℕ} n [] ≡ []
drop-nil zero = refl
drop-nil (suc n) = refl

take-min : (n : ℕ) (xs : List ℕ) → take (min (length xs) n) xs ≡ take n xs
take-min n xs = elim (Bool-cases (leb (length xs) n)) [
  | inl all ↦
      let h : length xs ≤ n = ground arith in
      ap (λ (k : ℕ). take k xs) (let e : min (length xs) n ≡ length xs = omega arith in e)
      ∙ take_all xs (length xs) (omega arith)
      ∙ sym (take_all xs n h)
  | inr some_left ↦ let h : n ≤ length xs = ground arith in ap (λ (k : ℕ). take k xs) (omega arith)
]

pub read_static-eq-take :
    (count offset : ℕ) (content : List ℕ)
    → read_static count offset content ≡ take count (drop offset content)
unfolding read_static
read_static-eq-take count offset content = elim (Bool-cases (leb (length content) offset)) [
  | inl past ↦
      rw (past, read_static, drop_all content offset (leb→le (length content) offset past))
        (sym (take-nil count))
  | inr inside ↦ rw (inside, read_static) (take-min count (drop offset content))
]

take-append-take :
    (m n : ℕ) (xs : List ℕ) → take m xs ++ take n (drop (length (take m xs)) xs) ≡ take (m + n) xs
take-append-take zero n xs = ap (λ (k : ℕ). take k xs) (omega arith)
take-append-take (suc m) n [] = take-nil n ∙ sym (take-nil (suc m + n))
take-append-take (suc m) n (x ∷ xs) =
    ap (◌∷◌ x) (take-append-take m n xs) ∙ ap (λ (k : ℕ). take k (x ∷ xs)) (sym (suc-add m n))

drop-drop : (m n : ℕ) (xs : List ℕ) → drop n (drop m xs) ≡ drop (m + n) xs
drop-drop zero n xs = ap (λ (k : ℕ). drop k xs) (omega arith)
drop-drop (suc m) n [] = drop-nil n ∙ sym (drop-nil (suc m + n))
drop-drop (suc m) n (x ∷ xs) =
    drop-drop m n xs ∙ ap (λ (k : ℕ). drop k (x ∷ xs)) (sym (suc-add m n))

-- Reading in two pieces, the second from where the first ended, gives what one read of both sizes
-- gives: no byte is lost, repeated or out of order.
read_static_chunks :
    (m n offset : ℕ) (content : List ℕ)
    → let first = read_static m offset content in
      first ++ read_static n (offset + length first) content ≡ read_static (m + n) offset content
read_static_chunks m n offset content =
    rw
      (
        read_static-eq-take m offset content,
        read_static-eq-take n (offset + length (take m (drop offset content))) content,
        read_static-eq-take (m + n) offset content,
        ← drop-drop offset (length (take m (drop offset content))) content,
      )
      (take-append-take m n (drop offset content))

-- Memory after a write of bytes.
store_lem :
    (memory : ℕ → ℕ) (p : ℕ) (bs : List ℕ) (a : ℕ)
    → store memory p bs a
      ≡ (if leb p a && ltb a (p + length bs) then get_or bs (a - p) 0 else memory a)
unfolding store
store_lem memory p [] a = ground arith
store_lem memory p (b ∷ bs) a = elim (Bool-cases (a == p)) [
  | inl here ↦ let at_start : a - p ≡ 0 = ground arith in rw at_start (ground arith)
  | inr other ↦ elim (Bool-cases (leb (p + 1) a)) [
    | inl above ↦
        let next : a - p ≡ suc (a - (p + 1)) = ground arith in
        rw next (ground (arith, store_lem memory (p + 1) bs a))
    | inr below ↦ ground (arith, store_lem memory (p + 1) bs a)
  ]
]

read_static-le :
    (count offset : ℕ) (content : List ℕ) → length (read_static count offset content) ≤ count
read_static-le count offset content =
    rw (read_static-eq-take count offset content)
      (omega (arith, length-take count (drop offset content)))

node_bytes-le :
    (node : PseudoNode) (count offset : ℕ) (k : Kernel)
    → length (node_bytes node count offset k) ≤ count
unfolding node_bytes
node_bytes-le proc_version count offset k = read_static-le count offset version_text
node_bytes-le proc_uptime count offset k = read_static-le count offset (uptime_text k.ticks)
node_bytes-le proc_meminfo count offset k = read_static-le count offset meminfo_text
node_bytes-le sys_hostname count offset k = read_static-le count offset hostname_text
node_bytes-le dev_null count offset k = omega arith
node_bytes-le dev_zero count offset k = omega (arith, length-replicate {A = ℕ} count 0)
node_bytes-le dev_full count offset k = omega (arith, length-replicate {A = ℕ} count 0)
node_bytes-le dev_tty_s0 count offset k = omega arith

open_at-set-some :
    (t : List (Option OpenFile)) (i j : ℕ) {f : OpenFile} (g : OpenFile)
    → open_at t i ≡ some f
    → open_at (set t i (some g)) j ≡ (if j == i then some g else open_at t j)
open_at-set-some [] i j g h = cc
open_at-set-some (x ∷ t) zero zero g h = refl
open_at-set-some (x ∷ t) zero (suc j) g h = ground arith
open_at-set-some (x ∷ t) (suc i) zero g h = ground arith
open_at-set-some (x ∷ t) (suc i) (suc j) g h = ground (arith, open_at-set-some t i j g h)

-- A read from an open descriptor (3 or more) returns the number of bytes that its node gives, at
-- most `count`; exactly those bytes are written, from the buffer's start, and no other memory; the
-- descriptor's offset advances by their number and no other descriptor changes.
pub read_file_lem :
    (checks : Bool) (fd buf count : ℕ) (s : System) {file : OpenFile} (a j : ℕ)
    → 3 ≤ fd
    → open_at s.files (fd - 3) ≡ some file
    → let bytes = node_bytes file.node count file.offset s.kernel in
      (s' : System) × (read_file checks (pos fd) buf count s ≡ done (as_i64 (length bytes), s'))
      × (length bytes ≤ count)
      × (s'.memory a ≡ (
          if leb buf a && ltb a (buf + length bytes) then get_or bytes (a - buf) 0 else s.memory a))
      × (open_at s'.files j ≡ (
          if j == fd - 3
          then some (record file { offset = saturating_add file.offset (length bytes) })
          else open_at s.files j))
unfolding read_file
read_file_lem checks fd buf count s {file} a j lo found =
    let bytes = node_bytes file.node count file.offset s.kernel in
    let moved = record file { offset = saturating_add file.offset (length bytes) } in
    (
      record s { memory = store s.memory buf bytes; files = set s.files (fd - 3) (some moved) },
      ground arith,
      node_bytes-le file.node count file.offset s.kernel,
      store_lem s.memory buf bytes a,
      open_at-set-some s.files (fd - 3) j moved found,
    )

open_at_beyond : (t : List (Option OpenFile)) (i : ℕ) → length t ≤ i → open_at t i ≡ none
open_at_beyond [] i h = refl
open_at_beyond (x ∷ t) zero h = absurd (omega arith)
open_at_beyond (x ∷ t) (suc i) h = open_at_beyond t i (omega arith)

-- A read from descriptor 1 or 2 computes a slot below zero: with overflow checks the kernel panics;
-- without, the slot lies beyond any table and the call fails with EBADF and changes nothing.
pub sys_read_low_fd :
    (checks : Bool) (polls : List KeyPoll) (fd buf count : ℕ) (s : System)
    → 0 < fd
    → fd < 3
    → 0 < buf
    → 0 < count
    → length s.files ≤ 2 ^ 63
    → sys_read checks polls (pos fd) buf count s
      ≡ (if checks then panics else returns (errno bad_f) s)
unfolding sys_read read_file
sys_read_low_fd checks polls fd buf count s lo hi b c len =
    ground (arith, open_at_beyond s.files (2 ^ 64 + fd - 3) (omega arith))

-- A write to an open /proc or /sys file fails with EPERM and changes nothing.
pub sys_write_read_only :
    (checks : Bool) (fd buf count : ℕ) (s : System) {file : OpenFile}
    → 3 ≤ fd
    → open_at s.files (fd - 3) ≡ some file
    → is_read_only file.node ≡ true
    → 0 < buf
    → 0 < count
    → sys_write checks (pos fd) buf count s ≡ returns (errno perm) s
unfolding sys_write write_file write_node
sys_write_read_only checks fd buf count s {file} lo found ro b c = ground arith
