-- ===== src/Syscall/Descriptors.antt =====
-- The file descriptor table (FD_TABLE of kernel/src/syscall/mod.rs) under `sys_open` and `sys_close`.
use compute_kernel.Common.{
  ℕ, zero, suc, ◌+◌, ◌-◌, ◌<◌, ◌≤◌, ◌≡◌, ◌≢◌, refl, Bool, Option, none, some, List, [], ◌∷◌, arith,
  ◌==◌, if◌then◌else◌, set, pos, negsuc, done, Option-cases, inl, inr,
}
use compute_kernel.Syscall.{PseudoNode, OpenFile, System, errno, bad_f, open_at, read_user_cstr}
use compute_kernel.Syscall.Files.{allocate, sys_open, sys_close, node_of_path}

-- The slot that `allocate` takes was free; it now holds the file, and every other slot is as before.
allocate_lem :
    (f : OpenFile) (t : List (Option OpenFile)) (j : ℕ)
    → let (idx, t') = allocate f t in
      (open_at t idx ≡ none) × (open_at t' j ≡ (if j == idx then some f else open_at t j))
unfolding allocate
allocate_lem f [] zero = (refl, refl)
allocate_lem f [] (suc j) = (refl, ground arith)
allocate_lem f (none ∷ t) zero = (refl, refl)
allocate_lem f (none ∷ t) (suc j) = (refl, ground arith)
allocate_lem f (some g ∷ t) zero = ground (arith, allocate_lem f t 0)
allocate_lem f (some g ∷ t) (suc j) = ground (arith, allocate_lem f t j)

-- Every slot below it is taken.
allocate_lowest :
    (f : OpenFile) (t : List (Option OpenFile)) (j : ℕ) → j < (allocate f t).0 → open_at t j ≢ none
unfolding allocate
allocate_lowest f [] j h e = absurd (omega arith)
allocate_lowest f (none ∷ t) j h e = absurd (omega arith)
allocate_lowest f (some g ∷ t) zero h e = cc
allocate_lowest f (some g ∷ t) (suc j) h e = allocate_lowest f t j (omega arith) e

open_at-set :
    (t : List (Option OpenFile)) (i j : ℕ)
    → open_at (set t i none) j ≡ (if j == i then none else open_at t j)
open_at-set [] i j = ground arith
open_at-set (x ∷ t) zero zero = refl
open_at-set (x ∷ t) zero (suc j) = ground arith
open_at-set (x ∷ t) (suc i) zero = ground arith
open_at-set (x ∷ t) (suc i) (suc j) = ground (arith, open_at-set t i j)

-- What a successful `sys_open` has done.
opened_inv :
    (path flags fd : ℕ) (s : System) {s' : System}
    → sys_open path flags s ≡ (pos fd, s')
    → (name : List ℕ) × (node : PseudoNode) × (read_user_cstr s.memory path 256 ≡ some name)
      × (node_of_path name ≡ some node)
      × (fd ≡ (allocate (record { node = node; offset = 0 }) s.files).0 + 3)
      × (s' ≡ record s { files = (allocate (record { node = node; offset = 0 }) s.files).1 })
unfolding sys_open
opened_inv path flags fd s {s'} e = elim (Option-cases (read_user_cstr s.memory path 256)) [
  | inl unread ↦ absurd (ground arith)
  | inr (name, read) ↦ elim (Option-cases (node_of_path name)) [
    | inl unknown ↦ absurd (ground arith)
    | inr (node, known) ↦ (name, node, read, known, ground arith, ground arith)
  ]
]

-- A successful open returns a descriptor from 3 on whose slot was free; the slot then holds the node
-- that the path names at offset 0, and every other slot, the processes, memory and the output are as
-- before.
pub sys_open_lem :
    (path flags fd : ℕ) (s : System) {s' : System} (j : ℕ)
    → sys_open path flags s ≡ (pos fd, s')
    → (3 ≤ fd)
      × (open_at s.files (fd - 3) ≡ none)
      × ((name : List ℕ) × (node : PseudoNode) × (read_user_cstr s.memory path 256 ≡ some name)
          × (node_of_path name ≡ some node)
          × (open_at s'.files j ≡ (
              if j == fd - 3
              then some (record { node = node; offset = 0 })
              else open_at s.files j)))
      × (s' ≡ record s { files = s'.files })
sys_open_lem path flags fd s {s'} j e =
    let (name, node, read, known, fd_is, s'_is) = opened_inv path flags fd s e in
    let file : OpenFile = record { node = node; offset = 0 } in
    let facts = allocate_lem file s.files j in
    let slot : fd - 3 ≡ (allocate file s.files).0 = omega arith in
    (
      omega arith,
      rw slot (facts.0),
      (name, node, read, known, rw (s'_is, slot) (facts.1)),
      rw s'_is,
    )

-- The descriptor that an open returns is the lowest that is free.
sys_open_lowest :
    (path flags fd : ℕ) (s : System) {s' : System} (j : ℕ)
    → sys_open path flags s ≡ (pos fd, s')
    → j + 3 < fd
    → open_at s.files j ≢ none
sys_open_lowest path flags fd s j e h =
    let (name, node, read, known, fd_is, s'_is) = opened_inv path flags fd s e in
    allocate_lowest (record { node = node; offset = 0 }) s.files j (omega arith)

-- An open that fails returns a negative number and changes nothing.
pub sys_open_refused :
    (path flags e : ℕ) (s : System)
    → (sys_open path flags s).0 ≡ negsuc e
    → (sys_open path flags s).1 ≡ s
unfolding sys_open
sys_open_refused path flags e s h = ground arith

close_found :
    (checks : Bool) (fd : ℕ) (s : System) {f : OpenFile}
    → 3 ≤ fd
    → open_at s.files (fd - 3) ≡ some f
    → sys_close checks (pos fd) s ≡ done (pos 0, record s { files = set s.files (fd - 3) none })
unfolding sys_close
close_found checks fd s lo found = ground arith

close_missing :
    (checks : Bool) (fd : ℕ) (s : System)
    → 3 ≤ fd
    → open_at s.files (fd - 3) ≡ none
    → sys_close checks (pos fd) s ≡ done (errno bad_f, s)
unfolding sys_close
close_missing checks fd s lo absent = ground arith

-- Opening and then closing the descriptor returned succeeds, and every slot of the table holds what
-- it held before, in either build.
pub sys_close-open :
    (checks : Bool) (path flags fd : ℕ) (s : System) {s' : System} (j : ℕ)
    → sys_open path flags s ≡ (pos fd, s')
    → (s'' : System) × (sys_close checks (pos fd) s' ≡ done (pos 0, s''))
      × (open_at s''.files j ≡ open_at s.files j)
sys_close-open checks path flags fd s {s'} j e =
    let (lo, free, (name, node, read, known, here), rest) =
      sys_open_lem path flags fd s (fd - 3) e in
    let (lo', free', (name', node', read', known', others), rest') =
      sys_open_lem path flags fd s j e in
    let found : open_at s'.files (fd - 3) ≡ some (record { node = node; offset = 0 }) =
      ground arith in
    (
      record s' { files = set s'.files (fd - 3) none },
      close_found checks fd s' lo found,
      ground (arith, open_at-set s'.files (fd - 3) j),
    )

-- Once a descriptor from 3 on is closed, closing it again fails with EBADF and changes nothing, in
-- either build.
sys_close_twice :
    (checks : Bool) (fd : ℕ) (s : System) {s' : System}
    → 3 ≤ fd
    → sys_close checks (pos fd) s ≡ done (pos 0, s')
    → sys_close checks (pos fd) s' ≡ done (errno bad_f, s')
sys_close_twice checks fd s {s'} lo e = elim (Option-cases (open_at s.files (fd - 3))) [
  | inl absent ↦ absurd (ground (arith, close_missing checks fd s lo absent))
  | inr (f, found) ↦
      let closed = close_found checks fd s lo found in
      let now : s' ≡ record s { files = set s.files (fd - 3) none } = ground arith in
      close_missing checks fd s' lo (rw now (ground (arith, open_at-set s.files (fd - 3) (fd - 3))))
]
