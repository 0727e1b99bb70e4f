-- ===== src/Process/RoundRobin.antt =====
-- The scheduling decision of kernel/src/process/scheduler.rs against a search of the rotated table.
use native.Mathlib.Nat.{mod-eq_of_lt, mod-eq-sub-mod}
use compute_kernel.Common.{
  ℕ, zero, suc, ◌+◌, ◌-◌, ◌%◌, ◌≤◌, ◌<◌, ◌≡◌, refl, sym, ap, ◌∙◌, Bool, Option, none, some, List,
  [], ◌∷◌, ◌++◌, arith, ◌==◌, if◌then◌else◌, length, get_elem?, take, drop, find?, length-append,
  length-take, length-drop, drop_all, get_elem?-some, get_elem?-append_left, Option-cases,
  Bool-cases, inl, inr, ltb,
}
use compute_kernel.Process.{Process, Kernel, has_pid}
use compute_kernel.Process.Scheduler.{is_runnable, position?, start_slot, next_runnable, schedule}

-- The table from the slot behind `s` on, going round: the order in which round robin asks.
abbrev pub rotation : ℕ → List Process → List Process
rotation s t = drop (suc s) t ++ take (suc s) t

get_elem?-drop {ℓ} :
    {A : Type ℓ} (m : ℕ) (xs : List A) (j : ℕ) → get_elem? (drop m xs) j ≡ get_elem? xs (m + j)
get_elem?-drop zero xs j = ap (get_elem? xs) (omega arith)
get_elem?-drop (suc m) [] j = refl
get_elem?-drop (suc m) (x ∷ xs) j =
    get_elem?-drop m xs j
    ∙ ap (get_elem? (x ∷ xs)) (let e : suc (m + j) ≡ suc m + j = omega arith in e)

get_elem?-take {ℓ} :
    {A : Type ℓ} (m : ℕ) (xs : List A) (j : ℕ) → j < m → get_elem? (take m xs) j ≡ get_elem? xs j
get_elem?-take zero xs j h = elim h [ ]
get_elem?-take (suc m) [] j h = refl
get_elem?-take (suc m) (x ∷ xs) zero h = refl
get_elem?-take (suc m) (x ∷ xs) (suc j) h = get_elem?-take m xs j (omega arith)

get_elem?-append_right {ℓ} :
    {A : Type ℓ} (xs ys : List A) (j : ℕ)
    → length xs ≤ j
    → get_elem? (xs ++ ys) j ≡ get_elem? ys (j - length xs)
get_elem?-append_right [] ys j h = ap (get_elem? ys) (omega arith)
get_elem?-append_right (x ∷ xs) ys zero h = absurd (omega arith)
get_elem?-append_right (x ∷ xs) ys (suc j) h =
    get_elem?-append_right xs ys j (omega arith) ∙ ap (get_elem? ys) (omega arith)

drop-eq-cons {ℓ} :
    {A : Type ℓ} (xs : List A) (j : ℕ) {a : A}
    → get_elem? xs j ≡ some a
    → drop j xs ≡ a ∷ drop (suc j) xs
drop-eq-cons [] j h = cc
drop-eq-cons (x ∷ xs) zero h = cc
drop-eq-cons (x ∷ xs) (suc j) h = drop-eq-cons xs j h

-- Entry `j` of the rotation is the table's entry `j + 1` slots on, modulo its length.
get_elem?-rotation :
    (t : List Process) (s j : ℕ)
    → s < length t
    → j < length t
    → get_elem? (rotation s t) j ≡ get_elem? t ((s + (j + 1)) % length t)
get_elem?-rotation t s j hs hj = elim (Bool-cases (ltb (s + (j + 1)) (length t))) [
  | inl before ↦
      let small : s + (j + 1) < length t = ground arith in
      get_elem?-append_left (drop (suc s) t) (take (suc s) t) j
        (omega (arith, length-drop (suc s) t))
      ∙ get_elem?-drop (suc s) t j
      ∙ ap (get_elem? t) (omega (arith, mod-eq_of_lt small))
  | inr after ↦
      let large : length t ≤ s + (j + 1) = ground arith in
      let rest : s + (j + 1) - length t < length t = omega arith in
      get_elem?-append_right (drop (suc s) t) (take (suc s) t) j
        (omega (arith, length-drop (suc s) t))
      ∙ get_elem?-take (suc s) t (j - length (drop (suc s) t))
          (omega (arith, length-drop (suc s) t))
      ∙ ap (get_elem? t)
          (omega (arith, length-drop (suc s) t, mod-eq-sub-mod large, mod-eq_of_lt rest))
]

length-rotation : (t : List Process) (s : ℕ) → s < length t → length (rotation s t) ≡ length t
length-rotation t s h = omega (
  arith,
  length-append (drop (suc s) t) (take (suc s) t),
  length-drop (suc s) t,
  length-take (suc s) t,
)

abbrev pub pid? : Option Process → Option ℕ
pid? none = none
pid? (some p) = some p.pid

found_here :
    (p : Process) (rest : List Process)
    → (if is_runnable p then some p.pid else pid? (find? is_runnable rest))
      ≡ pid? (find? is_runnable (p ∷ rest))
found_here p rest = ground arith

-- The loop finds what a search of the rotation finds; `j` rounds are done.
next_runnable-eq-find :
    (t : List Process) (s rounds j i : ℕ)
    → s < length t
    → j + rounds ≡ length t
    → i ≡ j + 1
    → next_runnable t s i rounds ≡ pid? (find? is_runnable (drop j (rotation s t)))
unfolding next_runnable
next_runnable-eq-find t s zero j i hs hj hi =
    rw (drop_all (rotation s t) j (omega (arith, length-rotation t s hs)))
next_runnable-eq-find t s (suc rounds) j i hs hj hi =
    let later = next_runnable-eq-find t s rounds (suc j) (i + 1) hs (omega arith) (omega arith) in
    let slot : get_elem? t ((s + i) % length t) ≡ get_elem? (rotation s t) j =
      ap (λ (x : ℕ). get_elem? t ((s + x) % length t)) hi
      ∙ sym (get_elem?-rotation t s j hs (omega arith)) in
    elim (Option-cases (get_elem? (rotation s t) j)) [
      | inl outside ↦
          let (p, inside) =
            get_elem?-some (rotation s t) j (omega (arith, length-rotation t s hs)) in
          absurd (ground arith)
      | inr (p, at) ↦
          let split : drop j (rotation s t) ≡ p ∷ drop (suc j) (rotation s t) =
            drop-eq-cons (rotation s t) j at in
          rw (slot, next_runnable, at, split, later) (found_here p (drop (suc j) (rotation s t)))
    ]

position?_lt {ℓ} :
    {A : Type ℓ} (f : A → Bool) (xs : List A) {i : ℕ} → position? f xs ≡ some i → i < length xs
position?_lt f [] h = cc
position?_lt f (x ∷ xs) {i} h = elim (Option-cases (position? f xs)) [
  | inl absent ↦ ground arith
  | inr (j, found) ↦ ground (arith, position?_lt f xs {i = j} found)
]

pub start_slot_lt :
    (current : ℕ) (t : List Process) → 0 < length t → start_slot current t < length t
unfolding start_slot
start_slot_lt current t h = elim (Option-cases (position? (has_pid current) t)) [
  | inl absent ↦ ground arith
  | inr (j, found) ↦ ground (arith, position?_lt (has_pid current) t {i = j} found)
]

decided :
    (k : Kernel) (o : Option Process)
    → elim (pid? o) as (λ o. Kernel) [ none ↦ k | some pid ↦ record k { current_pid = pid } ]
      ≡ elim o as (λ o. Kernel) [ none ↦ k | some p ↦ record k { current_pid = p.pid } ]
decided k none = refl
decided k (some p) = refl

-- A decision of the scheduler changes nothing but the current PID. With an empty table that becomes
-- 0; otherwise it becomes that of the first runnable process in the table read from the slot behind
-- the current process round to the current process itself, and stays if none is runnable.
pub schedule-eq-find :
    (k : Kernel)
    → schedule k ≡ (
        if length k.table == 0
        then record k { current_pid = 0 }
        else elim (find? is_runnable (rotation (start_slot k.current_pid k.table) k.table))
            as (λ o. Kernel) [ none ↦ k | some p ↦ record k { current_pid = p.pid } ])
unfolding schedule
schedule-eq-find k = elim (Bool-cases (length k.table == 0)) [
  | inl empty ↦ rw empty
  | inr filled ↦
      let pos : 0 < length k.table = ground arith in
      let s = start_slot k.current_pid k.table in
      let loop =
        next_runnable-eq-find k.table s (length k.table) 0 1
          (start_slot_lt k.current_pid k.table pos) (omega arith) (omega arith) in
      rw (filled, loop, schedule) (decided k (find? is_runnable (rotation s k.table)))
]
