-- ===== src/Process/Table.antt =====
-- Lookups in the process table after an update, a removal or an insertion
-- (kernel/src/process/mod.rs, the searches by PID).
use mathlib.Core.Option
use compute_kernel.Common.{
  ℕ, ◌<◌, ◌≡◌, refl, ◌≢◌, Bool, Option, none, some, List, [], ◌∷◌, ◌++◌, arith, ◌==◌, if◌then◌else◌,
  ap, find?, All, Bool-cases, inl, inr,
}
use compute_kernel.Process.{Process, has_pid, update_pid, reparent, remove_first}

abbrev pub pids : List Process → List ℕ
pids [] = []
pids (p ∷ ps) = p.pid ∷ pids ps

-- No two entries are equal.
abbrev pub Distinct : List ℕ → Type 0
Distinct [] = Unit
Distinct (x ∷ xs) = All (λ y. y ≢ x) xs × Distinct xs

-- The process with a PID.
abbrev pub lookup : ℕ → List Process → Option Process
lookup pid table = find? (has_pid pid) table

pub lookup_pid : (i : ℕ) (t : List Process) {p : Process} → lookup i t ≡ some p → p.pid ≡ i
lookup_pid i [] h = cc
lookup_pid i (q ∷ t) {p} h = ground (arith, lookup_pid i t {p = p})

pub lookup-append :
    (i : ℕ) (t : List Process) (p : Process)
    → lookup i (t ++ (p ∷ []))
      ≡ elim (lookup i t) [ some q ↦ some q | none ↦ if p.pid == i then some p else none ]
lookup-append i [] p = ground arith
lookup-append i (q ∷ t) p = ground (arith, lookup-append i t p)

pub lookup-reparent :
    (i j : ℕ) (t : List Process)
    → lookup i (reparent j t)
      ≡ Option.map (λ p. if p.parent_pid == j then record p { parent_pid = 1 } else p) (lookup i t)
unfolding reparent
lookup-reparent i j [] = refl
lookup-reparent i j (q ∷ t) = ground (arith, lookup-reparent i j t)

pub pids-reparent : (j : ℕ) (t : List Process) → pids (reparent j t) ≡ pids t
unfolding reparent
pids-reparent j [] = refl
pids-reparent j (q ∷ t) = ground (arith, pids-reparent j t)

-- An update that leaves the PIDs alone.
module _ (f : Process → Process) (same : (p : Process) → (f p).pid ≡ p.pid) where
  pub lookup-update_pid :
      (i j : ℕ) (t : List Process)
      → lookup i (update_pid j f t) ≡ (if i == j then Option.map f (lookup i t) else lookup i t)
  unfolding update_pid
  lookup-update_pid i j [] = ground arith
  lookup-update_pid i j (q ∷ t) = ground (arith, same q, lookup-update_pid i j t)

  pub pids-update_pid : (j : ℕ) (t : List Process) → pids (update_pid j f t) ≡ pids t
  unfolding update_pid
  pids-update_pid j [] = refl
  pids-update_pid j (q ∷ t) = ground (arith, same q, pids-update_pid j t)

pub pids-append : (t u : List Process) → pids (t ++ u) ≡ pids t ++ pids u
pids-append [] u = refl
pids-append (p ∷ t) u = ap (◌∷◌ p.pid) (pids-append t u)

-- A PID that no process has is not found.
pub lookup_absent : (i : ℕ) (t : List Process) → All (λ x. x ≢ i) (pids t) → lookup i t ≡ none
lookup_absent i [] h = refl
lookup_absent i (p ∷ t) h = ground (arith, lookup_absent i t)

pub absent_of_lookup : (i : ℕ) (t : List Process) → lookup i t ≡ none → All (λ x. x ≢ i) (pids t)
absent_of_lookup i [] h = tt
absent_of_lookup i (p ∷ t) h = elim (Bool-cases (p.pid == i)) [
  | inl same ↦ absurd (ground arith)
  | inr other ↦ (ground arith, absent_of_lookup i t (ground arith))
]

All-remove_first {ℓ} :
    (P : ℕ → Type ℓ) (f : Process → Bool) (t : List Process)
    → All P (pids t)
    → All P (pids (remove_first f t))
unfolding remove_first
All-remove_first P f [] h = tt
All-remove_first P f (p ∷ t) h = elim (Bool-cases (f p)) [
  | inl found ↦ rw found (h.1)
  | inr passed ↦ rw passed (h.0, All-remove_first P f t h.1)
]

pub remove_first-Below :
    (n : ℕ) (f : Process → Bool) (t : List Process)
    → All (λ x. x < n) (pids t)
    → All (λ x. x < n) (pids (remove_first f t))
remove_first-Below n f t h = All-remove_first (λ x. x < n) f t h

pub remove_first-Distinct :
    (f : Process → Bool) (t : List Process) → Distinct (pids t) → Distinct (pids (remove_first f t))
unfolding remove_first
remove_first-Distinct f [] h = tt
remove_first-Distinct f (p ∷ t) h = elim (Bool-cases (f p)) [
  | inl found ↦ rw found (h.1)
  | inr passed ↦
      rw passed (All-remove_first (λ x. x ≢ p.pid) f t h.0, remove_first-Distinct f t h.1)
]

-- What a search returns has what every entry has.
pub find?-All {ℓ} :
    (P : ℕ → Type ℓ) (f : Process → Bool) (t : List Process) {p : Process}
    → All P (pids t)
    → find? f t ≡ some p
    → P p.pid
find?-All P f [] a h = cc
find?-All P f (q ∷ t) {p} a h = elim (Bool-cases (f q)) [
  | inl found ↦ let e : q ≡ p = ground arith in rw (← e) (a.0)
  | inr passed ↦ find?-All P f t {p = p} a.1 (ground arith)
]

-- Removing the first process that passes a test removes exactly the process that `find` returns.
pub lookup-remove_first :
    (f : Process → Bool) (t : List Process) {p : Process}
    → Distinct (pids t)
    → find? f t ≡ some p
    → (i : ℕ) → lookup i (remove_first f t) ≡ (if p.pid == i then none else lookup i t)
unfolding remove_first
lookup-remove_first f [] d h i = cc
lookup-remove_first f (q ∷ t) {p} d h i = elim (Bool-cases (f q)) [
  | inl found ↦ ground (arith, lookup_absent q.pid t d.0)
  | inr passed ↦ ground (
    arith,
    lookup-remove_first f t {p = p} d.1 (ground arith) i,
    find?-All (λ x. x ≢ q.pid) f t {p = p} d.0 (ground arith),
  )
]

pub Distinct-append :
    (n : ℕ) (xs : List ℕ) → All (λ x. x < n) xs → Distinct xs → Distinct (xs ++ (n ∷ []))
Distinct-append n [] h d = (tt, tt)
Distinct-append n (x ∷ xs) h d = (end xs d.0, Distinct-append n xs h.1 d.1)
  where
    end : (ys : List ℕ) → All (λ y. y ≢ x) ys → All (λ y. y ≢ x) (ys ++ (n ∷ []))
    end [] e = (omega (arith, h.0), tt)
    end (y ∷ ys) e = (e.0, end ys e.1)
