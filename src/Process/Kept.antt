-- ===== src/Process/Kept.antt =====
-- What holds of every process of the table (kernel/src/process/mod.rs) and is kept by its updates.
use compute_kernel.Common.{
  ℕ, ◌==◌, ◌≡◌, Bool, some, List, [], ◌∷◌, arith, All, find?, Bool-cases, inl, inr,
}
use mathlib.Core.Path.{subst}
use compute_kernel.Process.{Process, update_pid, remove_first, reparent}

-- The operations on the table keep what holds of every process.
module _ (P : Process → Type 0) where
  pub update_pid-All :
      (f : Process → Process)
      → ((p : Process) → P p → P (f p))
      → (pid : ℕ) (t : List Process) → All P t
      → All P (update_pid pid f t)
  unfolding update_pid
  update_pid-All f keeps pid [] h = tt
  update_pid-All f keeps pid (p ∷ t) h = elim (Bool-cases (p.pid == pid)) [
    | inl e ↦ rw e (keeps p h.0, h.1)
    | inr e ↦ rw e (h.0, update_pid-All f keeps pid t h.1)
  ]

  pub remove_first-All :
      (f : Process → Bool) (t : List Process) → All P t → All P (remove_first f t)
  unfolding remove_first
  remove_first-All f [] h = tt
  remove_first-All f (p ∷ t) h = elim (Bool-cases (f p)) [
    | inl e ↦ rw e (h.1)
    | inr e ↦ rw e (h.0, remove_first-All f t h.1)
  ]

  pub find-All :
      (f : Process → Bool) (t : List Process) {p : Process} → All P t → find? f t ≡ some p → P p
  find-All f [] h e = cc
  find-All f (q ∷ t) {p} h e = elim (Bool-cases (f q)) [
    | inl here_it_is ↦ let same : q ≡ p = ground (arith, here_it_is, e) in subst P same (h.0)
    | inr further ↦
        find-All f t h.1 (let rest : find? f t ≡ some p = ground (arith, further, e) in rest)
  ]

  pub reparent-All :
      ((p : Process) → P p → P (record p { parent_pid = 1 }))
      → (pid : ℕ) (t : List Process) → All P t
      → All P (reparent pid t)
  unfolding reparent
  reparent-All keeps pid [] h = tt
  reparent-All keeps pid (p ∷ t) h = elim (Bool-cases (p.parent_pid == pid)) [
    | inl e ↦ rw e (keeps p h.0, reparent-All keeps pid t h.1)
    | inr e ↦ rw e (h.0, reparent-All keeps pid t h.1)
  ]
