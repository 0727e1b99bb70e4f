-- ===== src/Process/Fairness.antt =====
-- Repeated decisions of the scheduler (kernel/src/process/scheduler.rs): when a runnable process's
-- turn comes.
use native.Mathlib.Nat.{mod-eq_of_lt, mod-add-mod}
use compute_kernel.Common.{
  ℕ, zero, suc, ◌+◌, ◌-◌, ◌%◌, ◌≤◌, ◌<◌, ◌≡◌, sym, ap, ◌∙◌, ◌≢◌, true, false, some, List, [], ◌∷◌,
  arith, ◌==◌, length, get_elem?, All, get_elem?-some, Bool-cases, inl, inr, ltb,
}
use compute_kernel.Process.{Process, Kernel, has_pid}
use compute_kernel.Process.Scheduler.{is_runnable, position?, start_slot, next_runnable, schedule}
use compute_kernel.Process.Table.{lookup, pids, Distinct}
use compute_kernel.Process.Pids.{IsValid}
use compute_kernel.Process.RoundRobin.{start_slot_lt}

-- The loop stops no later than at a runnable slot that lies ahead of it.
stops_by :
    (t : List Process) (s rounds i j : ℕ) {p : Process}
    → 0 < length t
    → get_elem? t ((s + j) % length t) ≡ some p
    → is_runnable p ≡ true
    → i ≤ j
    → j < i + rounds
    → (e : ℕ) × (q : Process) × (i ≤ e)
      × (e ≤ j)
      × (get_elem? t ((s + e) % length t) ≡ some q)
      × (next_runnable t s i rounds ≡ some q.pid)
unfolding next_runnable
stops_by t s zero i j pos at run lo hi = absurd (omega arith)
stops_by t s (suc rounds) i j {p} pos at run lo hi =
    let (q, here) = get_elem?-some t ((s + i) % length t) (omega arith) in
    elim (Bool-cases (is_runnable q)) [
      | inl runs ↦ (i, q, omega arith, lo, here, rw (here, next_runnable, runs))
      | inr sleeps ↦
          let ahead : i ≢ j = λ same. later_slot q same here sleeps in
          let (e, r, lo', hi', at', found) =
            stops_by t s rounds (i + 1) j pos at run (omega arith) (omega arith) in
          (e, r, omega arith, hi', at', rw (here, next_runnable, sleeps) found)
    ]
  where
    later_slot :
        (q : Process)
        → i ≡ j
        → get_elem? t ((s + i) % length t) ≡ some q
        → is_runnable q ≡ false
        → ⊥
    later_slot q same here sleeps =
        let twice : get_elem? t ((s + i) % length t) ≡ some p = rw same at in
        let alike : q ≡ p = ground arith in ground (arith, ap is_runnable alike)

All-get {ℓ} :
    (P : ℕ → Type ℓ) (t : List Process) (x : ℕ) {q : Process}
    → All P (pids t)
    → get_elem? t x ≡ some q
    → P q.pid
All-get P [] x a h = cc
All-get P (p ∷ t) zero {q} a h = let e : p ≡ q = ground arith in rw (← e) (a.0)
All-get P (p ∷ t) (suc x) a h = All-get P t x a.1 h

-- In a table of unique PIDs a process is found in its own slot.
position?_self :
    (t : List Process) (x : ℕ) {q : Process}
    → Distinct (pids t)
    → get_elem? t x ≡ some q
    → position? (has_pid q.pid) t ≡ some x
position?_self [] x d h = cc
position?_self (p ∷ t) zero d h = ground arith
position?_self (p ∷ t) (suc x) {q} d h =
    ground (arith, position?_self t x {q = q} d.1 h, All-get (λ y. y ≢ p.pid) t x {q = q} d.0 h)

-- `m` scheduling decisions in a row.
pub schedule_times : ℕ → Kernel → Kernel
schedule_times zero k = k
schedule_times (suc m) k = schedule_times m (schedule k)

schedule_to :
    (k : Kernel) {pid : ℕ}
    → 0 < length k.table
    → next_runnable k.table (start_slot k.current_pid k.table) 1 (length k.table) ≡ some pid
    → schedule k ≡ record k { current_pid = pid }
unfolding schedule
schedule_to k pos found = ground arith

start_slot_self :
    (t : List Process) (x : ℕ) {q : Process}
    → Distinct (pids t)
    → get_elem? t x ≡ some q
    → start_slot q.pid t ≡ x
unfolding start_slot
start_slot_self t x {q} d h = rw (position?_self t x {q = q} d h, start_slot)

-- Going on from a slot `e` ahead leaves `j - e` to go.
slot_ahead : (s e j n : ℕ) → e ≤ j → ((s + e) % n + (j - e)) % n ≡ (s + j) % n
slot_ahead s e j n h = mod-add-mod (s + e) n (j - e) ∙ ap (λ (x : ℕ). x % n) (omega arith)

one_more :
    (m : ℕ) (k : Kernel) {k' : Kernel} {pid : ℕ}
    → schedule k ≡ k'
    → (schedule_times m k').current_pid ≡ pid
    → (schedule_times (suc m) k).current_pid ≡ pid
unfolding schedule_times
one_more m k decides runs = ap (λ (z : Kernel). (schedule_times m z).current_pid) decides ∙ runs

-- A runnable process `j` slots ahead runs within `j` decisions.
reached :
    (fuel j : ℕ) (k : Kernel) {p : Process}
    → Distinct (pids k.table)
    → get_elem? k.table ((start_slot k.current_pid k.table + j) % length k.table) ≡ some p
    → is_runnable p ≡ true
    → 0 < j
    → j ≤ length k.table
    → j ≤ fuel
    → (m : ℕ) × (0 < m) × (m ≤ j) × ((schedule_times m k).current_pid ≡ p.pid)
unfolding schedule_times
reached zero j k d at run lo hi f = absurd (omega arith)
reached (suc fuel) j k {p} d at run lo hi f =
    let n = length k.table in
    let s = start_slot k.current_pid k.table in
    let pos : 0 < n = omega arith in
    let (e, q, e_lo, e_hi, here, found) = stops_by k.table s n 1 j pos at run lo (omega arith) in
    let decides : schedule k ≡ record k { current_pid = q.pid } = schedule_to k pos found in
    elim (Bool-cases (e == j)) [
      | inl same ↦
          let e_is_j : e ≡ j = ground arith in
          let alike : some q ≡ some p =
            sym here ∙ ap (λ (x : ℕ). get_elem? k.table ((s + x) % n)) e_is_j ∙ at in
          (1, omega arith, lo, one_more 0 k decides (ground arith))
      | inr short ↦
          let e_lt_j : e < j = ground arith in
          let new_slot : start_slot q.pid k.table ≡ (s + e) % n =
            start_slot_self k.table ((s + e) % n) {q = q} d here in
          let ahead : get_elem? k.table ((start_slot q.pid k.table + (j - e)) % n) ≡ some p =
            rw new_slot (ap (get_elem? k.table) (slot_ahead s e j n e_hi) ∙ at) in
          let (m, m_lo, m_hi, runs) =
            reached fuel (j - e) (record k { current_pid = q.pid }) {p = p} d ahead run
              (omega arith) (omega arith) (omega arith) in
          (suc m, omega arith, omega arith, one_more m k decides runs)
    ]

slot_of_lookup :
    (t : List Process) (c : ℕ) {p : Process}
    → lookup c t ≡ some p
    → (x : ℕ) × (x < length t) × (get_elem? t x ≡ some p)
slot_of_lookup [] c h = cc
slot_of_lookup (q ∷ t) c {p} h = elim (Bool-cases (q.pid == c)) [
  | inl same ↦ (0, omega arith, ground arith)
  | inr other ↦
      let (x, lt, at) = slot_of_lookup t c {p = p} (ground arith) in (suc x, omega arith, at)
]

-- Every slot lies between one step and one turn ahead of any other.
distance : (s x n : ℕ) → s < n → x < n → (j : ℕ) × (0 < j) × (j ≤ n) × ((s + j) % n ≡ x)
distance s x n hs hx = elim (Bool-cases (ltb s x)) [
  | inl ahead ↦ (
    x - s,
    ground arith,
    omega arith,
    let e : s + (x - s) ≡ x = ground arith in rw e (mod-eq_of_lt hx),
  )
  | inr behind ↦
      let e : s + (x + n - s) ≡ x + n = omega arith in
      (x + n - s, ground arith, ground arith, rw e (grind arith))
]

-- Under a table of unique PIDs that does not change, every runnable process becomes the current one
-- within as many scheduling decisions as the table has entries.
pub schedule_fair :
    (c : ℕ) (k : Kernel) {p : Process}
    → IsValid k
    → lookup c k.table ≡ some p
    → is_runnable p ≡ true
    → (m : ℕ) × (0 < m) × (m ≤ length k.table) × ((schedule_times m k).current_pid ≡ p.pid)
schedule_fair c k {p} v found run =
    let (x, x_lt, at) = slot_of_lookup k.table c {p = p} found in
    let n = length k.table in
    let s = start_slot k.current_pid k.table in
    let (j, lo, hi, slot) =
      distance s x n (start_slot_lt k.current_pid k.table (omega arith)) x_lt in
    let (m, m_lo, m_hi, runs) =
      reached j j k {p = p} v.distinct (rw slot at) run lo hi (omega arith) in
    (m, m_lo, omega arith, runs)
