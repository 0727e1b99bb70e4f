-- ===== src/Process/Delivery.antt =====
-- Sending and delivering signals (kernel/src/process/signal.rs): what `kill` does to the pending
-- mask, bit by bit, and what the default actions do with a mask.
use native.Mathlib.Nat.{one-le-pow}
use compute_kernel.Common.{
  ℕ, zero, suc, ◌*◌, ◌^◌, ◌≤◌, ◌<◌, ◌≡◌, refl, ◌≢◌, Bool, true, not, ◌||◌, none, some, arith, ◌==◌,
  if◌then◌else◌, bit_and, nth_bit, nth_bit-le, nth_bit-zero, nth_bit-bit_or, nth_bit-pow_self,
  nth_bit-pow_ne, bit_and-pow, Bool-cases, inl, inr,
}
use compute_kernel.Process.{Process, Kernel, zombie, update_pid}
use compute_kernel.Process.Signal.{
  sent, kill, add_signal, is_pending, terminating_sig, deliver, dispatch_signals, sigkill, sigterm,
  sigint, sigquit,
}
use compute_kernel.Process.Table.{lookup, lookup-update_pid}
use compute_kernel.Process.Pids.{pid-deliver}

-- The code's test of a mask is the value of one bit. (`w` is that bit's place value.)
is_pending_place : (b w m : ℕ) → b ≤ 1 → 0 < w → m ≡ b * w → not (m == 0) ≡ (b == 1)
is_pending_place zero w m h p e = let none_set : m ≡ 0 = omega arith in ground arith
is_pending_place (suc zero) w m h p e = let place : m ≡ w = omega arith in ground arith
is_pending_place (suc (suc b)) w m h p e = absurd (omega arith)

is_pending-nth_bit : (sig m : ℕ) → is_pending sig m ≡ (nth_bit sig m == 1)
is_pending-nth_bit sig m =
    is_pending_place (nth_bit sig m) (2 ^ sig) (bit_and m (2 ^ sig)) (nth_bit-le sig m)
      (one-le-pow sig 2 (omega arith)) (bit_and-pow sig m)

-- Whether a process has a signal pending.
abbrev pub is_set : ℕ → Process → Bool
is_set sig p = nth_bit sig p.pending_signals == 1

terminating_sig_lem :
    (m : ℕ)
    → terminating_sig m ≡ (
        if nth_bit sigkill m == 1
        then some sigkill
        else if nth_bit sigterm m == 1
        then some sigterm
        else if nth_bit sigint m == 1
        then some sigint
        else if nth_bit sigquit m == 1
        then some sigquit
        else none)
unfolding terminating_sig
terminating_sig_lem m = rw (
  is_pending-nth_bit sigkill m,
  is_pending-nth_bit sigterm m,
  is_pending-nth_bit sigint m,
  is_pending-nth_bit sigquit m,
)

clear : (sig m : ℕ) → m ≡ 0 → nth_bit sig m ≡ 0
clear sig m e = rw e (nth_bit-zero sig)

-- Delivery empties the mask. SIGKILL, SIGTERM, SIGINT and SIGQUIT, in this order, make the process a
-- zombie with exit code 128 + the signal; with none of them set, state and exit code stay.
pub deliver_lem :
    (p : Process)
    → ((deliver p).pending_signals ≡ 0)
      × ((deliver p).state ≡ (
          if is_set sigkill p || (is_set sigterm p || (is_set sigint p || is_set sigquit p))
          then zombie
          else p.state))
      × ((deliver p).exit_code ≡ (
          if is_set sigkill p
          then 137
          else if is_set sigterm p
          then 143
          else if is_set sigint p
          then 130
          else if is_set sigquit p
          then 131
          else p.exit_code))
unfolding deliver
deliver_lem p = elim (Bool-cases (p.pending_signals == 0)) [
  | inl empty ↦ ground (
    arith,
    clear sigkill p.pending_signals,
    clear sigterm p.pending_signals,
    clear sigint p.pending_signals,
    clear sigquit p.pending_signals,
  )
  | inr some_set ↦ ground (arith, terminating_sig_lem p.pending_signals)
]

-- `kill` with a signal from 1 to 31 sets exactly that bit of the receiver's mask: every other bit,
-- every other process and the current PID stay.
kill_sets_bit :
    (pid sig : ℕ) (k : Kernel) {p : Process} (bit i : ℕ)
    → lookup pid k.table ≡ some p
    → sig ≢ 0
    → sig ≤ 31
    → let (result, k') = kill pid sig k in
      (result ≡ sent)
      × (lookup i k'.table ≡ (if i == pid then some (add_signal sig p) else lookup i k.table))
      × (nth_bit bit (add_signal sig p).pending_signals
          ≡ (if bit == sig then 1 else nth_bit bit p.pending_signals))
      × (k'.current_pid ≡ k.current_pid)
unfolding kill
kill_sets_bit pid sig k {p} bit i found some_sig small = ground (
  arith,
  lookup-update_pid (add_signal sig) (λ q. refl) i pid k.table,
  nth_bit-bit_or bit p.pending_signals (2 ^ sig),
  nth_bit-pow_self sig,
  nth_bit-pow_ne bit sig,
  nth_bit-le bit p.pending_signals,
)

set_after_kill : (sig : ℕ) (p : Process) → is_set sig (add_signal sig p) ≡ true
set_after_kill sig p = ground (
  arith,
  nth_bit-bit_or sig p.pending_signals (2 ^ sig),
  nth_bit-pow_self sig,
  nth_bit-le sig p.pending_signals,
)

deliver_killed :
    (q : Process)
    → is_set sigkill q ≡ true
    → deliver q ≡ record q { state = zombie; exit_code = 137; pending_signals = 0 }
unfolding deliver
deliver_killed q h =
    ground (arith, terminating_sig_lem q.pending_signals, clear sigkill q.pending_signals)

-- SIGKILL is always fatal: sent to a process that is there, whatever else is pending, it makes that
-- process a zombie with exit code 137 and an empty mask when its signals are next dispatched.
pub kill-dispatch_fatal :
    (pid : ℕ) (k : Kernel) {p : Process}
    → lookup pid k.table ≡ some p
    → lookup pid (dispatch_signals pid (kill pid sigkill k).1).table
      ≡ some (record p { state = zombie; exit_code = 137; pending_signals = 0 })
unfolding dispatch_signals kill
kill-dispatch_fatal pid k {p} found = ground (
  arith,
  lookup-update_pid (add_signal sigkill) (λ q. refl) pid pid k.table,
  lookup-update_pid deliver pid-deliver pid pid (update_pid pid (add_signal sigkill) k.table),
  deliver_killed (add_signal sigkill p),
  set_after_kill sigkill p,
)
