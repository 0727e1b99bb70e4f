-- ===== src/Process/Signal.antt =====
-- Signals: kernel/src/process/signal.rs. A pending mask is a u32.
use compute_kernel.Common.{
  ℕ, ◌+◌, ◌^◌, bit_and, bit_or, Bool, not, Option, none, some, ltb, ◌==◌, if◌then◌else◌, find?,
}
use compute_kernel.Process.{Process, Kernel, zombie, has_pid, update_pid}

abbrev pub sighup : ℕ
sighup = 1

abbrev pub sigint : ℕ
sigint = 2

abbrev pub sigquit : ℕ
sigquit = 3

abbrev pub sigill : ℕ
sigill = 4

abbrev pub sigtrap : ℕ
sigtrap = 5

abbrev pub sigabrt : ℕ
sigabrt = 6

abbrev pub sigfpe : ℕ
sigfpe = 8

abbrev pub sigkill : ℕ
sigkill = 9

abbrev pub sigsegv : ℕ
sigsegv = 11

abbrev pub sigpipe : ℕ
sigpipe = 13

abbrev pub sigalrm : ℕ
sigalrm = 14

abbrev pub sigterm : ℕ
sigterm = 15

abbrev pub sigchld : ℕ
sigchld = 17

abbrev pub sigstop : ℕ
sigstop = 19

abbrev pub sigcont : ℕ
sigcont = 18

-- `SigAction`: the default, nothing, or a handler's address. Nothing in the code sets one.
pub data SigAction : Type 0 where
  default_action ignore : SigAction
  handler : ℕ → SigAction

pub data KillResult : Type 0 where
  sent invalid_signal no_process : KillResult

-- `proc.pending_signals |= 1u32 << sig`.
abbrev pub add_signal : ℕ → Process → Process
add_signal sig p = record p { pending_signals = bit_or p.pending_signals (2 ^ sig) }

unfoldable pub kill : ℕ → ℕ → Kernel → KillResult × Kernel
kill pid sig k = if ltb 31 sig then (invalid_signal, k) else elim (find? (has_pid pid) k.table) [
  | none ↦ (no_process, k)
  | some _ ↦
      (sent, if sig == 0 then k else record k { table = update_pid pid (add_signal sig) k.table })
]

-- `pending & (1u32 << sig) != 0`.
abbrev pub is_pending : ℕ → ℕ → Bool
is_pending sig mask = not (bit_and mask (2 ^ sig) == 0)

-- The signal that ends the process, by the order in which the code asks.
unfoldable pub terminating_sig : ℕ → Option ℕ
terminating_sig mask =
    if is_pending sigkill mask
    then some sigkill
    else if is_pending sigterm mask
    then some sigterm
    else if is_pending sigint mask
    then some sigint
    else if is_pending sigquit mask
    then some sigquit
    else none

-- What `dispatch_signals` does to the process that it finds.
unfoldable pub deliver : Process → Process
deliver p = if p.pending_signals == 0 then p else elim (terminating_sig p.pending_signals) [
  | some sig ↦ record p { state = zombie; exit_code = 128 + sig; pending_signals = 0 }
  | none ↦ record p { pending_signals = 0 }
]

unfoldable pub dispatch_signals : ℕ → Kernel → Kernel
dispatch_signals pid k = record k { table = update_pid pid deliver k.table }
