-- ===== src/Interrupts/Tests.antt =====
-- The interrupt handlers (kernel/src/arch/x86_64/interrupts.rs) on the machine at boot.
use compute_kernel.Common.{ℕ, ◌≡◌, Option, some, [], ◌∷◌, done, refl}
use compute_kernel.Process.{boot, update_pid}
use compute_kernel.Process.Signal.{dispatch_signals}
use compute_kernel.Process.Scheduler.{tick}
use compute_kernel.Drivers.Keyboard.{new, DecodedKey, unicode}
use compute_kernel.Interrupts.{timer, as_u8, Machine, handle, timer_interrupt}

-- A decoder without a state, which takes a scancode for the character.
abbrev decoder : Unit {0} → ℕ → Option DecodedKey × Unit {0}
decoder d scancode = (some (unicode scancode), d)

abbrev machine : Machine (Unit {0})
machine = record { kernel = boot; decoder = tt; keys = new; ended = [] }

-- The timer's interrupt at boot counts a tick and tells the PIC its end.
timer_ticks :
    handle decoder 0x1e timer_interrupt machine
    ≡ done (record machine { kernel = record boot { ticks = 1 }; ended = as_u8 timer ∷ [] })
unfolding handle tick dispatch_signals update_pid
timer_ticks = refl
