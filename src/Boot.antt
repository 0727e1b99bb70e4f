-- ===== src/Boot.antt =====
-- The start of the kernel: kernel/src/main.rs. `kernel_main` is the list of its calls, each a stage
-- that changes the state of the start-up or panics. The crates' parts are parameters, as in the
-- modules of the parts: the serial port, the descriptor tables, the PICs, the mapper of pages, the
-- PCI configuration space and the scancode decoder. The heap does not run out of room.
pub mod Stages
pub mod SetUp
pub mod Interrupted
pub mod Enabling
pub mod Starting
mod Tests
use compute_kernel.Common.{
  ℕ, Bool, true, false, Option, none, some, List, [], ◌∷◌, ◌++◌, codes, if◌then◌else◌, Outcome,
  done, panic, ◌>>=◌,
}
use compute_kernel.Process.{Kernel, boot}
use compute_kernel.Process as Process
use compute_kernel.Memory.{MemoryRegion, BootInfoFrameAllocator, HeapResult, memory_init}
use compute_kernel.Segments.{build_tss, TaskState, Tables, Segments, unset}
use compute_kernel.Segments as Segments
use compute_kernel.Interrupts.{ChainedPics, Machine, init_pics, both_pics, idt, handle}
use compute_kernel.Drivers.Serial.{Uart, serial_println, serial1}
use compute_kernel.Drivers.Serial as Serial
use compute_kernel.Drivers.Vga.{Vga, println, writer}
use compute_kernel.Drivers.Vga as Vga
use compute_kernel.Drivers.Pci.{enumerate}
use compute_kernel.Drivers.Pci.Listing.{dash}
use compute_kernel.Drivers.Pci.Listing as Listing
use compute_kernel.Drivers.Keyboard.{KeyBuffer, DecodedKey}
use compute_kernel.Drivers.Keyboard as Keyboard

-- `BootInfo`, as far as the kernel reads it.
pub record BootInfo : Type 0 where
  pub physical_memory_offset : Option ℕ
  pub memory_regions : List MemoryRegion

-- The crates' parts, and what the hardware holds.
pub record Platform (Port Table Selector Pics Mapper Decoder : Type 0) : Type 0 where
  pub uart : Uart Port
  pub tables : Tables Table Selector
  pub new_tss : TaskState
  pub virt_add : ℕ → ℕ → Outcome ℕ
  pub double_fault_stack : ℕ
  pub gpf_stack : ℕ
  pub pics : ChainedPics Pics
  pub containing_address : ℕ → ℕ
  pub map_to : ℕ → ℕ → Mapper → BootInfoFrameAllocator → HeapResult Mapper
  pub pages_between : ℕ → ℕ → List ℕ
  pub mapper_at : ℕ → Mapper
  pub config : ℕ → ℕ
  pub fresh_decoder : Decoder
  pub add_scancode : Decoder → ℕ → Option DecodedKey × Decoder

-- The state that the stages change; `heap` is the mapper after the heap has been mapped and given to
-- the allocator, `ended` the vectors whose end has been told to the PIC.
pub record Startup (Port Table Selector Pics Mapper Decoder : Type 0) : Type 0 where
  pub serial : Port
  pub screen : Vga
  pub segments : Segments Table Selector
  pub idt_loaded : Bool
  pub pics : Pics
  pub heap : Option Mapper
  pub decoder : Option Decoder
  pub kernel : Kernel
  pub keys : KeyBuffer
  pub ended : List ℕ
  pub interrupts_on : Bool

-- The calls of `kernel_main`: `log` and `print` are `serial_println!` and `kprintln!`.
pub data Stage : Type 0 where
  serial_init vga_init gdt_init idt_init pics_init memory_stage pci_init keyboard_init process_init
        enable :
      Stage
  log print : List ℕ → Stage

unfoldable pub stages : List Stage
stages =
    serial_init
    ∷ log (10 ∷ codes "[BOOT] ComputeKERNEL v1.0.0 booting...")
    ∷ vga_init
    ∷ print (codes "ComputeKERNEL v1.0.0")
    ∷ log (codes "[BOOT] Initializing GDT...")
    ∷ gdt_init
    ∷ log (codes "[OK]   GDT initialized")
    ∷ log (codes "[BOOT] Initializing IDT...")
    ∷ idt_init
    ∷ log (codes "[OK]   IDT initialized")
    ∷ log (codes "[BOOT] Initializing PIC...")
    ∷ pics_init
    ∷ log (codes "[OK]   PIC initialized")
    ∷ log (codes "[BOOT] Initializing memory management...")
    ∷ memory_stage
    ∷ log (codes "[OK]   Memory management initialized")
    ∷ log (codes "[BOOT] Initializing PCI bus...")
    ∷ pci_init
    ∷ log (codes "[OK]   PCI bus enumerated")
    ∷ log (codes "[BOOT] Initializing keyboard...")
    ∷ keyboard_init
    ∷ log (codes "[OK]   Keyboard initialized")
    ∷ log (codes "[BOOT] Initializing scheduler...")
    ∷ process_init
    ∷ log (codes "[OK]   Scheduler initialized")
    ∷ enable
    ∷ log (codes "[OK]   Interrupts enabled")
    ∷ log (codes "[BOOT] ComputeKERNEL v1.0.0 ready " ++ (dash ++ codes " starting shell"))
    ∷ []

-- The statics and registers when the boot loader calls `kernel_main`, over the screen's memory as it
-- stands.
abbrev pub at_entry :
    {Port Table Selector Pics Mapper Decoder : Type 0}
    → Platform Port Table Selector Pics Mapper Decoder
    → (ℕ → ℕ)
    → Startup Port Table Selector Pics Mapper Decoder
at_entry platform memory = record {
  serial = serial1 platform.uart;
  screen = writer memory;
  segments = unset;
  idt_loaded = false;
  pics = both_pics platform.pics;
  heap = none;
  decoder = none;
  kernel = boot;
  keys = Keyboard.new;
  ended = [];
  interrupts_on = false;
}

-- The task state that the static TSS is made of.
abbrev pub task_state :
    {Port Table Selector Pics Mapper Decoder : Type 0}
    → Platform Port Table Selector Pics Mapper Decoder
    → Outcome TaskState
task_state platform =
    build_tss platform.new_tss platform.virt_add platform.double_fault_stack platform.gpf_stack

module _ {Port Table Selector Pics Mapper Decoder : Type 0}
    (platform : Platform Port Table Selector Pics Mapper Decoder) (boot_info : BootInfo) where
  -- An allocation: before the heap is there it fails, and `alloc_error_handler` panics.
  abbrev pub allocated :
      Startup Port Table Selector Pics Mapper Decoder
      → Outcome (Startup Port Table Selector Pics Mapper Decoder)
  allocated s = elim (s.heap) [ none ↦ panic | some mapper ↦ done s ]

  unfoldable pub run_stage :
      Stage
      → Startup Port Table Selector Pics Mapper Decoder
      → Outcome (Startup Port Table Selector Pics Mapper Decoder)
  run_stage serial_init s = done (record s { serial = Serial.init platform.uart s.serial })
  run_stage (log text) s = do
    port ← serial_println platform.uart text s.serial
    done (record s { serial = port })
  run_stage vga_init s = done (record s { screen = Vga.init s.screen })
  run_stage (print text) s = done (record s { screen = println text s.screen })
  run_stage gdt_init s = do
    loaded ← Segments.init platform.tables (task_state platform) s.segments
    done (record s { segments = loaded })
  run_stage idt_init s = done (record s { idt_loaded = true })
  run_stage pics_init s = done (record s { pics = init_pics platform.pics s.pics })
  run_stage memory_stage s = do
    (mapper, frames) ←
        memory_init platform.containing_address platform.map_to platform.pages_between
          platform.mapper_at boot_info.physical_memory_offset boot_info.memory_regions
    done (record s { heap = some mapper })
  run_stage pci_init s = do
    ready ← elim (enumerate platform.config) [ [] ↦ done s | device ∷ devices ↦ allocated s ]
    port ← Listing.init platform.uart platform.config ready.serial
    done (record ready { serial = port })
  run_stage keyboard_init s =
      done (record s { decoder = Keyboard.init platform.fresh_decoder s.decoder })
  run_stage process_init s = do
    ready ← allocated s
    done (record ready { kernel = Process.init ready.kernel })
  run_stage enable s = done (record s { interrupts_on = true })

  -- The static KEYBOARD, which is made at its first use.
  abbrev pub add_to_decoder : Option Decoder → ℕ → Option DecodedKey × Option Decoder
  add_to_decoder none scancode =
      let (key, kb) = platform.add_scancode platform.fresh_decoder scancode in (key, some kb)
  add_to_decoder (some kb) scancode =
      let (key, kb') = platform.add_scancode kb scancode in (key, some kb')

  abbrev pub machine_of : Startup Port Table Selector Pics Mapper Decoder → Machine (Option Decoder)
  machine_of s = record { kernel = s.kernel; decoder = s.decoder; keys = s.keys; ended = s.ended }

  abbrev pub with_machine :
      Startup Port Table Selector Pics Mapper Decoder
      → Machine (Option Decoder)
      → Startup Port Table Selector Pics Mapper Decoder
  with_machine s m = record s {
    kernel = m.kernel;
    decoder = m.decoder;
    keys = m.keys;
    ended = m.ended;
  }

  -- A line of the PICs that asks for an interrupt, with the byte at the keyboard's data port. A vector
  -- without a handler is a fault without a handler.
  unfoldable pub take_interrupt :
      ℕ × ℕ
      → Startup Port Table Selector Pics Mapper Decoder
      → Outcome (Startup Port Table Selector Pics Mapper Decoder)
  take_interrupt (line, scancode) s = elim (platform.pics.raises s.pics line) [
    | none ↦ done s
    | some vector ↦
        if s.interrupts_on
        then elim (if s.idt_loaded then idt vector else none) [
          | none ↦ panic
          | some h ↦ do m ← handle add_to_decoder scancode h (machine_of s); done (with_machine s m)
        ]
        else done s
  ]

  unfoldable pub take_interrupts :
      List (ℕ × ℕ)
      → Startup Port Table Selector Pics Mapper Decoder
      → Outcome (Startup Port Table Selector Pics Mapper Decoder)
  take_interrupts [] s = done s
  take_interrupts (i ∷ is) s = do s' ← take_interrupt i s; take_interrupts is s'

  -- The stages, and the interrupts that come in behind each of them.
  module _ (arrivals : Stage → List (ℕ × ℕ)) where
    unfoldable pub run_stages :
        List Stage
        → Startup Port Table Selector Pics Mapper Decoder
        → Outcome (Startup Port Table Selector Pics Mapper Decoder)
    run_stages [] s = done s
    run_stages (x ∷ xs) s = do
      s' ← run_stage x s
      s'' ← take_interrupts (arrivals x) s'
      run_stages xs s''

    -- `kernel_main`, up to the shell.
    unfoldable pub kernel_main :
        Startup Port Table Selector Pics Mapper Decoder
        → Outcome (Startup Port Table Selector Pics Mapper Decoder)
    kernel_main s = run_stages stages s

-- The panic handler, with the text of the panic: interrupts off, the two messages, and a halt.
unfoldable pub panic_handler :
    {Port Table Selector Pics Mapper Decoder : Type 0}
    → Uart Port
    → List ℕ
    → Startup Port Table Selector Pics Mapper Decoder
    → Outcome (Startup Port Table Selector Pics Mapper Decoder)
panic_handler uart info s = do
  port ← serial_println uart (10 ∷ (codes "[PANIC] " ++ info)) s.serial
  done (record s {
    interrupts_on = false;
    serial = port;
    screen = println (10 ∷ (codes "KERNEL PANIC: " ++ info)) s.screen;
  })
