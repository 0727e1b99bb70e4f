-- ===== src/Boot/SetUp.antt =====
-- What the stages of kernel/src/main.rs before the enabling of interrupts leave behind.
use compute_kernel.Common.{
  ℕ, ◌≡◌, refl, ◌∙◌, true, some, List, ◌∷◌, Outcome, done, panic, ◌>>=◌, take, drop, codes,
}
use compute_kernel.Boot.{
  BootInfo, Platform, Startup, pci_init, stages, run_stage, at_entry, task_state,
}
use compute_kernel.Drivers.Serial.{serial_print, serial_println}
use compute_kernel.Drivers.Serial as Serial
use compute_kernel.Drivers.Keyboard as Keyboard
use compute_kernel.Drivers.Vga.{println}
use compute_kernel.Drivers.Vga as Vga
use compute_kernel.Process.{boot}
use compute_kernel.Process as Process
use compute_kernel.Interrupts.{init_pics, both_pics}
use compute_kernel.Segments.{Segments, unset}
use compute_kernel.Segments as Segments
use compute_kernel.Segments.Loading.{IsLoaded}
use compute_kernel.Process.Pids.{Reach, here}
use compute_kernel.Memory.{memory_init, BootInfoFrameAllocator}
use compute_kernel.Boot.Stages.{
  lines_of, logged, println_sent, pci_stage, run_quiet, run_quiet-append,
}

-- What `memory::init` makes of the boot loader's map.
abbrev pub mapping :
    {Port Table Selector Pics Mapper Decoder : Type 0}
    → Platform Port Table Selector Pics Mapper Decoder
    → BootInfo
    → Outcome (Mapper × BootInfoFrameAllocator)
mapping platform boot_info =
    memory_init platform.containing_address platform.map_to platform.pages_between
      platform.mapper_at boot_info.physical_memory_offset boot_info.memory_regions

-- What stands from when interrupts are turned on: the process state is one that is reached from the
-- one that `init` makes.
pub record IsSetUp {Port Table Selector Pics Mapper Decoder : Type 0}
    (platform : Platform Port Table Selector Pics Mapper Decoder)
    (s : Startup Port Table Selector Pics Mapper Decoder) : Type 0 where
  pub idt_there : s.idt_loaded ≡ true
  pub pics_there : s.pics ≡ init_pics platform.pics (both_pics platform.pics)
  pub segments_there :
      IsLoaded platform.tables platform.double_fault_stack platform.gpf_stack s.segments
  pub heap_there : (mapper : Mapper) × (s.heap ≡ some mapper)
  pub decoder_there : (kb : Decoder) × (s.decoder ≡ some kb)
  pub kernel_there : Reach (Process.init boot) s.kernel

module _ {Port Table Selector Pics Mapper Decoder : Type 0}
    (platform : Platform Port Table Selector Pics Mapper Decoder) (boot_info : BootInfo)
    (sent : List ℕ → Port → Port)
    (sends : (text : List ℕ) (port : Port)
      → platform.uart.write_fmt text port ≡ some (sent text port))
    (memory : ℕ → ℕ) (loaded : Segments Table Selector)
    (seg : Segments.init platform.tables (task_state platform) unset ≡ done loaded)
    (filled : IsLoaded platform.tables platform.double_fault_stack platform.gpf_stack loaded) where
  abbrev pub State : Type 0
  State = Startup Port Table Selector Pics Mapper Decoder

  abbrev pub entry : State
  entry = at_entry platform memory

  module _ (mapper : Mapper) (frames : BootInfoFrameAllocator)
      (mem : mapping platform boot_info ≡ done (mapper, frames)) where
    -- The states before the PCI bus is enumerated, and before interrupts are turned on.
    abbrev pub bus_state : Port → State
    bus_state port = record entry {
      serial = port;
      screen = println (codes "ComputeKERNEL v1.0.0") (Vga.init entry.screen);
      segments = loaded;
      idt_loaded = true;
      pics = init_pics platform.pics (both_pics platform.pics);
      heap = some mapper;
    }

    abbrev pub ready_state : Port → State
    ready_state port = record (bus_state port) {
      decoder = some platform.fresh_decoder;
      kernel = Process.init boot;
    }

    before_bus :
        run_quiet platform boot_info (take 17 stages) entry
        ≡ done (
            bus_state (
              logged platform boot_info sent sends
                (lines_of (take 17 stages))
                (Serial.init platform.uart entry.serial)))
    unfolding run_quiet run_stage stages
    before_bus = simp (println_sent platform boot_info sent sends, seg, mem, ◌>>=◌)

    behind_bus :
        (port : Port)
        → run_quiet platform boot_info (take 7 (drop 18 stages)) (bus_state port)
          ≡ done (
              ready_state
                (logged platform boot_info sent sends (lines_of (take 7 (drop 18 stages))) port))
    unfolding run_quiet run_stage stages Keyboard.init
    behind_bus port = simp (println_sent platform boot_info sent sends, ◌>>=◌)

    -- The stages before `enable` do not panic, and leave all that interrupts need.
    pub set_up :
        (port : Port) × (run_quiet platform boot_info (take 25 stages) entry
          ≡ done (ready_state port))
    unfolding stages run_quiet
    set_up =
        let first =
          logged platform boot_info sent sends (lines_of (take 17 stages))
            (Serial.init platform.uart entry.serial) in
        let (port, e) = pci_stage platform boot_info sent sends (bus_state first) refl in
        (
          logged platform boot_info sent sends (lines_of (take 7 (drop 18 stages))) port,
          run_quiet-append platform boot_info (take 17 stages) (pci_init ∷ take 7 (drop 18 stages))
                entry
              ∙ rw before_bus (rw (run_quiet, e) (behind_bus port)),
        )

    pub ready-IsSetUp : (port : Port) → IsSetUp platform (ready_state port)
    ready-IsSetUp port = record {
      idt_there = refl;
      pics_there = refl;
      segments_there = filled;
      heap_there = (mapper, refl);
      decoder_there = (platform.fresh_decoder, refl);
      kernel_there = here;
    }

  pub unmapped_panics :
      mapping platform boot_info ≡ panic
      → run_quiet platform boot_info (take 25 stages) (at_entry platform memory) ≡ panic
  unfolding run_quiet run_stage stages
  unmapped_panics h = simp (println_sent platform boot_info sent sends, seg, h, ◌>>=◌)
