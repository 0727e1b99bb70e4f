-- ===== src/Boot/Starting.antt =====
-- When the start of kernel/src/main.rs succeeds.
use compute_kernel.Common.{ℕ, ◌≡◌, ◌⊎◌, refl, ◌∙◌, true, none, some, List, done, ◌>>=◌, take, drop}
use compute_kernel.Boot.{
  BootInfo, Platform, Startup, Stage, task_state, stages, run_stages, at_entry, kernel_main,
}
use compute_kernel.Boot.Stages.{run_stages-append, run_stages-quiet, run_quiet}
use compute_kernel.Boot.Interrupted.{enabled_run}
use compute_kernel.Boot.SetUp.{IsSetUp, set_up, ready_state, ready-IsSetUp}
use compute_kernel.Segments.{Segments, unset}
use compute_kernel.Segments as Segments
use compute_kernel.Segments.Loading.{IsLoaded}
use compute_kernel.Memory.{BootInfoFrameAllocator, MapToError, HeapResult, refused, init_heap}
use compute_kernel.Memory as Memory
use compute_kernel.Boot.SetUp.{mapping}

-- Nothing gives the physical memory's place, or the heap cannot be mapped.
module _ {Port Table Selector Pics Mapper Decoder : Type 0}
    (platform : Platform Port Table Selector Pics Mapper Decoder) (boot_info : BootInfo) where
  abbrev heap_at : ℕ → HeapResult Mapper
  heap_at offset =
      init_heap platform.containing_address platform.map_to platform.pages_between
        (platform.mapper_at offset) (Memory.init boot_info.memory_regions)

  abbrev pub Unmapped : Type 0
  Unmapped =
      (boot_info.physical_memory_offset ≡ none)
      ⊎ ((offset : ℕ) × ((boot_info.physical_memory_offset ≡ some offset)
            × ((error : MapToError) × (heap_at offset ≡ refused error))))

module _ {Port Table Selector Pics Mapper Decoder : Type 0}
    (platform : Platform Port Table Selector Pics Mapper Decoder) (boot_info : BootInfo)
    (sent : List ℕ → Port → Port)
    (sends : (text : List ℕ) (port : Port)
      → platform.uart.write_fmt text port ≡ some (sent text port))
    (memory : ℕ → ℕ) (arrivals : Stage → List (ℕ × ℕ)) where
  abbrev Begun : Type 0
  Begun = Startup Port Table Selector Pics Mapper Decoder

  module _ (loaded : Segments Table Selector)
      (seg : Segments.init platform.tables (task_state platform) unset ≡ done loaded)
      (filled : IsLoaded platform.tables platform.double_fault_stack platform.gpf_stack
        loaded) where
    -- The stages up to `enable`, and those from there on.
    split_stages : kernel_main platform boot_info arrivals (at_entry platform memory) ≡ (
        run_quiet platform boot_info (take 25 stages) (at_entry platform memory) >>= λ s.
        run_stages platform boot_info arrivals (drop 25 stages) s)
    unfolding kernel_main stages
    split_stages =
        run_stages-append platform boot_info arrivals (take 25 stages) (drop 25 stages)
          (at_entry platform memory)
        ∙ rw
            (run_stages-quiet platform boot_info arrivals (take 25 stages)
              (at_entry platform memory) refl refl)
            refl

    -- Once the memory is mapped, the start-up comes to the shell, with interrupts on and everything
    -- in place.
    pub mapped_starts :
        (mapper : Mapper) (frames : BootInfoFrameAllocator)
        → mapping platform boot_info ≡ done (mapper, frames)
        → (s : Begun) × ((kernel_main platform boot_info arrivals (at_entry platform memory)
              ≡ done s)
            × ((s.interrupts_on ≡ true) × IsSetUp platform s))
    unfolding stages
    mapped_starts mapper frames mem =
        let (port, e) =
          set_up platform boot_info sent sends memory loaded seg filled mapper frames mem in
        let ready =
          ready_state platform boot_info sent sends memory loaded seg filled mapper frames mem
            port in
        let (s, (e', on, v)) =
          enabled_run platform boot_info sent sends arrivals (drop 26 stages) ready refl (
            ready-IsSetUp platform boot_info sent sends memory loaded seg filled mapper frames mem
              port) in
        (s, (split_stages ∙ rw e e', (on, v)))
