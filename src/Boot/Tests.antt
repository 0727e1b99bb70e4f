-- ===== src/Boot/Tests.antt =====
-- The start of the kernel (kernel/src/main.rs) on a small platform, and its theorems at it.
use compute_kernel.Common.{
  ℕ, ◌+◌, ◌-◌, ◌*◌, ◌/◌, ◌<◌, ◌≤◌, ◌≡◌, ◌==◌, ap, refl, true, Option, none, some, List, [], ◌∷◌,
  ◌++◌, arith, inr, replicate, done, ltb, if◌then◌else◌, nth_bit, take,
}
use compute_kernel.Memory.{
  MemoryRegion, BootInfoFrameAllocator, HeapResult, mapped, refused, memory_init, init_heap,
  map_pages, usable_frames, frames_from, usable, allocate_frame,
}
use compute_kernel.Memory as Memory
use compute_kernel.Segments.{
  TaskState, Segments, unset, kernel_code_segment, kernel_data_segment, user_data_segment,
  user_code_segment, tss_segment,
}
use compute_kernel.Segments as Segments
use compute_kernel.Segments.ListTables.{Entries, list_tables, sum_of, sum_of_canonical}
use compute_kernel.Drivers.Keyboard.{DecodedKey, unicode}
use compute_kernel.Drivers.Serial.{Uart}
use compute_kernel.Interrupts.{ChainedPics, init_pics, both_pics, primary_mask}
use compute_kernel.Boot.{
  BootInfo, Platform, Startup, Stage, enable, log, at_entry, kernel_main, run_stages, stages,
  take_interrupt, task_state,
}
use compute_kernel.Boot.Interrupted.{told}
use compute_kernel.Segments.Loading.{IsLoaded, init-IsLoaded}
use compute_kernel.Boot.SetUp.{IsSetUp, mapping}
use compute_kernel.Boot.Enabling.{interrupts_handled}
use compute_kernel.Boot.Starting.{mapped_starts}

-- A port that keeps the bytes sent.
abbrev recorder : Uart (List ℕ)
recorder = record {
  new = λ base. [];
  setup = λ port. port;
  write_fmt = λ text port. some (port ++ text);
}

-- PICs that are the vectors of their first lines and their masks.
abbrev Lines : Type 0
Lines = ℕ × ℕ × ℕ × ℕ

abbrev raises_lines : Lines → ℕ → Option ℕ
raises_lines (offset₁, offset₂, mask₁, mask₂) line =
    if ltb line 8
    then if nth_bit line mask₁ == 0 then some (offset₁ + line) else none
    else if ltb line 16
    then if nth_bit (line - 8) mask₂ == 0 then some (offset₂ + (line - 8)) else none
    else none

raises_lines-first :
    (offset₁ offset₂ mask₁ mask₂ line vector : ℕ)
    → line < 8
    → raises_lines (offset₁, offset₂, mask₁, mask₂) line ≡ some vector
    → (nth_bit line mask₁ ≡ 0) × (vector ≡ offset₁ + line)
raises_lines-first offset₁ offset₂ mask₁ mask₂ line vector h e = ground arith

raises_lines-second :
    (offset₁ offset₂ mask₁ mask₂ line vector : ℕ)
    → line < 8
    → raises_lines (offset₁, offset₂, mask₁, mask₂) (8 + line) ≡ some vector
    → (nth_bit line mask₂ ≡ 0) × (vector ≡ offset₂ + line)
raises_lines-second offset₁ offset₂ mask₁ mask₂ line vector h e =
    let place : 8 + line - 8 ≡ line = omega arith in
    ground (arith, place, ap (λ (k : ℕ). nth_bit k mask₂) place)

raises_lines-beyond : (pics : Lines) (line : ℕ) → 16 ≤ line → raises_lines pics line ≡ none
raises_lines-beyond (offset₁, offset₂, mask₁, mask₂) line h = ground arith

abbrev line_pics : ChainedPics Lines
line_pics = record {
  new = λ offset₁ offset₂. (offset₁, offset₂, 255, 255);
  initialize = λ p. p;
  write_masks = λ mask₁ mask₂ p. (p.0, p.1, mask₁, mask₂);
  raises = raises_lines;
  raises-first = raises_lines-first;
  raises-second = raises_lines-second;
  raises-beyond = raises_lines-beyond;
}

-- A mapper that counts the pages that it has mapped, on a range of two pages.
abbrev count_map : ℕ → ℕ → ℕ → BootInfoFrameAllocator → HeapResult ℕ
count_map page frame mapped_pages frames = mapped (mapped_pages + 1) frames

-- The scancode is taken for the character.
abbrev decode : Unit {0} → ℕ → Option DecodedKey × Unit {0}
decode d scancode = (some (unicode scancode), d)

abbrev small : Platform (List ℕ) Entries ℕ Lines ℕ (Unit {0})
small = record {
  uart = recorder;
  tables = list_tables;
  new_tss = record { interrupt_stack_table = replicate 7 0 };
  virt_add = sum_of;
  double_fault_stack = 0xffffffff80200000;
  gpf_stack = 0xffffffff80300000;
  pics = line_pics;
  containing_address = λ a. a / 4096 * 4096;
  map_to = count_map;
  pages_between = λ first last. first ∷ (last / 4096 * 4096) ∷ [];
  mapper_at = λ offset. 0;
  config = λ address. 0xffffffff;
  fresh_decoder = tt;
  add_scancode = decode;
}

abbrev two_frames : BootInfo
two_frames = record {
  physical_memory_offset = some 0x10000000000;
  memory_regions = record { start = 0x1000; stop = 0x3000; kind = usable } ∷ [];
}

abbrev no_offset : BootInfo
no_offset = record two_frames { physical_memory_offset = none }

frames_left : BootInfoFrameAllocator
frames_left = record { memory_regions = two_frames.memory_regions; next = 2 }

two_mapped : mapping small two_frames ≡ done (2, frames_left)
unfolding memory_init init_heap map_pages allocate_frame usable_frames frames_from Memory.init
    frames_left
two_mapped = refl

abbrev blank : ℕ → ℕ
blank a = 0

abbrev sent_on : List ℕ → List ℕ → List ℕ
sent_on text port = port ++ text

abbrev Started : Type 0
Started = Startup (List ℕ) Entries ℕ Lines ℕ (Unit {0})

-- A tick comes in behind `enable`, and a key behind every line of the log.
abbrev some_arrivals : Stage → List (ℕ × ℕ)
some_arrivals enable = (0, 0) ∷ []
some_arrivals (log text) = (1, 0x1e) ∷ []
some_arrivals _ = []

segments-IsLoaded :
    (s : Segments Entries ℕ) × ((Segments.init list_tables (task_state small) unset ≡ done s)
      × IsLoaded list_tables small.double_fault_stack small.gpf_stack s)
segments-IsLoaded =
    init-IsLoaded small.new_tss sum_of small.double_fault_stack small.gpf_stack refl
      sum_of_canonical (inr (omega arith)) (inr (omega arith)) list_tables

small_starts :
    (s : Started) × ((kernel_main small two_frames some_arrivals (at_entry small blank) ≡ done s)
      × ((s.interrupts_on ≡ true) × IsSetUp small s))
small_starts =
    let (loaded, (seg, filled)) = segments-IsLoaded in
    mapped_starts small two_frames sent_on (λ text port. refl) blank some_arrivals loaded seg filled
      2 frames_left two_mapped

abbrev started : Started
started = small_starts.0

all_stages :
    run_stages small two_frames some_arrivals (take 28 stages) (at_entry small blank) ≡ done started
unfolding kernel_main stages
all_stages = small_starts.1.0

interrupts_handled_example :
    IsSetUp small started
    × ((s' : Started) × ((take_interrupt small two_frames (1, 0x1e) started ≡ done s')
          × (s'.interrupts_on ≡ true)
          × (s'.ended ≡ told small two_frames started 1)
          × IsSetUp small s'))
interrupts_handled_example =
    interrupts_handled small two_frames sent_on (λ text port. refl) blank some_arrivals 28 1 0x1e
      refl sum_of_canonical (inr (omega arith)) (inr (omega arith)) all_stages (small_starts.1.1.0)

-- In such a state, the keyboard's line has its vector told to the PIC.
keyboard_told : told small two_frames started 1 ≡ started.ended ++ (33 ∷ [])
unfolding init_pics both_pics primary_mask nth_bit
keyboard_told =
    ap
      (λ (p : Lines). elim (raises_lines p 1) [
        | none ↦ started.ended
        | some vector ↦ started.ended ++ (vector ∷ [])
      ])
      (small_starts.1.1.1.pics_there)
