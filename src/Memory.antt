-- ===== src/Memory.antt =====
-- Memory management: kernel/src/memory/. The mapper and the page arithmetic are the crate x86_64's,
-- the memory map the crate bootloader_api's: they are parameters. A frame or page is its start
-- address. The global allocator (linked_list_allocator) is left out.
pub mod Frames
pub mod Heap
pub mod Backing
mod Tests
use compute_kernel.Common.{
  ℕ, zero, suc, ◌+◌, ◌-◌, ◌*◌, ◌/◌, Bool, true, false, Option, none, some, List, [], ◌∷◌, ◌++◌, ltb,
  if◌then◌else◌, get_elem?, Outcome, done, panic,
}

-- `MemoryRegionKind`, as far as the allocator looks at it.
pub data MemoryRegionKind : Type 0 where
  usable other_kind : MemoryRegionKind

pub record MemoryRegion : Type 0 where
  pub start : ℕ
  pub stop : ℕ
  pub kind : MemoryRegionKind

pub record BootInfoFrameAllocator : Type 0 where
  pub memory_regions : List MemoryRegion
  pub next : ℕ

abbrev pub is_usable : MemoryRegion → Bool
is_usable r = elim (r.kind) [ usable ↦ true | other_kind ↦ false ]

-- `(start..end).step_by(4096)` has as many elements as steps fit, a last short one included.
abbrev pub steps : MemoryRegion → ℕ
steps r = (r.stop - r.start + 4095) / 4096

-- `BootInfoFrameAllocator::init`.
unfoldable pub init : List MemoryRegion → BootInfoFrameAllocator
init regions = record { memory_regions = regions; next = 0 }

-- `PhysFrame::containing_address`: the start of the frame that holds an address.
module _ (containing_address : ℕ → ℕ) where
  -- `n` frames at steps of 4096 from an address on.
  unfoldable pub frames_from : ℕ → ℕ → List ℕ
  frames_from address zero = []
  frames_from address (suc n) = containing_address address ∷ frames_from (address + 4096) n

  unfoldable pub usable_frames : List MemoryRegion → List ℕ
  usable_frames [] = []
  usable_frames (r ∷ rs) =
      if is_usable r then frames_from r.start (steps r) ++ usable_frames rs else usable_frames rs

  -- `self.usable_frames().nth(self.next)`, and the counter moves on.
  unfoldable pub allocate_frame : BootInfoFrameAllocator → Option ℕ × BootInfoFrameAllocator
  allocate_frame a =
      (get_elem? (usable_frames a.memory_regions) a.next, record a { next = a.next + 1 })

-- `phys_from_virt`: `checked_sub`.
unfoldable pub phys_from_virt : ℕ → ℕ → Option ℕ
phys_from_virt virt offset = if ltb virt offset then none else some (virt - offset)

abbrev pub heap_start : ℕ
heap_start = 0x444444440000

abbrev pub heap_size : ℕ
heap_size = 2 * 1024 * 1024

-- `MapToError`, as far as the kernel makes it.
pub data MapToError : Type 0 where
  frame_allocation_failed other_error : MapToError

pub data HeapResult (M : Type 0) : Type 0 where
  mapped : M → BootInfoFrameAllocator → HeapResult M
  refused : MapToError → HeapResult M

-- `Mapper::map_to` with the heap's flags, and the flush: it may take frames for page tables, so it
-- changes the allocator too. `pages_between` is the inclusive range of the pages of two addresses.
module _ (containing_address : ℕ → ℕ) {M : Type 0}
    (map_to : ℕ → ℕ → M → BootInfoFrameAllocator → HeapResult M)
    (pages_between : ℕ → ℕ → List ℕ) where
  -- `for page in page_range`.
  unfoldable pub map_pages : List ℕ → M → BootInfoFrameAllocator → HeapResult M
  map_pages [] mapper a = mapped mapper a
  map_pages (page ∷ pages) mapper a =
      let (frame, a') = allocate_frame containing_address a in
      elim frame [
        | none ↦ refused frame_allocation_failed
        | some f ↦ elim (map_to page f mapper a') [
          | refused e ↦ refused e
          | mapped mapper' a'' ↦ map_pages pages mapper' a''
        ]
      ]

  unfoldable pub init_heap : M → BootInfoFrameAllocator → HeapResult M
  init_heap mapper a = map_pages (pages_between heap_start (heap_start + heap_size - 1)) mapper a

  -- `memory::init` up to the global allocator: `mapper_at` is `paging::init`.
  unfoldable pub memory_init :
      (ℕ → M) → Option ℕ → List MemoryRegion → Outcome (M × BootInfoFrameAllocator)
  memory_init mapper_at offset regions = elim offset [
    | none ↦ panic
    | some o ↦ elim (init_heap (mapper_at o) (init regions)) [
      | mapped mapper a ↦ done (mapper, a)
      | refused e ↦ panic
    ]
  ]
