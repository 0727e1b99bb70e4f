-- ===== src/Memory/Tests.antt =====
-- The frame allocator (kernel/src/memory/) on a memory map, and its theorem at it.
use compute_kernel.Common.{
  ℕ, zero, suc, ◌+◌, ◌-◌, ◌<◌, ◌≤◌, ◌∙◌, ◌⊎◌, ap, sym, Option, none, ◌==◌, if◌then◌else◌, All,
  get_elem?, ◌*◌, ◌/◌, ◌≡◌, ◌≢◌, inl, refl, some, List, [], ◌∷◌, arith,
}
use mathlib.Core.Path.{subst}
use compute_kernel.Memory.{
  HeapResult, mapped, refused, map_pages, init_heap, heap_start, MemoryRegion, usable, other_kind,
  BootInfoFrameAllocator, allocate_frame, usable_frames, frames_from,
}
use compute_kernel.Memory.Heap.{Mapping, mapped-injective, Once}
use compute_kernel.Memory.Backing.{page_of, IsPageRange, heap_backed}
use compute_kernel.Memory.Frames.{IsMemoryMap, Disjoint, Holds, after_calls, frames_fresh}

abbrev containing : ℕ → ℕ
containing a = a / 4096 * 4096

abbrev regions : List MemoryRegion
regions =
    record { start = 0x1000; stop = 0x3000; kind = usable }
    ∷ record { start = 0x3000; stop = 0x5000; kind = other_kind }
    ∷ record { start = 0x5000; stop = 0x6000; kind = usable }
    ∷ []

three_frames : usable_frames containing regions ≡ 0x1000 ∷ 0x2000 ∷ 0x5000 ∷ []
unfolding usable_frames frames_from
three_frames = refl

regions-IsMemoryMap : IsMemoryMap regions
unfolding IsMemoryMap Disjoint
regions-IsMemoryMap = (
  record { start_aligned = refl; stop_aligned = refl },
  (
    (inl (omega arith), (inl (omega arith), tt)),
    (
      record { start_aligned = refl; stop_aligned = refl },
      ((inl (omega arith), tt), (record { start_aligned = refl; stop_aligned = refl }, (tt, tt))),
    ),
  ),
)

abbrev second : BootInfoFrameAllocator
second = record { memory_regions = regions; next = 1 }

second_frame : (allocate_frame containing second).0 ≡ some 0x2000
unfolding allocate_frame usable_frames frames_from
second_frame = refl

frames_fresh_example :
    Holds regions 0x2000
    × ((allocate_frame containing (after_calls containing 3 second)).0 ≢ some 0x2000)
frames_fresh_example =
    frames_fresh containing (λ a h. omega arith) second 2 regions-IsMemoryMap second_frame

-- Page tables as a function from pages to frames, which take no frames themselves.
abbrev PageTable : Type 0
PageTable = ℕ → Option ℕ

abbrev put_page : ℕ → ℕ → PageTable → BootInfoFrameAllocator → HeapResult PageTable
put_page page frame m a = mapped (λ p. if p == page then some frame else m p) a

put_page-translates :
    (page frame : ℕ) (m : PageTable) (a : BootInfoFrameAllocator) {m' : PageTable}
    {a' : BootInfoFrameAllocator}
    → put_page page frame m a ≡ mapped m' a'
    → m' page ≡ some frame
put_page-translates page frame m a {m'} e =
    sym (ap (λ (t : PageTable). t page) (mapped-injective e)) ∙ ground arith

put_page-keeps :
    (page frame other : ℕ) (m : PageTable) (a : BootInfoFrameAllocator) {m' : PageTable}
    {a' : BootInfoFrameAllocator}
    → put_page page frame m a ≡ mapped m' a'
    → other ≢ page
    → m' other ≡ m other
put_page-keeps page frame other m a e h =
    sym (ap (λ (t : PageTable). t other) (mapped-injective e)) ∙ ground arith

put_page-takes :
    (page frame : ℕ) (m : PageTable) (a : BootInfoFrameAllocator) {m' : PageTable}
    {a' : BootInfoFrameAllocator}
    → put_page page frame m a ≡ mapped m' a'
    → (a'.memory_regions ≡ a.memory_regions) × (a.next ≤ a'.next)
put_page-takes page frame m a {a' = a'} e =
    let same : a ≡ a' = cc in
    subst
      (λ (b : BootInfoFrameAllocator). (b.memory_regions ≡ a.memory_regions) × (a.next ≤ b.next))
      same (refl, omega arith)

abbrev put_page_mapping : Mapping put_page
put_page_mapping = record {
  translate = λ m p. m p;
  translates = put_page-translates;
  keeps = put_page-keeps;
  takes = put_page-takes;
}

-- `n` pages from page number `k` on.
abbrev pages_from : ℕ → ℕ → List ℕ
pages_from k zero = []
pages_from k (suc n) = (k * 4096) ∷ pages_from (k + 1) n

abbrev page_range : ℕ → ℕ → List ℕ
page_range first last = pages_from (first / 4096) (last / 4096 + 1 - first / 4096)

pages_from-later : (x k n : ℕ) → x < k → All (λ q. x * 4096 ≢ q) (pages_from k n)
pages_from-later x k zero h = tt
pages_from-later x k (suc n) h = (λ e. omega (arith, e), pages_from-later x (k + 1) n (omega arith))

pages_from-Once : (k n : ℕ) → Once (pages_from k n)
pages_from-Once k zero = tt
pages_from-Once k (suc n) = (pages_from-later k (k + 1) n (omega arith), pages_from-Once (k + 1) n)

get_elem?-pages_from : (k n i : ℕ) → i < n → get_elem? (pages_from k n) i ≡ some ((k + i) * 4096)
get_elem?-pages_from k zero i h = absurd (omega arith)
get_elem?-pages_from k (suc n) zero h = ap (λ (x : ℕ). some (x * 4096)) (omega arith)
get_elem?-pages_from k (suc n) (suc i) h =
    get_elem?-pages_from (k + 1) n i (omega arith) ∙ ap (λ (x : ℕ). some (x * 4096)) (omega arith)

page_range-covers :
    (first last address : ℕ)
    → first ≤ address
    → address ≤ last
    → (i : ℕ) × (get_elem? (page_range first last) i ≡ some (page_of address))
page_range-covers first last address h h' =
    let i = address / 4096 - first / 4096 in
    let size = last / 4096 + 1 - first / 4096 in
    (
      i,
      get_elem?-pages_from (first / 4096) size i (omega arith)
          ∙ ap (λ (x : ℕ). some (x * 4096)) (omega arith),
    )

page_range-IsPageRange : IsPageRange page_range
page_range-IsPageRange = record {
  once = λ first last. pages_from-Once (first / 4096) (last / 4096 + 1 - first / 4096);
  covers = page_range-covers;
}

-- A region of 512 frames, as many as the heap has pages.
abbrev big : BootInfoFrameAllocator
big = record {
  memory_regions = record { start = 0x100000; stop = 0x300000; kind = usable } ∷ [];
  next = 0;
}

abbrev unmapped : PageTable
unmapped page = none

abbrev table_of : HeapResult PageTable → PageTable
table_of (mapped m a) = m
table_of (refused e) = unmapped

heap_table : PageTable
heap_table = table_of (init_heap containing put_page page_range unmapped big)

abbrev used_up : BootInfoFrameAllocator
used_up = record big { next = 512 }

heap_mapped : init_heap containing put_page page_range unmapped big ≡ mapped heap_table used_up
unfolding init_heap map_pages allocate_frame usable_frames frames_from heap_table
heap_mapped = refl

big-IsMemoryMap : IsMemoryMap big.memory_regions
unfolding IsMemoryMap
big-IsMemoryMap = (record { start_aligned = refl; stop_aligned = refl }, (tt, tt))

heap_backed_example :
    (f : ℕ) × ((g : ℕ) × ((heap_table (page_of (heap_start + 5)) ≡ some f)
        × ((heap_table (page_of (heap_start + 5000)) ≡ some g)
            × (Holds big.memory_regions f
                × (Holds big.memory_regions g
                    × ((f ≢ g) ⊎ (page_of (heap_start + 5) ≡ page_of (heap_start + 5000))))))))
heap_backed_example =
    heap_backed containing put_page page_range put_page_mapping unmapped big (heap_start + 5)
      (heap_start + 5000) (λ a h. omega arith) page_range-IsPageRange big-IsMemoryMap heap_mapped
      (omega arith) (omega arith) (omega arith) (omega arith)
