-- ===== src/Memory/Backing.antt =====
-- The frames behind the heap that `init_heap` of kernel/src/memory/heap.rs maps.
use compute_kernel.Common.{
  ℕ, zero, suc, ◌+◌, ◌*◌, ◌-◌, ◌/◌, Bool-cases, ◌==◌, ◌%◌, ◌<◌, ◌≤◌, ◌≡◌, ◌≢◌, ◌⊎◌, inl, inr, sym,
  ap, ◌∙◌, some, List, [], ◌∷◌, arith, get_elem?,
}
use compute_kernel.Memory.{
  MemoryRegion, BootInfoFrameAllocator, HeapResult, mapped, usable_frames, init_heap, heap_start,
  heap_size,
}
use compute_kernel.Memory.Frames.{IsMemoryMap, Holds, frame_held, frame_once}
use compute_kernel.Memory.Heap.{Mapping, Once, MapsUp, map_pages-MapsUp}

same_or_not : (a b : ℕ) → (a ≢ b) ⊎ (a ≡ b)
same_or_not a b = elim (Bool-cases (a == b)) [
  | inl e ↦ inr (ground (arith, e))
  | inr e ↦ inl (λ h. ground (arith, e, h))
]

module _ (containing_address : ℕ → ℕ) {M : Type 0}
    (map_to : ℕ → ℕ → M → BootInfoFrameAllocator → HeapResult M) (pages_between : ℕ → ℕ → List ℕ)
    (mapping : Mapping map_to) where
  -- The place in the allocator's list of the frame of a page, and the frame.
  MapsUp-get :
      (regions : List MemoryRegion) (m : M) (low : ℕ) (pages : List ℕ) (i : ℕ) {p : ℕ}
      → MapsUp containing_address map_to pages_between mapping regions m low pages
      → get_elem? pages i ≡ some p
      → (k : ℕ) × ((f : ℕ) × ((low + i ≤ k)
            × ((get_elem? (usable_frames containing_address regions) k ≡ some f)
                × (mapping.translate m p ≡ some f))))
  unfolding MapsUp
  MapsUp-get regions m low [] i h e = cc
  MapsUp-get regions m low (q ∷ ps) zero {p} (k, (f, (above, (found, (at, up))))) e =
      let same : q ≡ p = cc in
      (k, (f, (omega arith, (found, ap (mapping.translate m) (sym same) ∙ at))))
  MapsUp-get regions m low (q ∷ ps) (suc i) (k, (f, (above, (found, (at, up))))) e =
      let (k', (f', (above', rest))) = MapsUp-get regions m (suc k) ps i up e in
      (k', (f', (omega arith, rest)))

  -- Two places of the allocator's list hold two frames.
  two_places :
      (regions : List MemoryRegion) (m : M) (p q k k' : ℕ) {f f' g : ℕ}
      → IsMemoryMap regions
      → ((a : ℕ) → a % 4096 ≡ 0 → containing_address a ≡ a)
      → k < k'
      → get_elem? (usable_frames containing_address regions) k ≡ some f
      → get_elem? (usable_frames containing_address regions) k' ≡ some f'
      → mapping.translate m p ≡ some f
      → mapping.translate m q ≡ some f'
      → mapping.translate m p ≡ some g
      → mapping.translate m q ≡ some g
      → ⊥
  two_places regions m p q k k' {f} {f'} {g} map exact less e e' t t' u u' =
      let same : f' ≡ f = cc in
      let found : get_elem? (usable_frames containing_address regions) k' ≡ some f = cc in
      omega (arith, frame_once containing_address exact regions k k' map e found)

  -- No frame serves two pages of the list.
  MapsUp-apart :
      (regions : List MemoryRegion) (m : M) (low : ℕ) (pages : List ℕ) (i j : ℕ) {p q g : ℕ}
      → IsMemoryMap regions
      → ((a : ℕ) → a % 4096 ≡ 0 → containing_address a ≡ a)
      → MapsUp containing_address map_to pages_between mapping regions m low pages
      → get_elem? pages i ≡ some p
      → get_elem? pages j ≡ some q
      → mapping.translate m p ≡ some g
      → mapping.translate m q ≡ some g
      → p ≡ q
  unfolding MapsUp
  MapsUp-apart regions m low [] i j map exact up ei ej tp tq = cc
  MapsUp-apart regions m low (x ∷ ps) zero zero map exact up ei ej tp tq = cc
  MapsUp-apart regions m low (x ∷ ps) zero (suc j) {p} {q} map exact
        (k, (f, (above, (found, (at, up))))) ei ej tp tq =
      let (k', (f', (above', (found', at')))) = MapsUp-get regions m (suc k) ps j up ej in
      let here : x ≡ p = cc in
      absurd (
        two_places regions m x q k k' map exact (omega (arith, above')) found found' at at'
          (ap (mapping.translate m) here ∙ tp) tq)
  MapsUp-apart regions m low (x ∷ ps) (suc i) zero {p} {q} map exact
        (k, (f, (above, (found, (at, up))))) ei ej tp tq =
      let (k', (f', (above', (found', at')))) = MapsUp-get regions m (suc k) ps i up ei in
      let here : x ≡ q = cc in
      absurd (
        two_places regions m x p k k' map exact (omega (arith, above')) found found' at at'
          (ap (mapping.translate m) here ∙ tq) tp)
  MapsUp-apart regions m low (x ∷ ps) (suc i) (suc j) map exact (k, (f, (above, (found, (at, up)))))
        ei ej tp tq =
      MapsUp-apart regions m (suc k) ps i j map exact up ei ej tp tq

-- The page of an address.
abbrev pub page_of : ℕ → ℕ
page_of address = address / 4096 * 4096

-- The inclusive range of the pages of two addresses: each page once, and that of each address
-- between.
pub record IsPageRange (pages_between : ℕ → ℕ → List ℕ) : Type 0 where
  pub once : (first last : ℕ) → Once (pages_between first last)
  pub covers :
      (first last address : ℕ)
      → first ≤ address
      → address ≤ last
      → (i : ℕ) × (get_elem? (pages_between first last) i ≡ some (page_of address))

-- When `init_heap` succeeds, the pages of any two addresses of the heap are mapped to frames that lie
-- as a whole in usable regions of the memory map, and to different frames unless they are one page.
pub heap_backed :
    (containing_address : ℕ → ℕ) {M : Type 0}
    (map_to : ℕ → ℕ → M → BootInfoFrameAllocator → HeapResult M) (pages_between : ℕ → ℕ → List ℕ)
    (mapping : Mapping map_to) (m : M) (a : BootInfoFrameAllocator) (address other : ℕ) {m' : M}
    {a' : BootInfoFrameAllocator}
    → ((b : ℕ) → b % 4096 ≡ 0 → containing_address b ≡ b)
    → IsPageRange pages_between
    → IsMemoryMap a.memory_regions
    → init_heap containing_address map_to pages_between m a ≡ mapped m' a'
    → heap_start ≤ address
    → address < heap_start + heap_size
    → heap_start ≤ other
    → other < heap_start + heap_size
    → (f : ℕ) × ((g : ℕ) × ((mapping.translate m' (page_of address) ≡ some f)
          × ((mapping.translate m' (page_of other) ≡ some g)
              × (Holds a.memory_regions f
                  × (Holds a.memory_regions g × ((f ≢ g) ⊎ (page_of address ≡ page_of other)))))))
unfolding init_heap
heap_backed containing_address map_to pages_between mapping m a address other {m'} exact range map e
      low high low' high' =
    let last = heap_start + heap_size - 1 in
    let up =
      map_pages-MapsUp containing_address map_to pages_between mapping
        (pages_between heap_start last) m a (range.once heap_start last) e in
    let (i, here) = range.covers heap_start last address low (omega arith) in
    let (j, there) = range.covers heap_start last other low' (omega arith) in
    let (k, (f, (_, (found, at)))) =
      MapsUp-get containing_address map_to pages_between mapping a.memory_regions m' a.next
        (pages_between heap_start last) i up here in
    let (k', (g, (_, (found', at')))) =
      MapsUp-get containing_address map_to pages_between mapping a.memory_regions m' a.next
        (pages_between heap_start last) j up there in
    (
      f,
      (
        g,
        (
          at,
          (
            at',
            (
              frame_held containing_address exact a.memory_regions k map found,
              (
                frame_held containing_address exact a.memory_regions k' map found',
                elim (same_or_not f g) [
                  | inl different ↦ inl different
                  | inr same ↦ inr (
                      MapsUp-apart containing_address map_to pages_between mapping a.memory_regions
                        m' a.next (pages_between heap_start last) i j map exact up here there at
                        (at' ∙ ap some (sym same)))
                ],
              ),
            ),
          ),
        ),
      ),
    )
