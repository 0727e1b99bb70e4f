-- ===== src/Memory/Heap.antt =====
-- What `init_heap` of kernel/src/memory/heap.rs maps.
use compute_kernel.Common.{
  ℕ, suc, ◌+◌, ◌≤◌, ◌≡◌, ◌≢◌, ◌⊎◌, inl, inr, refl, sym, ap, ◌∙◌, Option, some, List, [], ◌∷◌, arith,
  Option-cases, get_elem?, All,
}
use mathlib.Core.Path.{subst}
use compute_kernel.Memory.{
  MemoryRegion, BootInfoFrameAllocator, HeapResult, mapped, refused, MapToError, usable_frames,
  allocate_frame, map_pages,
}

-- `Mapper` of the crate x86_64: the frame that a page is mapped to. Mapping a page says so for it,
-- and for no other; it may take frames for page tables, which come from the allocator's list.
pub record Mapping {M : Type 0} (map_to : ℕ → ℕ → M → BootInfoFrameAllocator → HeapResult M)
    : Type 0 where
  pub translate : M → ℕ → Option ℕ
  pub translates :
      (page frame : ℕ) (m : M) (a : BootInfoFrameAllocator) {m' : M} {a' : BootInfoFrameAllocator}
      → map_to page frame m a ≡ mapped m' a'
      → translate m' page ≡ some frame
  pub keeps :
      (page frame other : ℕ) (m : M) (a : BootInfoFrameAllocator) {m' : M}
      {a' : BootInfoFrameAllocator}
      → map_to page frame m a ≡ mapped m' a'
      → other ≢ page
      → translate m' other ≡ translate m other
  pub takes :
      (page frame : ℕ) (m : M) (a : BootInfoFrameAllocator) {m' : M} {a' : BootInfoFrameAllocator}
      → map_to page frame m a ≡ mapped m' a'
      → (a'.memory_regions ≡ a.memory_regions) × (a.next ≤ a'.next)

-- No page twice.
abbrev pub Once : List ℕ → Type 0
Once [] = Unit
Once (p ∷ ps) = All (λ q. p ≢ q) ps × Once ps

HeapResult-cases :
    {M : Type 0} (r : HeapResult M)
    → ((e : MapToError) × (r ≡ refused e))
      ⊎ ((m : M) × ((a : BootInfoFrameAllocator) × (r ≡ mapped m a)))
HeapResult-cases (mapped m a) = inr (m, (a, refl))
HeapResult-cases (refused e) = inl (e, refl)

pub mapped-injective :
    {M : Type 0} {m m' : M} {a a' : BootInfoFrameAllocator} → mapped m a ≡ mapped m' a' → m ≡ m'
mapped-injective e = cc

module _ (containing_address : ℕ → ℕ) {M : Type 0}
    (map_to : ℕ → ℕ → M → BootInfoFrameAllocator → HeapResult M) (pages_between : ℕ → ℕ → List ℕ)
    (mapping : Mapping map_to) where
  -- The pages are mapped to usable frames, each further on in the allocator's list than the one
  -- before.
  unfoldable pub MapsUp : List MemoryRegion → M → ℕ → List ℕ → Type 0
  MapsUp regions m low [] = Unit
  MapsUp regions m low (p ∷ ps) =
      (k : ℕ) × ((f : ℕ) × ((low ≤ k)
          × ((get_elem? (usable_frames containing_address regions) k ≡ some f)
              × ((mapping.translate m p ≡ some f) × MapsUp regions m (suc k) ps))))

  -- One round of the loop.
  round :
      (page : ℕ) (pages : List ℕ) (m : M) (a : BootInfoFrameAllocator) {m' : M}
      {a' : BootInfoFrameAllocator}
      → map_pages containing_address map_to pages_between (page ∷ pages) m a ≡ mapped m' a'
      → (f : ℕ) × ((m₁ : M) × ((a₁ : BootInfoFrameAllocator) × ((get_elem?
                  (usable_frames containing_address a.memory_regions)
                  a.next
                ≡ some f)
              × ((map_to page f m (record a { next = a.next + 1 }) ≡ mapped m₁ a₁)
                  × (map_pages containing_address map_to pages_between pages m₁ a₁
                      ≡ mapped m' a')))))
  unfolding map_pages allocate_frame
  round page pages m a {m'} {a'} h =
      let frames = usable_frames containing_address a.memory_regions in
      elim (Option-cases (get_elem? frames a.next)) [
        | inl out ↦ absurd (ground (arith, out, h))
        | inr (f, found) ↦
            let left = record a { next = a.next + 1 } in
            elim (HeapResult-cases (map_to page f m left)) [
              | inl (error, e) ↦
                  let stopped : map_pages containing_address map_to pages_between (page ∷ pages) m a
                      ≡ refused error =
                    rw (found, e, map_pages, allocate_frame) refl in
                  absurd (let clash : refused error ≡ mapped m' a' = sym stopped ∙ h in cc)
              | inr (m₁, (a₁, e)) ↦
                  let stepped : map_pages containing_address map_to pages_between (page ∷ pages) m a
                      ≡ map_pages containing_address map_to pages_between pages m₁ a₁ =
                    rw (found, e, map_pages, allocate_frame) refl in
                  (f, (m₁, (a₁, (found, (e, sym stepped ∙ h)))))
            ]
      ]

  -- A page that is not in the list stays as it is.
  map_pages-keeps :
      (other : ℕ) (pages : List ℕ) (m : M) (a : BootInfoFrameAllocator) {m' : M}
      {a' : BootInfoFrameAllocator}
      → All (λ p. other ≢ p) pages
      → map_pages containing_address map_to pages_between pages m a ≡ mapped m' a'
      → mapping.translate m' other ≡ mapping.translate m other
  unfolding map_pages
  map_pages-keeps other [] m a h e =
      let same = mapped-injective e in sym (ap (λ (x : M). mapping.translate x other) same)
  map_pages-keeps other (p ∷ ps) m a h e =
      let (f, (m₁, (a₁, (_, (put, rest))))) = round p ps m a e in
      map_pages-keeps other ps m₁ a₁ h.1 rest
      ∙ mapping.keeps p f other m (record a { next = a.next + 1 }) put h.0

  MapsUp-weaken :
      (regions : List MemoryRegion) (m : M) (low low' : ℕ) (pages : List ℕ)
      → low ≤ low'
      → MapsUp regions m low' pages
      → MapsUp regions m low pages
  unfolding MapsUp
  MapsUp-weaken regions m low low' [] h up = tt
  MapsUp-weaken regions m low low' (p ∷ ps) h (k, (f, (above, rest))) =
      (k, (f, (omega arith, rest)))

  pub map_pages-MapsUp :
      (pages : List ℕ) (m : M) (a : BootInfoFrameAllocator) {m' : M} {a' : BootInfoFrameAllocator}
      → Once pages
      → map_pages containing_address map_to pages_between pages m a ≡ mapped m' a'
      → MapsUp a.memory_regions m' a.next pages
  unfolding MapsUp
  map_pages-MapsUp [] m a h e = tt
  map_pages-MapsUp (p ∷ ps) m a {m'} h e =
      let (f, (m₁, (a₁, (found, (put, rest))))) = round p ps m a e in
      let left : BootInfoFrameAllocator = record a { next = a.next + 1 } in
      let (same, on) = mapping.takes p f m left put in
      (
        a.next,
        (
          f,
          (
            omega arith,
            (
              found,
              (
                map_pages-keeps p ps m₁ a₁ h.0 rest ∙ mapping.translates p f m left put,
                subst (λ (r : List MemoryRegion). MapsUp r m' (suc a.next) ps) same
                    (MapsUp-weaken a₁.memory_regions m' (suc a.next) a₁.next ps (omega (arith, on))
                      (map_pages-MapsUp ps m₁ a₁ h.1 rest)),
              ),
            ),
          ),
        ),
      )
