-- ===== src/Memory/Frames.antt =====
-- The frames that the allocator of kernel/src/memory/frame_allocator.rs hands out.
use compute_kernel.Common.{
  ℕ, zero, suc, ◌+◌, ◌*◌, ◌%◌, ◌<◌, ◌≤◌, ◌≡◌, ◌≢◌, ◌⊎◌, inl, inr, refl, sym, ap, ◌∙◌, true, some,
  List, [], ◌∷◌, ◌++◌, arith, if◌then◌else◌, Bool-cases, length, get_elem?, All, All-get_elem?,
}
use compute_kernel.Memory.{
  MemoryRegion, BootInfoFrameAllocator, is_usable, steps, frames_from, usable_frames,
  allocate_frame,
}

-- The bounds of a region are multiples of the frame size, and two usable regions share no address.
pub record IsRegion (r : MemoryRegion) : Type 0 where
  pub start_aligned : r.start % 4096 ≡ 0
  pub stop_aligned : r.stop % 4096 ≡ 0

unfoldable pub Disjoint : MemoryRegion → MemoryRegion → Type 0
Disjoint r s = (r.stop ≤ s.start) ⊎ (s.stop ≤ r.start)

unfoldable pub IsMemoryMap : List MemoryRegion → Type 0
IsMemoryMap [] = Unit
IsMemoryMap (r ∷ rs) = IsRegion r × (All (Disjoint r) rs × IsMemoryMap rs)

-- Some usable region holds the whole frame.
unfoldable pub Holds : List MemoryRegion → ℕ → Type 0
Holds regions frame =
    (i : ℕ) × ((r : MemoryRegion) × ((get_elem? regions i ≡ some r)
        × ((is_usable r ≡ true) × ((r.start ≤ frame) × (frame + 4096 ≤ r.stop)))))

get_elem?-frames_from :
    (containing_address : ℕ → ℕ)
    → ((a : ℕ) → a % 4096 ≡ 0 → containing_address a ≡ a)
    → (a n i : ℕ) {f : ℕ} → a % 4096 ≡ 0
    → get_elem? (frames_from containing_address a n) i ≡ some f
    → (i < n) × (f ≡ a + 4096 * i)
unfolding frames_from
get_elem?-frames_from at exact a zero i h e = cc
get_elem?-frames_from at exact a (suc n) zero {f} h e =
    let same : at a ≡ f = cc in omega (arith, same, exact a h)
get_elem?-frames_from at exact a (suc n) (suc i) h e =
    omega (arith, get_elem?-frames_from at exact (a + 4096) n i (omega arith) e)

get_elem?-append_cases {ℓ} :
    {A : Type ℓ} (xs ys : List A) (i : ℕ) {a : A}
    → get_elem? (xs ++ ys) i ≡ some a
    → (get_elem? xs i ≡ some a) ⊎ ((j : ℕ) × ((i ≡ length xs + j) × (get_elem? ys j ≡ some a)))
get_elem?-append_cases [] ys i h = inr (i, (omega arith, h))
get_elem?-append_cases (x ∷ xs) ys zero h = inl h
get_elem?-append_cases (x ∷ xs) ys (suc i) h = elim (get_elem?-append_cases xs ys i h) [
  | inl e ↦ inl e
  | inr (j, (p, e)) ↦ inr (j, (omega arith, e))
]

module _ (containing_address : ℕ → ℕ) where
  -- The allocator after some calls.
  abbrev pub after_calls : ℕ → BootInfoFrameAllocator → BootInfoFrameAllocator
  after_calls zero a = a
  after_calls (suc n) a = after_calls n ((allocate_frame containing_address a).1)

module _ (containing_address : ℕ → ℕ)
    (exact : (a : ℕ) → a % 4096 ≡ 0 → containing_address a ≡ a) where
  region_frame :
      (r : MemoryRegion) (i : ℕ) {f : ℕ}
      → IsRegion r
      → get_elem? (frames_from containing_address r.start (steps r)) i ≡ some f
      → (f ≡ r.start + 4096 * i) × (f + 4096 ≤ r.stop)
  region_frame r i h e =
      let at =
        get_elem?-frames_from containing_address exact r.start (steps r) i h.start_aligned e in
      (at.1, omega (arith, at, h.start_aligned, h.stop_aligned))

  abbrev first_frames : MemoryRegion → List ℕ
  first_frames r = if is_usable r then frames_from containing_address r.start (steps r) else []

  -- A frame is one of the first region's, or one of the others'.
  frame_cases :
      (r : MemoryRegion) (rs : List MemoryRegion) (i : ℕ) {f : ℕ}
      → IsRegion r
      → get_elem? (usable_frames containing_address (r ∷ rs)) i ≡ some f
      → ((is_usable r ≡ true) × ((f ≡ r.start + 4096 * i) × (f + 4096 ≤ r.stop)))
        ⊎ ((j : ℕ) × ((i ≡ length (first_frames r) + j)
              × (get_elem? (usable_frames containing_address rs) j ≡ some f)))
  unfolding usable_frames
  frame_cases r rs i {f} h e = elim (Bool-cases (is_usable r)) [
    | inr taken ↦ inr (i, (ground (arith, taken), ground (arith, e, taken)))
    | inl free ↦
        let rest = usable_frames containing_address rs in
        let first = frames_from containing_address r.start (steps r) in
        let whole : get_elem? (first ++ rest) i ≡ some f =
          sym (rw (free, usable_frames) refl) ∙ e in
        let here : length (first_frames r) ≡ length first = rw free refl in
        elim (get_elem?-append_cases first rest i whole) [
          | inl in_first ↦ inl (free, region_frame r i h in_first)
          | inr (j, (p, in_rest)) ↦ inr (j, (omega arith, in_rest))
        ]
  ]

  -- A frame that the memory map yields lies in a usable region, as a whole.
  pub frame_held :
      (regions : List MemoryRegion) (i : ℕ) {f : ℕ}
      → IsMemoryMap regions
      → get_elem? (usable_frames containing_address regions) i ≡ some f
      → Holds regions f
  unfolding usable_frames IsMemoryMap Holds
  frame_held [] i h e = cc
  frame_held (r ∷ rs) i h e = elim (frame_cases r rs i (h.0) e) [
    | inl (free, (at, end)) ↦ (0, (r, (refl, (free, (omega arith, end)))))
    | inr (k, (_, rest)) ↦
        let (j, (s, (p, q))) = frame_held rs k (h.1.1) rest in (suc j, (s, (p, q)))
  ]

  -- A frame of the first region is in none of the others.
  apart :
      (r : MemoryRegion) (rs : List MemoryRegion) (f : ℕ)
      → All (Disjoint r) rs
      → r.start ≤ f
      → f + 4096 ≤ r.stop
      → Holds rs f
      → ⊥
  unfolding Holds Disjoint
  apart r rs f h low high (i, (s, (at, (_, within)))) =
      elim (All-get_elem? (Disjoint r) rs i h at) [
        | inl before ↦ omega (arith, within)
        | inr behind ↦ omega (arith, within)
      ]

  -- Each usable frame stands once in the list.
  pub frame_once :
      (regions : List MemoryRegion) (i j : ℕ) {f : ℕ}
      → IsMemoryMap regions
      → get_elem? (usable_frames containing_address regions) i ≡ some f
      → get_elem? (usable_frames containing_address regions) j ≡ some f
      → i ≡ j
  unfolding usable_frames IsMemoryMap
  frame_once [] i j h p q = cc
  frame_once (r ∷ rs) i j {f} h p q =
      let others = h.1.0 in
      let rest = h.1.1 in
      elim (frame_cases r rs i (h.0) p) [
        | inl (_, (at, end)) ↦ elim (frame_cases r rs j (h.0) q) [
          | inl (_, (at', _)) ↦ omega arith
          | inr (l, (_, q')) ↦
              absurd (apart r rs f others (omega arith) end (frame_held rs l rest q'))
        ]
        | inr (k, (pi, p')) ↦ elim (frame_cases r rs j (h.0) q) [
          | inl (_, (at, end)) ↦
              absurd (apart r rs f others (omega arith) end (frame_held rs k rest p'))
          | inr (l, (pj, q')) ↦ omega (arith, pi, pj, frame_once rs k l rest p' q')
        ]
      ]

  after_calls_lem :
      (n : ℕ) (a : BootInfoFrameAllocator)
      → after_calls containing_address n a ≡ record a { next = a.next + n }
  unfolding allocate_frame
  after_calls_lem zero a = ap (λ (k : ℕ). record a { next = k }) (omega arith)
  after_calls_lem (suc n) a =
      after_calls_lem n ((allocate_frame containing_address a).1)
      ∙ ap (λ (k : ℕ). record a { next = k }) (omega arith)

  -- A frame that a call gives lies in a usable region of the memory map, and no later call gives it
  -- again.
  pub frames_fresh :
      (a : BootInfoFrameAllocator) (n : ℕ) {f : ℕ}
      → IsMemoryMap a.memory_regions
      → (allocate_frame containing_address a).0 ≡ some f
      → Holds a.memory_regions f
        × ((allocate_frame containing_address (after_calls containing_address (suc n) a)).0
            ≢ some f)
  unfolding allocate_frame
  frames_fresh a n h p =
      let later =
        ap (λ (b : BootInfoFrameAllocator). (allocate_frame containing_address b).0)
          (after_calls_lem (suc n) a) in
      (
        frame_held a.memory_regions a.next h p,
        λ q. absurd (
            omega (arith, frame_once a.memory_regions a.next (a.next + suc n) h p (sym later ∙ q))),
      )
