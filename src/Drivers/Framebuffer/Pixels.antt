-- ===== src/Drivers/Framebuffer/Pixels.antt =====
-- The bytes of the pixels in the buffer of kernel/src/drivers/framebuffer.rs: where they lie, and
-- what a write of three bytes leaves.
use native.Mathlib.Nat.{mul-le-mul_right}
use compute_kernel.Common.{
  ℕ, zero, suc, ◌+◌, ◌*◌, ◌<◌, ◌≤◌, ◌≡◌, ◌⊎◌, inl, inr, refl, ap, ◌∙◌, List, arith, lt→ltb,
  lt_cases, length, length-set, set, get_or, get_or-set_self, get_or-set_ne, done,
}
use compute_kernel.Drivers.Framebuffer.{PixelFormat, bgr, FrameBufferInfo, write3}

-- The next multiple comes a whole step later.
pub next_multiple : (a b w : ℕ) → a < b → a * w + w ≤ b * w
next_multiple a b w h = omega (arith, mul-le-mul_right w h)

-- Two places in rows of `w`.
pub same_place : (y x y' x' w : ℕ) → x < w → x' < w → y * w + x ≡ y' * w + x' → (y ≡ y') × (x ≡ x')
same_place y x y' x' w h h' e = elim (lt_cases y y') [
  | inl below ↦ absurd (omega (arith, next_multiple y y' w below))
  | inr le ↦ elim (lt_cases y' y) [
    | inl above ↦ absurd (omega (arith, next_multiple y' y w above))
    | inr ge ↦ let same : y ≡ y' = omega arith in (same, omega (arith, ap (λ (t : ℕ). t * w) same))
  ]
]

-- The bytes that `write3` leaves.
pub write3_bytes :
    (base p q s : ℕ) (buf : List ℕ)
    → base + 3 ≤ length buf
    → (buf' : List ℕ) × ((write3 base p q s buf ≡ done buf')
        × ((length buf' ≡ length buf)
            × ((get_or buf' base 0 ≡ p)
                × ((get_or buf' (base + 1) 0 ≡ q)
                    × ((get_or buf' (base + 2) 0 ≡ s)
                        × ((j : ℕ)
                            → (j < base) ⊎ (base + 3 ≤ j)
                            → get_or buf' j 0 ≡ get_or buf j 0))))))
write3_bytes base p q s buf h =
    let b₁ = set buf base p in
    let b₂ = set b₁ (base + 1) q in
    let b₃ = set b₂ (base + 2) s in
    let l₁ = length-set buf base p in
    let l₂ = length-set b₁ (base + 1) q in
    let l₃ = length-set b₂ (base + 2) s in
    let t₁ = lt→ltb base (length buf) (omega arith) in
    let t₂ = lt→ltb (base + 1) (length b₁) (omega arith) in
    let t₃ = lt→ltb (base + 2) (length b₂) (omega arith) in
    (
      b₃,
      (
        rw (t₁, t₂, t₃) refl,
        (
          l₃ ∙ (l₂ ∙ l₁),
          (
            get_or-set_ne b₂ (base + 2) base s 0 (λ e. omega arith)
                ∙ (get_or-set_ne b₁ (base + 1) base q 0 (λ e. omega arith)
                    ∙ get_or-set_self buf base p 0 (omega arith)),
            (
              get_or-set_ne b₂ (base + 2) (base + 1) s 0 (λ e. omega arith)
                  ∙ get_or-set_self b₁ (base + 1) q 0 (omega arith),
              (
                get_or-set_self b₂ (base + 2) s 0 (omega arith),
                λ j out.
                    get_or-set_ne b₂ (base + 2) j s 0 (λ e. grind arith)
                    ∙ (get_or-set_ne b₁ (base + 1) j q 0 (λ e. grind arith)
                        ∙ get_or-set_ne buf base j p 0 (λ e. grind arith)),
              ),
            ),
          ),
        ),
      ),
    )

-- The byte `c` of a colour, as the format orders them.
abbrev pub three : ℕ → ℕ → ℕ → ℕ → ℕ
three p q s zero = p
three p q s (suc zero) = q
three p q s (suc (suc c)) = s

abbrev pub channel : PixelFormat → ℕ → ℕ → ℕ → ℕ → ℕ
channel bgr r g b c = three b g r c
channel _ r g b c = three r g b c

-- The place in the buffer of the byte `c` of a pixel.
abbrev pub byte_at : FrameBufferInfo → ℕ → ℕ → ℕ → ℕ
byte_at info px py c = (py * info.stride + px) * info.bytes_per_pixel + c

-- A byte of a pixel that lies on a row and in the buffer.
pub record IsPixelByte (info : FrameBufferInfo) (px py c size : ℕ) : Type 0 where
  pub on_row : px < info.stride
  pub in_pixel : c < 3
  pub wide : 3 ≤ info.bytes_per_pixel
  pub in_buffer : byte_at info px py 0 + info.bytes_per_pixel ≤ size
