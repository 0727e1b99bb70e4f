-- ===== src/Drivers/Framebuffer/Painting.antt =====
-- Which pixels `fill_rect` of kernel/src/drivers/framebuffer.rs paints, on a screen with three bytes
-- or more to a pixel.
use compute_kernel.Common.{
  ℕ, zero, suc, ◌+◌, ◌-◌, ◌*◌, ◌<◌, ◌≤◌, ◌≡◌, ◌⊎◌, inl, inr, refl, sym, ap, ◌∙◌, Bool, false,
  Bool-cases, ◌&&◌, List, arith, ltb, leb, ◌==◌, lt→ltb, ge→ltb, lt_cases, if◌then◌else◌, length,
  get_or, min, Outcome, ◌^◌, done, ◌>>=◌,
}
use compute_kernel.Drivers.Framebuffer.{
  PixelFormat, rgb, bgr, u8, other, FrameBufferInfo, FramebufferDriver, write3, put_format,
  put_pixel, fill_cols, fill_rows, fill_rect,
}
use compute_kernel.Drivers.Framebuffer.Fits.{put_pixel_fits, pixel_near}
use compute_kernel.Drivers.Framebuffer.Pixels.{
  next_multiple, same_place, write3_bytes, three, channel, byte_at, IsPixelByte,
}

module _ (info : FrameBufferInfo) (px py c : ℕ) where
  -- A run that sets that byte when a test holds, and leaves it otherwise.
  abbrev Sets : List ℕ → Outcome (List ℕ) → Bool → ℕ → Type 0
  Sets buf result hit v =
      (buf' : List ℕ) × ((result ≡ done buf')
        × ((length buf' ≡ length buf)
            × (get_or buf' (byte_at info px py c) 0
                ≡ (if hit then v else get_or buf (byte_at info px py c) 0))))

  three_read :
      (buf : List ℕ) (base p q s i : ℕ)
      → i < 3
      → get_or buf base 0 ≡ p
      → get_or buf (base + 1) 0 ≡ q
      → get_or buf (base + 2) 0 ≡ s
      → get_or buf (base + i) 0 ≡ three p q s i
  three_read buf base p q s zero h e₀ e₁ e₂ = ap (λ (n : ℕ). get_or buf n 0) (omega arith) ∙ e₀
  three_read buf base p q s (suc zero) h e₀ e₁ e₂ = e₁
  three_read buf base p q s (suc (suc zero)) h e₀ e₁ e₂ = e₂
  three_read buf base p q s (suc (suc (suc i))) h e₀ e₁ e₂ = absurd (omega arith)

  -- Another pixel's bytes lie in front of it or behind it.
  apart :
      (x y size : ℕ)
      → IsPixelByte info px py c size
      → x < info.stride
      → (y == py && x == px) ≡ false
      → (byte_at info px py c < byte_at info x y 0)
        ⊎ (byte_at info x y 0 + 3 ≤ byte_at info px py c)
  apart x y size at row miss =
      let there = y * info.stride + x in
      let here = py * info.stride + px in
      elim (lt_cases there here) [
        | inl before ↦
            inr (omega (arith, next_multiple there here info.bytes_per_pixel before, at.wide))
        | inr le ↦ elim (lt_cases here there) [
          | inl behind ↦ inl (
              omega
                (arith, next_multiple here there info.bytes_per_pixel behind, at.wide, at.in_pixel))
          | inr ge ↦
              let same = same_place y x py px info.stride row at.on_row (omega arith) in
              absurd (ground (arith, miss, same))
        ]
      ]

  write3-Sets :
      (x y p q s : ℕ) (buf : List ℕ)
      → IsPixelByte info px py c (length buf)
      → x < info.stride
      → byte_at info x y 0 + info.bytes_per_pixel ≤ length buf
      → Sets buf
          (write3 ((y * info.stride + x) * info.bytes_per_pixel) p q s buf)
          (y == py && x == px)
          (three p q s c)
  write3-Sets x y p q s buf at row room =
      let base = (y * info.stride + x) * info.bytes_per_pixel in
      let wide = at.wide in
      let (buf', (run, (size, (b₀, (b₁, (b₂, out)))))) =
        write3_bytes base p q s buf (omega arith) in
      (
        buf',
        (
          run,
          (
            size,
            elim (Bool-cases (y == py && x == px)) [
              | inl hit ↦
                  let same : (y ≡ py) × (x ≡ px) = ground (arith, hit) in
                  let place : byte_at info px py c ≡ base + c = rw (same.0, same.1) refl in
                  rw (hit, place) (three_read buf' base p q s c at.in_pixel b₀ b₁ b₂)
              | inr miss ↦
                  rw miss
                    (out (byte_at info px py c) (grind (arith, apart x y (length buf) at row miss)))
            ],
          ),
        ),
      )

  put_format-Sets :
      (format : PixelFormat) (x y r g b : ℕ) (buf : List ℕ)
      → (format ≡ rgb) ⊎ (format ≡ bgr)
      → IsPixelByte info px py c (length buf)
      → x < info.stride
      → byte_at info x y 0 + info.bytes_per_pixel ≤ length buf
      → Sets buf
          (put_format format ((y * info.stride + x) * info.bytes_per_pixel) r g b buf)
          (y == py && x == px)
          (channel format r g b c)
  unfolding put_format
  put_format-Sets rgb x y r g b buf f at row room = write3-Sets x y r g b buf at row room
  put_format-Sets bgr x y r g b buf f at row room = write3-Sets x y b g r buf at row room
  put_format-Sets u8 x y r g b buf f at row room = absurd (elim f [ inl e ↦ cc | inr e ↦ cc ])
  put_format-Sets other x y r g b buf f at row room = absurd (elim f [ inl e ↦ cc | inr e ↦ cc ])

  -- A pixel that does not fit the buffer is another one.
  too_far :
      (x y size : ℕ)
      → IsPixelByte info px py c size
      → size < (y * info.stride + x) * info.bytes_per_pixel + info.bytes_per_pixel
      → (y == py && x == px) ≡ false
  too_far x y size at short = elim (Bool-cases (y == py && x == px)) [
    | inr miss ↦ miss
    | inl hit ↦
        let same : (y ≡ py) × (x ≡ px) = ground (arith, hit) in
        let place : byte_at info px py 0 ≡ byte_at info x y 0 = rw (same.0, same.1) refl in
        absurd (omega (arith, place, at.in_buffer))
  ]

  put_pixel-Sets :
      (checks : Bool) (x y r g b : ℕ) (buf : List ℕ)
      → (info.pixel_format ≡ rgb) ⊎ (info.pixel_format ≡ bgr)
      → IsPixelByte info px py c (length buf)
      → x < info.stride
      → y < info.height
      → info.height * info.stride * info.bytes_per_pixel < 2 ^ 64
      → Sets buf
          (put_pixel checks info x y r g b buf)
          (y == py && x == px)
          (channel info.pixel_format r g b c)
  put_pixel-Sets checks x y r g b buf f at row below small =
      let wide = at.wide in
      let fits =
        put_pixel_fits checks info x y r g b buf (omega arith)
          (pixel_near info x y row below small) in
      let base = (y * info.stride + x) * info.bytes_per_pixel in
      elim (lt_cases (length buf) (base + info.bytes_per_pixel)) [
        | inr room ↦
            let inside = ge→ltb (length buf) (base + info.bytes_per_pixel) room in
            rw (fits, inside)
              (put_format-Sets info.pixel_format x y r g b buf f at row (omega arith))
        | inl short ↦
            let past = lt→ltb (length buf) (base + info.bytes_per_pixel) short in
            rw (fits, past, too_far x y (length buf) at short) (buf, (refl, (refl, refl)))
      ]

  -- One run after another.
  then-Sets :
      (buf : List ℕ) (first : Outcome (List ℕ)) (next : List ℕ → Outcome (List ℕ)) (h₁ h₂ h : Bool)
      (v : ℕ)
      → ((old : ℕ) → (if h₂ then v else (if h₁ then v else old)) ≡ (if h then v else old))
      → Sets buf first h₁ v
      → ((buf' : List ℕ) → length buf' ≡ length buf → Sets buf' (next buf') h₂ v)
      → Sets buf (first >>= next) h v
  then-Sets buf first next h₁ h₂ h v both (b₁, (e₁, (l₁, v₁))) more =
      let (b₂, (e₂, (l₂, v₂))) = more b₁ l₁ in
      (
        b₂,
        (
          rw e₁ e₂,
          (
            l₂ ∙ l₁,
            v₂
                ∙ (ap (λ (t : ℕ). if h₂ then v else t) v₁
                    ∙ both (get_or buf (byte_at info px py c) 0)),
          ),
        ),
      )

  module _ (checks : Bool) (f : (info.pixel_format ≡ rgb) ⊎ (info.pixel_format ≡ bgr))
      (small : info.height * info.stride * info.bytes_per_pixel < 2 ^ 64) where
    fill_cols-Sets :
        (row col n r g b : ℕ) (buf : List ℕ)
        → IsPixelByte info px py c (length buf)
        → row < info.height
        → n ≤ info.stride - col
        → Sets buf
            (fill_cols checks info row col n r g b buf)
            (row == py && (leb col px && ltb px (col + n)))
            (channel info.pixel_format r g b c)
    unfolding fill_cols
    fill_cols-Sets row col zero r g b buf at below fits = (buf, (refl, (refl, ground arith)))
    fill_cols-Sets row col (suc n) r g b buf at below fits =
        then-Sets buf (put_pixel checks info col row r g b buf)
          (λ buf'. fill_cols checks info row (col + 1) n r g b buf') (row == py && col == px)
          (row == py && (leb (col + 1) px && ltb px (col + 1 + n)))
          (row == py && (leb col px && ltb px (col + suc n))) (channel info.pixel_format r g b c)
          (λ old. ground arith)
          (put_pixel-Sets checks col row r g b buf f at (omega arith) below small)
          (λ buf' size. fill_cols-Sets row (col + 1) n r g b buf' (rw size at) below (omega arith))

    fill_rows-Sets :
        (x w row n r g b : ℕ) (buf : List ℕ)
        → IsPixelByte info px py c (length buf)
        → info.width ≤ info.stride
        → x + w < 2 ^ 64
        → n ≤ info.height - row
        → Sets buf
            (fill_rows checks info x w row n r g b buf)
            ((leb row py && ltb py (row + n))
              && (leb x px && ltb px (x + (min (x + w) info.width - x))))
            (channel info.pixel_format r g b c)
    unfolding fill_rows
    fill_rows-Sets x w row zero r g b buf at fits right rows = (buf, (refl, (refl, ground arith)))
    fill_rows-Sets x w row (suc n) r g b buf at fits right rows =
        let cols = min (x + w) info.width - x in
        let run =
          then-Sets buf (fill_cols checks info row x cols r g b buf)
            (λ buf'. fill_rows checks info x w (row + 1) n r g b buf')
            (row == py && (leb x px && ltb px (x + cols)))
            ((leb (row + 1) py && ltb py (row + 1 + n)) && (leb x px && ltb px (x + cols)))
            ((leb row py && ltb py (row + suc n)) && (leb x px && ltb px (x + cols)))
            (channel info.pixel_format r g b c) (λ old. ground arith)
            (fill_cols-Sets row x cols r g b buf at (omega arith) (omega arith))
            (λ buf' size.
              fill_rows-Sets x w (row + 1) n r g b buf' (rw size at) fits right (omega arith)) in
        rw (fill_rows, lt→ltb (x + w) (2 ^ 64) right) run

clip : (a m p : ℕ) → (leb a p && ltb p (a + (m - a))) ≡ (leb a p && ltb p m)
clip a m p = ground arith

-- With red, green and blue in three bytes or more to a pixel, rows that hold the screen's width, a
-- screen whose bytes number below 2 ^ 64, and a rectangle whose right and lower edges are below
-- 2 ^ 64, `fill_rect` does not panic, gives every pixel of the rectangle that the screen has the
-- colour, in the order of its format, and leaves the colour of every other pixel as it was, whether
-- or not overflows are checked.
pub fill_rect_paints :
    (checks : Bool) (x y w h r g b : ℕ) (d : FramebufferDriver) (px py c : ℕ)
    → (d.info.pixel_format ≡ rgb) ⊎ (d.info.pixel_format ≡ bgr)
    → IsPixelByte d.info px py c (length d.buffer)
    → d.info.width ≤ d.info.stride
    → d.info.height * d.info.stride * d.info.bytes_per_pixel < 2 ^ 64
    → x + w < 2 ^ 64
    → y + h < 2 ^ 64
    → (d' : FramebufferDriver) × ((fill_rect checks x y w h r g b d ≡ done d')
        × (get_or d'.buffer (byte_at d.info px py c) 0 ≡ (
            if (leb y py && ltb py (min (y + h) d.info.height))
              && (leb x px && ltb px (min (x + w) d.info.width))
            then channel d.info.pixel_format r g b c
            else get_or d.buffer (byte_at d.info px py c) 0)))
unfolding fill_rect
fill_rect_paints checks x y w h r g b d px py c f at fits small right bottom =
    let rows = min (y + h) d.info.height - y in
    let (buf, (run, (_, byte))) =
      fill_rows-Sets d.info px py c checks f small x w y rows r g b d.buffer at fits right
        (omega arith) in
    (
      record d { buffer = buf },
      (
        rw (fill_rect, lt→ltb (y + h) (2 ^ 64) bottom, run) refl,
        rw (sym (clip y (min (y + h) d.info.height) py), sym (clip x (min (x + w) d.info.width) px))
            byte,
      ),
    )
