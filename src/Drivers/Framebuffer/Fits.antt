-- ===== src/Drivers/Framebuffer/Fits.antt =====
-- The sums and products of kernel/src/drivers/framebuffer.rs: when they fit a usize.
use compute_kernel.Common.{
  ℕ, ◌+◌, ◌*◌, ◌<◌, ◌≤◌, ◌≡◌, refl, Bool, List, arith, ltb, lt→ltb, ge→ltb, if◌then◌else◌, length,
  panic, true, ◌^◌, done,
}
use native.Mathlib.Nat.{mul-le-mul_left}
use compute_kernel.Drivers.Framebuffer.{
  FrameBufferInfo, FramebufferDriver, put_format, put_pixel, fill_rect,
}
use compute_kernel.Drivers.Framebuffer.Pixels.{next_multiple}

le_mul : (n w : ℕ) → 0 < w → n ≤ n * w
le_mul n w h = omega (arith, mul-le-mul_left {m = 1} {n = w} n h)

-- A pixel whose bytes end below 2 ^ 64 is found without an overflow.
pub put_pixel_fits :
    (checks : Bool) (info : FrameBufferInfo) (x y r g b : ℕ) (buf : List ℕ)
    → 0 < info.bytes_per_pixel
    → (y * info.stride + x) * info.bytes_per_pixel + info.bytes_per_pixel < 2 ^ 64
    → put_pixel checks info x y r g b buf ≡ (
        let base = (y * info.stride + x) * info.bytes_per_pixel in
        if ltb (length buf) (base + info.bytes_per_pixel)
        then done buf
        else put_format info.pixel_format base r g b buf)
unfolding put_pixel
put_pixel_fits checks info x y r g b buf wide near =
    let n = y * info.stride + x in
    let le = le_mul n info.bytes_per_pixel wide in
    rw
      (
        put_pixel,
        lt→ltb (y * info.stride) (2 ^ 64) (omega (arith, le)),
        lt→ltb n (2 ^ 64) (omega (arith, le)),
        lt→ltb (n * info.bytes_per_pixel) (2 ^ 64) (omega arith),
        lt→ltb (n * info.bytes_per_pixel + info.bytes_per_pixel) (2 ^ 64) near,
      )
      refl

-- A pixel of the screen ends where the screen does, or before.
pub pixel_near :
    (info : FrameBufferInfo) (x y : ℕ)
    → x < info.stride
    → y < info.height
    → info.height * info.stride * info.bytes_per_pixel < 2 ^ 64
    → (y * info.stride + x) * info.bytes_per_pixel + info.bytes_per_pixel < 2 ^ 64
pixel_near info x y row below small =
    let screen = info.height * info.stride in
    let inside : y * info.stride + x < screen =
      omega (arith, next_multiple y info.height info.stride below) in
    omega (arith, next_multiple (y * info.stride + x) screen info.bytes_per_pixel inside)

-- A lower edge that overflows makes a build that checks panic.
edge_overflows :
    (x y w h r g b : ℕ) (d : FramebufferDriver)
    → 2 ^ 64 ≤ y + h
    → fill_rect true x y w h r g b d ≡ panic
unfolding fill_rect
edge_overflows x y w h r g b d over = rw (fill_rect, ge→ltb (y + h) (2 ^ 64) over) refl
