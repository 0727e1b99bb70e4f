-- ===== src/Drivers/Framebuffer.antt =====
-- The framebuffer driver: kernel/src/drivers/framebuffer.rs. `FrameBufferInfo` and `PixelFormat` are
-- the crate bootloader_api's; its further formats, which the driver ignores, are `other`. Sums and
-- products of coordinates are usize: in a build that checks, an overflow panics, and in others it wraps.
pub mod Pixels
pub mod Fits
pub mod Painting
use compute_kernel.Common.{
  ℕ, zero, suc, ◌+◌, ◌-◌, ◌*◌, ◌/◌, ◌%◌, min, Bool, Option, none, some, List, ltb, if◌then◌else◌,
  length, set, replicate, mul_u64, add_u64, Outcome, done, panic, ◌>>=◌,
}

pub data PixelFormat : Type 0 where
  rgb bgr u8 other : PixelFormat

pub record FrameBufferInfo : Type 0 where
  pub width : ℕ
  pub height : ℕ
  pub stride : ℕ
  pub bytes_per_pixel : ℕ
  pub pixel_format : PixelFormat

pub record FramebufferDriver : Type 0 where
  pub buffer : List ℕ
  pub info : FrameBufferInfo

-- `FramebufferDriver::new`, of the parts of a `FrameBuffer`.
abbrev pub new : FrameBufferInfo → List ℕ → FramebufferDriver
new info buffer = record { buffer = buffer; info = info }

-- `self.buffer[i] = v`.
abbrev pub store_at : ℕ → ℕ → List ℕ → Outcome (List ℕ)
store_at i v buf = if ltb i (length buf) then done (set buf i v) else panic

-- The bytes of a colour, in the order in which they are written.
abbrev pub write3 : ℕ → ℕ → ℕ → ℕ → List ℕ → Outcome (List ℕ)
write3 base p q s buf = do
  buf₁ ← store_at base p buf
  buf₂ ← store_at (base + 1) q buf₁
  store_at (base + 2) s buf₂

unfoldable pub put_format : PixelFormat → ℕ → ℕ → ℕ → ℕ → List ℕ → Outcome (List ℕ)
put_format rgb base r g b buf = write3 base r g b buf
put_format bgr base r g b buf = write3 base b g r buf
put_format u8 base r g b buf = store_at base ((r + g + b) / 3) buf
put_format other base r g b buf = done buf

-- `put_pixel`, on the buffer. The sums and products are usize. The indices behind the base cannot
-- overflow: a base at the end of usize is out of range of the buffer.
unfoldable pub put_pixel : Bool → FrameBufferInfo → ℕ → ℕ → ℕ → ℕ → ℕ → List ℕ → Outcome (List ℕ)
put_pixel checks info x y r g b buf = do
  above ← mul_u64 checks y info.stride
  offset ← add_u64 checks above x
  base ← mul_u64 checks offset info.bytes_per_pixel
  stop ← add_u64 checks base info.bytes_per_pixel
  if ltb (length buf) stop then done buf else put_format info.pixel_format base r g b buf

-- `for col in ..`, `n` columns from `col` on.
unfoldable pub fill_cols :
    Bool → FrameBufferInfo → ℕ → ℕ → ℕ → ℕ → ℕ → ℕ → List ℕ → Outcome (List ℕ)
fill_cols checks info row col zero r g b buf = done buf
fill_cols checks info row col (suc n) r g b buf = do
  buf' ← put_pixel checks info col row r g b buf
  fill_cols checks info row (col + 1) n r g b buf'

-- `for row in ..`, `n` rows from `row` on; each has the columns from `x` on, `w` of them at most.
unfoldable pub fill_rows :
    Bool → FrameBufferInfo → ℕ → ℕ → ℕ → ℕ → ℕ → ℕ → ℕ → List ℕ → Outcome (List ℕ)
fill_rows checks info x w row zero r g b buf = done buf
fill_rows checks info x w row (suc n) r g b buf = do
  right ← add_u64 checks x w
  buf' ← fill_cols checks info row x (min right info.width - x) r g b buf
  fill_rows checks info x w (row + 1) n r g b buf'

-- The rectangle is clipped by the screen's width and height.
unfoldable pub fill_rect :
    Bool → ℕ → ℕ → ℕ → ℕ → ℕ → ℕ → ℕ → FramebufferDriver → Outcome FramebufferDriver
fill_rect checks x y w h r g b d = do
  bottom ← add_u64 checks y h
  buf ← fill_rows checks d.info x w y (min bottom d.info.height - y) r g b d.buffer
  done (record d { buffer = buf })

-- `clear`.
unfoldable pub clear : FramebufferDriver → FramebufferDriver
clear d = record d { buffer = replicate (length d.buffer) 0 }

-- `init`, and the calls through the static FB; without a framebuffer they do nothing.
unfoldable pub init : FrameBufferInfo → List ℕ → Option FramebufferDriver
init info buffer = some (clear (new info buffer))

unfoldable pub clear_screen : Option FramebufferDriver → Option FramebufferDriver
clear_screen none = none
clear_screen (some d) = some (clear d)

unfoldable pub draw_rect :
    Bool → ℕ → ℕ → ℕ → ℕ → ℕ → ℕ → ℕ → Option FramebufferDriver → Outcome (Option FramebufferDriver)
draw_rect checks x y w h r g b none = done none
draw_rect checks x y w h r g b (some d) = do d' ← fill_rect checks x y w h r g b d; done (some d')

unfoldable pub dimensions : Option FramebufferDriver → Option (ℕ × ℕ)
dimensions none = none
dimensions (some d) = some (d.info.width, d.info.height)
