-- ===== src/Common/Bits.antt =====
-- `&` and `|` at variables: one law for the lowest digit of each, and from it what every single
-- bit of a result is.
use Prim.Native.Nat.{
  ℕ, zero, suc, ◌+◌, ◌*◌, ◌/◌, ◌%◌, ◌^◌, ◌≤◌, ◌<◌, min, max, bit_and, bit_or, digits,
  bit_and-bitwise, bit_or-bitwise,
}
use mathlib.Core.Path.{◌≡◌, refl, ap}
use mathlib.Core.Logic.{◌≢◌}
use native.Mathlib.Nat.{pow-suc}
use native.Mathlib.Omega.{arith}

-- Any digit operation: more digits to go than the first number has change nothing.
module _ (z : ℕ → ℕ) (f : ℕ → ℕ → ℕ) (out : (b : ℕ) → z b ≡ z (b / 2) * 2 + f 0 (b % 2)) where
  digits_enough : (n m a b : ℕ) → a ≤ n → a ≤ m → digits z f n a b ≡ digits z f m a b
  digits_enough zero zero a b p q = refl
  digits_enough zero (suc m) zero b p q = refl
  digits_enough zero (suc m) (suc a) b p q = absurd (omega arith)
  digits_enough (suc n) zero zero b p q = refl
  digits_enough (suc n) zero (suc a) b p q = absurd (omega arith)
  digits_enough (suc n) (suc m) zero b p q = refl
  digits_enough (suc n) (suc m) (suc a) b p q =
      ap (λ (t : ℕ). t * 2 + f (suc a % 2) (b % 2))
        (digits_enough n m (suc a / 2) (b / 2) (omega arith) (omega arith))

  digits_unfold :
      (a b : ℕ) → digits z f a a b ≡ digits z f (a / 2) (a / 2) (b / 2) * 2 + f (a % 2) (b % 2)
  digits_unfold zero b = out b
  digits_unfold (suc a) b =
      ap (λ (t : ℕ). t * 2 + f (suc a % 2) (b % 2))
        (digits_enough a (suc a / 2) (suc a / 2) (b / 2) (omega arith) (omega arith))

pub bit_and-digit : (a b : ℕ) → bit_and a b ≡ bit_and (a / 2) (b / 2) * 2 + min (a % 2) (b % 2)
bit_and-digit a b = omega (
  arith,
  bit_and-bitwise a b,
  bit_and-bitwise (a / 2) (b / 2),
  digits_unfold (λ b. zero) min (λ b. omega arith) a b,
)

pub bit_or-digit : (a b : ℕ) → bit_or a b ≡ bit_or (a / 2) (b / 2) * 2 + max (a % 2) (b % 2)
bit_or-digit a b = omega (
  arith,
  bit_or-bitwise a b,
  bit_or-bitwise (a / 2) (b / 2),
  digits_unfold (λ b. b) max (λ b. omega arith) a b,
)

-- Bit `k` of `a`, counted from the lowest.
unfoldable pub nth_bit : ℕ → ℕ → ℕ
nth_bit zero a = a % 2
nth_bit (suc k) a = nth_bit k (a / 2)

pub nth_bit-le : (k a : ℕ) → nth_bit k a ≤ 1
unfolding nth_bit
nth_bit-le zero a = omega arith
nth_bit-le (suc k) a = nth_bit-le k (a / 2)

pub nth_bit-bit_or : (k a b : ℕ) → nth_bit k (bit_or a b) ≡ max (nth_bit k a) (nth_bit k b)
unfolding nth_bit
nth_bit-bit_or zero a b = omega (arith, bit_or-digit a b)
nth_bit-bit_or (suc k) a b =
    let half : bit_or a b / 2 ≡ bit_or (a / 2) (b / 2) = omega (arith, bit_or-digit a b) in
    rw half (nth_bit-bit_or k (a / 2) (b / 2))

pub nth_bit-bit_and : (k a b : ℕ) → nth_bit k (bit_and a b) ≡ min (nth_bit k a) (nth_bit k b)
unfolding nth_bit
nth_bit-bit_and zero a b = omega (arith, bit_and-digit a b)
nth_bit-bit_and (suc k) a b =
    let half : bit_and a b / 2 ≡ bit_and (a / 2) (b / 2) = omega (arith, bit_and-digit a b) in
    rw half (nth_bit-bit_and k (a / 2) (b / 2))

pub nth_bit-zero : (k : ℕ) → nth_bit k 0 ≡ 0
unfolding nth_bit
nth_bit-zero zero = refl
nth_bit-zero (suc k) = nth_bit-zero k

half-two-pow : (k : ℕ) → (2 ^ suc k / 2 ≡ 2 ^ k) × (2 ^ suc k % 2 ≡ 0)
half-two-pow k = omega (arith, pow-suc 2 k)

pub nth_bit-pow_self : (k : ℕ) → nth_bit k (2 ^ k) ≡ 1
unfolding nth_bit
nth_bit-pow_self zero = refl
nth_bit-pow_self (suc k) = rw ((half-two-pow k).0) (nth_bit-pow_self k)

pub nth_bit-pow_ne : (k j : ℕ) → k ≢ j → nth_bit k (2 ^ j) ≡ 0
unfolding nth_bit
nth_bit-pow_ne zero zero h = absurd (h refl)
nth_bit-pow_ne zero (suc j) h = (half-two-pow j).1
nth_bit-pow_ne (suc k) zero h = nth_bit-zero k
nth_bit-pow_ne (suc k) (suc j) h = rw ((half-two-pow j).0) (nth_bit-pow_ne k j (λ e. h (ap suc e)))

bit_and-zero : (n a : ℕ) → a ≤ n → bit_and a 0 ≡ 0
bit_and-zero zero zero h = refl
bit_and-zero zero (suc a) h = absurd (omega arith)
bit_and-zero (suc n) zero h = refl
bit_and-zero (suc n) (suc a) h =
    omega (arith, bit_and-digit (suc a) 0, bit_and-zero n (suc a / 2) (omega arith))

-- `a & (1 << k)` is bit `k` in its place.
pub bit_and-pow : (k a : ℕ) → bit_and a (2 ^ k) ≡ nth_bit k a * 2 ^ k
unfolding nth_bit
bit_and-pow zero a = omega (arith, bit_and-digit a 1, bit_and-zero (a / 2) (a / 2) (omega arith))
bit_and-pow (suc k) a =
    let place : nth_bit k (a / 2) * 2 ^ suc k ≡ nth_bit k (a / 2) * 2 ^ k * 2 =
      omega (arith, ap (λ (t : ℕ). nth_bit k (a / 2) * t) (pow-suc 2 k)) in
    let half : bit_and (a / 2) (2 ^ suc k / 2) ≡ nth_bit k (a / 2) * 2 ^ k =
      rw ((half-two-pow k).0) (bit_and-pow k (a / 2)) in
    omega (arith, place, half, half-two-pow k, bit_and-digit a (2 ^ suc k))

mod_double : (a w : ℕ) → 0 < w → a % (2 * w) ≡ (a / 2) % w * 2 + a % 2
mod_double a w h = grind arith

-- The mask of the `k` low bits is the remainder by `2 ^ k`; `m` is that mask.
pub bit_and-low : (k a m : ℕ) → m + 1 ≡ 2 ^ k → bit_and a m ≡ a % 2 ^ k
bit_and-low zero a zero h = omega (arith, bit_and-zero a a (omega arith))
bit_and-low zero a (suc m) h = absurd (omega arith)
bit_and-low (suc k) a m h =
    let p : 2 ^ suc k ≡ 2 * 2 ^ k = omega (arith, pow-suc 2 k) in
    let ih : bit_and (a / 2) (m / 2) ≡ (a / 2) % 2 ^ k =
      bit_and-low k (a / 2) (m / 2) (omega arith) in
    omega (arith, bit_and-digit a m, mod_double a (2 ^ k) (omega arith), ap (λ (t : ℕ). a % t) p)

bit_or-zero : (n a : ℕ) → a ≤ n → bit_or a 0 ≡ a
bit_or-zero zero zero h = refl
bit_or-zero zero (suc a) h = absurd (omega arith)
bit_or-zero (suc n) zero h = refl
bit_or-zero (suc n) (suc a) h =
    omega (arith, bit_or-digit (suc a) 0, bit_or-zero n (suc a / 2) (omega arith))

-- Bits that do not meet are added.
pub bit_or-add : (k x y : ℕ) → y < 2 ^ k → bit_or (x * 2 ^ k) y ≡ x * 2 ^ k + y
bit_or-add zero x zero h = omega (arith, bit_or-zero (x * 1) (x * 1) (omega arith))
bit_or-add zero x (suc y) h = absurd (omega arith)
bit_or-add (suc k) x y h =
    let p : 2 ^ suc k ≡ 2 * 2 ^ k = omega (arith, pow-suc 2 k) in
    let place : x * 2 ^ suc k ≡ x * 2 ^ k * 2 =
      omega (arith, ap (λ (t : ℕ). x * t) (pow-suc 2 k)) in
    let half : bit_or (x * 2 ^ suc k / 2) (y / 2) ≡ x * 2 ^ k + y / 2 =
      let below : x * 2 ^ suc k / 2 ≡ x * 2 ^ k = omega (arith, place) in
      rw below (bit_or-add k x (y / 2) (omega arith)) in
    omega (arith, place, half, bit_or-digit (x * 2 ^ suc k) y)

-- `|` of two numbers of `k` bits has `k` bits.
pub bit_or-lt : (k a b : ℕ) → a < 2 ^ k → b < 2 ^ k → bit_or a b < 2 ^ k
bit_or-lt zero zero zero h h' = omega arith
bit_or-lt zero (suc a) b h h' = absurd (omega arith)
bit_or-lt zero zero (suc b) h h' = absurd (omega arith)
bit_or-lt (suc k) a b h h' =
    let double = pow-suc 2 k in
    omega (
      arith,
      double,
      bit_or-digit a b,
      bit_or-lt k (a / 2) (b / 2) (omega (arith, double)) (omega (arith, double)),
    )
