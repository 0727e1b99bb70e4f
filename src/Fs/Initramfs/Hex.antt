-- ===== src/Fs/Initramfs/Hex.antt =====
-- The header fields of a cpio archive (`parse_hex8` of kernel/src/fs/initramfs.rs): eight
-- hexadecimal digits, read back.
use compute_kernel.Common.{
  ℕ, ◌+◌, ◌*◌, ◌/◌, ◌%◌, ◌^◌, ◌<◌, ◌≡◌, refl, ◌∙◌, some, List, [], ◌∷◌, arith, ltb, if◌then◌else◌,
  ◌==◌, All, is_utf8_ascii, false,
}
use compute_kernel.Fs.Initramfs.{hex_digit, hex_value, from_str_radix_16, parse_hex8}

-- A digit below 16, and a u32 as eight of them.
abbrev pub hex_char : ℕ → ℕ
hex_char d = if ltb d 10 then 48 + d else 87 + d

abbrev pub hex8 : ℕ → List ℕ
hex8 n =
    hex_char (n / 2 ^ 28 % 16)
    ∷ hex_char (n / 2 ^ 24 % 16)
    ∷ hex_char (n / 2 ^ 20 % 16)
    ∷ hex_char (n / 2 ^ 16 % 16)
    ∷ hex_char (n / 2 ^ 12 % 16)
    ∷ hex_char (n / 2 ^ 8 % 16)
    ∷ hex_char (n / 2 ^ 4 % 16)
    ∷ hex_char (n % 16)
    ∷ []

digit-hex_char : (d : ℕ) → d < 16 → hex_digit (hex_char d) ≡ some d
unfolding hex_digit
digit-hex_char d h = ground arith

hex_value-digit :
    (acc m : ℕ) (cs : List ℕ)
    → acc ≡ m / 16
    → m < 2 ^ 32
    → hex_value acc (hex_char (m % 16) ∷ cs) ≡ hex_value m cs
unfolding hex_value
hex_value-digit acc m cs e h =
    let d = digit-hex_char (m % 16) (omega arith) in
    let whole : acc * 16 + m % 16 ≡ m = omega arith in rw (d, hex_value, whole) (ground arith)

hex_char-range : (m : ℕ) → (47 < hex_char (m % 16)) × (hex_char (m % 16) < 128)
hex_char-range m = let small : m % 16 < 16 = omega arith in ground arith

digit_range : (m : ℕ) → hex_char (m % 16) < 128
digit_range m = (hex_char-range m).1

hex8_ascii : (n : ℕ) → All (λ c. c < 128) (hex8 n)
hex8_ascii n = (
  digit_range (n / 2 ^ 28),
  (
    digit_range (n / 2 ^ 24),
    (
      digit_range (n / 2 ^ 20),
      (
        digit_range (n / 2 ^ 16),
        (
          digit_range (n / 2 ^ 12),
          (digit_range (n / 2 ^ 8), (digit_range (n / 2 ^ 4), (digit_range n, tt))),
        ),
      ),
    ),
  ),
)

hex_value-hex8 : (n : ℕ) → n < 2 ^ 32 → hex_value 0 (hex8 n) ≡ some n
hex_value-hex8 n h =
    hex_value-digit 0 (n / 2 ^ 28) _ (omega arith) (omega arith)
    ∙ hex_value-digit (n / 2 ^ 28) (n / 2 ^ 24) _ (omega arith) (omega arith)
    ∙ hex_value-digit (n / 2 ^ 24) (n / 2 ^ 20) _ (omega arith) (omega arith)
    ∙ hex_value-digit (n / 2 ^ 20) (n / 2 ^ 16) _ (omega arith) (omega arith)
    ∙ hex_value-digit (n / 2 ^ 16) (n / 2 ^ 12) _ (omega arith) (omega arith)
    ∙ hex_value-digit (n / 2 ^ 12) (n / 2 ^ 8) _ (omega arith) (omega arith)
    ∙ hex_value-digit (n / 2 ^ 8) (n / 2 ^ 4) _ (omega arith) (omega arith)
    ∙ hex_value-digit (n / 2 ^ 4) n _ (omega arith) h
    ∙ unfold hex_value in refl

-- A u32 written as eight digits is read back.
pub parse_hex8-hex8 : (n : ℕ) → n < 2 ^ 32 → parse_hex8 (hex8 n) ≡ some n
unfolding parse_hex8 from_str_radix_16
parse_hex8-hex8 n h =
    let no_sign : (hex_char (n / 2 ^ 28 % 16) == b'+') ≡ false =
      ground (arith, hex_char-range (n / 2 ^ 28)) in
    rw (is_utf8_ascii (hex8 n) (hex8_ascii n), no_sign) (hex_value-hex8 n h)
