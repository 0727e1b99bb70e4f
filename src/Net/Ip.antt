-- ===== src/Net/Ip.antt =====
-- IPv4: kernel/src/net/ip.rs, the packet parser and the header checksum.
pub mod Checksum
use compute_kernel.Common.{
  ℕ, zero, suc, ◌+◌, ◌-◌, ◌*◌, ◌/◌, ◌%◌, ◌^◌, ◌<◌, ◌≤◌, ◌≡◌, ◌↔◌, ◌⊎◌, refl, ap, ◌∙◌, not, Option,
  none, some, List, [], ◌∷◌, ◌++◌, arith, ltb, ◌==◌, if◌then◌else◌, length, take, drop, get_or,
  bit_and, bit_and-low, Outcome, done, panic, ◌>>=◌, slice_from, Bool-cases, inl, inr,
  length-append, drop-append_left,
}
use compute_kernel.Net.Wire.{IsBytes, be16, to_be16}

pub record IpPacket : Type 0 where
  pub src : List ℕ
  pub dst : List ℕ
  pub protocol : ℕ
  pub ttl : ℕ
  pub payload : List ℕ

-- `((version_ihl & 0x0F) * 4) as usize`, the header's length; a u8 product that cannot overflow.
abbrev pub header_len : ℕ → ℕ
header_len version_ihl = bit_and version_ihl 15 * 4

-- A header length beyond the data panics in `&data[ihl..]`.
unfoldable pub parse : List ℕ → Outcome (Option IpPacket)
parse bytes =
    if ltb (length bytes) 20
    then done none
    else if not (get_or bytes 0 0 / 2 ^ 4 == 4)
    then done none
    else do
      payload ← slice_from (header_len (get_or bytes 0 0)) bytes
      done (
          some (record {
            src = take 4 (drop 12 bytes);
            dst = take 4 (drop 16 bytes);
            protocol = get_or bytes 9 0;
            ttl = get_or bytes 8 0;
            payload = payload;
          }))

-- `sum += word` over `header.chunks(2)`, on a u32.
unfoldable pub sum_words : ℕ → List ℕ → ℕ
sum_words sum [] = sum
sum_words sum (a ∷ []) = (sum + a * 256) % 2 ^ 32
sum_words sum (a ∷ b ∷ rest) = sum_words ((sum + be16 a b) % 2 ^ 32) rest

-- `while sum >> 16 != 0 { sum = (sum & 0xFFFF) + (sum >> 16); }` with fuel.
unfoldable pub fold : ℕ → ℕ → ℕ
fold zero sum = sum
fold (suc fuel) sum =
    let again = fold fuel (bit_and sum 65535 + sum / 2 ^ 16) in
    if sum / 2 ^ 16 == 0 then sum else again

-- Three rounds are enough for a u32.
abbrev pub fold_fuel : ℕ
fold_fuel = 3

-- `!(sum as u16)`.
unfoldable pub checksum : List ℕ → ℕ
checksum header = 65535 - fold fold_fuel (sum_words 0 header) % 65536

-- A packet with a header of `words` words (5 to 15), options included, is read back: its addresses,
-- protocol, time to live and the payload behind the options.
pub parse_packet :
    (words tos a b c d e f ttl protocol x y : ℕ) (s1 s2 s3 s4 d1 d2 d3 d4 : ℕ)
    (options payload : List ℕ)
    → 5 ≤ words
    → words ≤ 15
    → 20 + length options ≡ words * 4
    → parse (
        (64 + words)
        ∷ tos
        ∷ a
        ∷ b
        ∷ c
        ∷ d
        ∷ e
        ∷ f
        ∷ ttl
        ∷ protocol
        ∷ x
        ∷ y
        ∷ s1
        ∷ s2
        ∷ s3
        ∷ s4
        ∷ d1
        ∷ d2
        ∷ d3
        ∷ d4
        ∷ (options ++ payload))
      ≡ done (
          some (record {
            src = s1 ∷ s2 ∷ s3 ∷ s4 ∷ [];
            dst = d1 ∷ d2 ∷ d3 ∷ d4 ∷ [];
            protocol = protocol;
            ttl = ttl;
            payload = payload;
          }))
unfolding parse
parse_packet words tos a b c d e f ttl protocol x y s1 s2 s3 s4 d1 d2 d3 d4 options payload lo hi
      len =
    let header =
      (64 + words)
      ∷ tos
      ∷ a
      ∷ b
      ∷ c
      ∷ d
      ∷ e
      ∷ f
      ∷ ttl
      ∷ protocol
      ∷ x
      ∷ y
      ∷ s1
      ∷ s2
      ∷ s3
      ∷ s4
      ∷ d1
      ∷ d2
      ∷ d3
      ∷ d4
      ∷ options in
    let len4 : header_len (64 + words) ≡ length header =
      omega (arith, bit_and-low 4 (64 + words) 15 refl) in
    let rest : drop (header_len (64 + words)) (header ++ payload) ≡ payload =
      ap (λ (n : ℕ). drop n (header ++ payload)) len4 ∙ drop-append_left header payload in
    ground (arith, rest, len4, length-append options payload)

-- The parser panics exactly on twenty bytes and more that say version 4 and a header longer than
-- they are.
packet_truncated :
    (bytes : List ℕ)
    → (parse bytes ≡ panic) ↔ (
        (20 ≤ length bytes)
        × (get_or bytes 0 0 / 16 ≡ 4)
        × (length bytes < get_or bytes 0 0 % 16 * 4))
unfolding parse
packet_truncated bytes =
    let nibble = bit_and-low 4 (get_or bytes 0 0) 15 refl in (λ h. ground arith, λ h. ground arith)
