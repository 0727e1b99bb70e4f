-- ===== src/Net/Tcp.antt =====
-- TCP segments: kernel/src/net/tcp.rs, the flags and the segment parser. `from_bits_truncate`, which
-- the crate `bitflags` generates for `TcpFlags`, is a parameter: it takes all the bits that the type
-- declares, and a byte.
use compute_kernel.Common.{
  ℕ, ◌+◌, ◌*◌, ◌/◌, ◌^◌, ◌<◌, ◌≤◌, ◌≡◌, ◌↔◌, ap, ◌∙◌, Option, none, some, List, ◌∷◌, ◌++◌, arith,
  bit_and, bit_or, bit_and-low, refl, ltb, if◌then◌else◌, length, drop, get_or, Outcome, done,
  panic, ◌>>=◌, slice_from, length-append, drop-append_left,
}
use compute_kernel.Net.Wire.{be16_at, be32_at, to_be16, to_be32}

-- `TcpFlags`, by the bits of its constants.
abbrev pub fin : ℕ
fin = 0x01

abbrev pub syn : ℕ
syn = 0x02

abbrev pub rst : ℕ
rst = 0x04

abbrev pub psh : ℕ
psh = 0x08

abbrev pub ack : ℕ
ack = 0x10

abbrev pub urg : ℕ
urg = 0x20

abbrev pub ece : ℕ
ece = 0x40

abbrev pub cwr : ℕ
cwr = 0x80

-- `TcpFlags::all`.
unfoldable pub tcp_flags_all : ℕ
tcp_flags_all =
    bit_or fin (bit_or syn (bit_or rst (bit_or psh (bit_or ack (bit_or urg (bit_or ece cwr))))))

pub record TcpSegment : Type 0 where
  pub src_port : ℕ
  pub dst_port : ℕ
  pub seq_num : ℕ
  pub ack_num : ℕ
  pub flags : ℕ
  pub window : ℕ
  pub payload : List ℕ

-- `((data[12] >> 4) * 4) as usize`; a u8 product that cannot overflow.
abbrev pub data_offset : ℕ → ℕ
data_offset byte = byte / 2 ^ 4 * 4

whole_byte : (byte : ℕ) → byte < 256 → bit_and byte tcp_flags_all ≡ byte
unfolding tcp_flags_all
whole_byte byte h = omega (arith, bit_and-low 8 byte 255 refl)

module _ (from_bits_truncate : ℕ → ℕ → ℕ) where
  -- A data offset beyond the segment panics in `&data[data_offset..]`.
  unfoldable pub parse : List ℕ → Outcome (Option TcpSegment)
  parse bytes = if ltb (length bytes) 20 then done none else do
    payload ← slice_from (data_offset (get_or bytes 12 0)) bytes
    done (
        some (record {
          src_port = be16_at bytes 0;
          dst_port = be16_at bytes 2;
          seq_num = be32_at bytes 4;
          ack_num = be32_at bytes 8;
          flags = from_bits_truncate tcp_flags_all (get_or bytes 13 0);
          window = be16_at bytes 14;
          payload = payload;
        }))

  -- A segment written by its header's fields, with a header of `words` words (5 to 15) that ends in
  -- options, is read back: ports, numbers, flags, window and the payload behind the options. All eight bits of the flags
  -- are kept, where `from_bits_truncate` keeps the bits that the type declares.
  pub parse_segment :
      ((all byte : ℕ) → from_bits_truncate all byte ≡ bit_and byte all)
      → (sport dport seq ack words flags window : ℕ) (w x y z : ℕ) (options payload : List ℕ)
      → flags < 256
      → sport < 65536
      → dport < 65536
      → window < 65536
      → 5 ≤ words
      → 20 + length options ≡ words * 4
      → parse (
          to_be16 sport
          ++ (to_be16 dport
              ++ (to_be32 seq
                  ++ (to_be32 ack
                      ++ ((words * 16)
                          ∷ flags
                          ∷ (to_be16 window ++ (w ∷ x ∷ y ∷ z ∷ (options ++ payload))))))))
        ≡ done (
            some (record {
              src_port = sport;
              dst_port = dport;
              seq_num = seq;
              ack_num = ack;
              flags = flags;
              window = window;
              payload = payload;
            }))
  unfolding parse
  parse_segment truncates sport dport seq ack words flags window w x y z options payload hf hs hd hw
        lo len =
      let header =
        to_be16 sport
        ++ (to_be16 dport
            ++ (to_be32 seq
                ++ (to_be32 ack
                    ++ ((words * 16) ∷ flags ∷ (to_be16 window ++ (w ∷ x ∷ y ∷ z ∷ options)))))) in
      let offset : data_offset (words * 16) ≡ length header = omega arith in
      let rest : drop (data_offset (words * 16)) (header ++ payload) ≡ payload =
        ap (λ (n : ℕ). drop n (header ++ payload)) offset ∙ drop-append_left header payload in
      let kept : from_bits_truncate tcp_flags_all flags ≡ flags =
        truncates tcp_flags_all flags ∙ whole_byte flags hf in
      ground (arith, kept, rest, offset, length-append options payload)

  -- The parser panics exactly on segments of twenty bytes and more whose data offset lies beyond
  -- their end.
  segment_truncated :
      (bytes : List ℕ)
      → (parse bytes ≡ panic) ↔ ((20 ≤ length bytes) × (length bytes < get_or bytes 12 0 / 16 * 4))
  unfolding parse
  segment_truncated bytes = (λ h. ground arith, λ h. ground arith)
