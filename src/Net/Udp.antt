-- ===== src/Net/Udp.antt =====
-- UDP datagrams: kernel/src/net/udp.rs.
use compute_kernel.Common.{
  ℕ, ◌+◌, ◌-◌, ◌*◌, ◌/◌, ◌%◌, ◌<◌, ◌≤◌, ◌≡◌, ◌≢◌, ap, ◌∙◌, ◌||◌, Option, none, some, List, ◌∷◌,
  ◌++◌, arith, ltb, if◌then◌else◌, length, take, drop, length-append, take-append_left, length-take,
  length-drop,
}
use compute_kernel.Net.Wire.{be16_at, to_be16}

pub record UdpDatagram : Type 0 where
  pub src_port : ℕ
  pub dst_port : ℕ
  pub payload : List ℕ

-- `data[8..length]`, inside the tests `length >= 8` and `length <= data.len()`.
unfoldable pub parse : List ℕ → Option UdpDatagram
parse bytes =
    if ltb (length bytes) 8
    then none
    else let len = be16_at bytes 4 in
      if ltb len 8 || ltb (length bytes) len
      then none
      else some (record {
        src_port = be16_at bytes 0;
        dst_port = be16_at bytes 2;
        payload = take (len - 8) (drop 8 bytes);
      })

-- The length is cast to u16, so it wraps for a payload of 65528 bytes and more.
abbrev pub length_field : UdpDatagram → ℕ
length_field d = (8 + length d.payload) % 65536

unfoldable pub serialize : UdpDatagram → List ℕ
serialize d =
    to_be16 d.src_port
    ++ (to_be16 d.dst_port ++ (to_be16 (length_field d) ++ (to_be16 0 ++ d.payload)))

-- What the field types say of a datagram, and that its length fits the length field.
pub record IsSendable (d : UdpDatagram) : Type 0 where
  pub src_lt : d.src_port < 65536
  pub dst_lt : d.dst_port < 65536
  pub fits : length d.payload ≤ 65527

accepted :
    (a b c d l n x y : ℕ) (tail : List ℕ) (len : ℕ)
    → l * 256 + n ≡ len
    → 8 ≤ len
    → len ≤ 8 + length tail
    → parse (a ∷ b ∷ c ∷ d ∷ l ∷ n ∷ x ∷ y ∷ tail)
      ≡ some
          (record { src_port = a * 256 + b; dst_port = c * 256 + d; payload = take (len - 8) tail })
unfolding parse
accepted a b c d l n x y tail len e lo hi = ground arith

-- A datagram that fits its length field is read back from its bytes, whatever follows them.
pub datagram_read_back :
    (d : UdpDatagram) (rest : List ℕ) → IsSendable d → parse (serialize d ++ rest) ≡ some d
unfolding serialize
datagram_read_back d rest v =
    accepted (d.src_port / 256) (d.src_port % 256) (d.dst_port / 256) (d.dst_port % 256)
      (length_field d / 256) (length_field d % 256) 0 0 (d.payload ++ rest) (8 + length d.payload)
      (omega (arith, v.fits)) (omega arith) (omega (arith, length-append d.payload rest))
    ∙ ground (arith, same_port d.src_port, same_port d.dst_port, payload_part)
  where
    same_port : (p : ℕ) → p / 256 * 256 + p % 256 ≡ p
    same_port p = omega arith

    payload_part : take (8 + length d.payload - 8) (d.payload ++ rest) ≡ d.payload
    payload_part =
        ap (λ (n : ℕ). take n (d.payload ++ rest)) (omega arith) ∙ take-append_left d.payload rest

-- What is accepted: the length field counts the header and the payload, and no more than is there.
pub parse-length :
    (bytes : List ℕ) {d : UdpDatagram}
    → parse bytes ≡ some d
    → (length d.payload + 8 ≡ be16_at bytes 4) × (length d.payload + 8 ≤ length bytes)
unfolding parse
parse-length bytes {d} e =
    ground (arith, length-take (be16_at bytes 4 - 8) (drop 8 bytes), length-drop 8 bytes)

-- A payload of 65528 bytes and more is never read back: the length field has wrapped.
too_long_lost : (d : UdpDatagram) → 65528 ≤ length d.payload → parse (serialize d) ≢ some d
unfolding serialize
too_long_lost d long e = omega (arith, parse-length (serialize d) e)
