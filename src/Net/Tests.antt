-- ===== src/Net/Tests.antt =====
-- The wire formats of kernel/src/net on concrete bytes, and the theorems at them.
use compute_kernel.Common.{ℕ, ◌≡◌, refl, some, List, [], ◌∷◌, ◌++◌, arith, replicate, bit_and, done}
use compute_kernel.Net.Wire.{to_be16, to_be32}
use compute_kernel.Net.Ethernet
use compute_kernel.Net.Ethernet.{EthernetFrame}
use compute_kernel.Net.Udp
use compute_kernel.Net.Udp.{UdpDatagram, IsSendable, datagram_read_back}
use compute_kernel.Net.Ip
use compute_kernel.Net.Ip.{checksum, fold, fold_fuel, parse_packet}
use compute_kernel.Net.Ip.Checksum.{checksum-verifies}
use compute_kernel.Net.Tcp
use compute_kernel.Net.Tcp.{parse_segment}

abbrev frame : EthernetFrame
frame = record {
  dst = 255 ∷ 255 ∷ 255 ∷ 255 ∷ 255 ∷ 255 ∷ [];
  src = 2 ∷ 0 ∷ 0 ∷ 0 ∷ 0 ∷ 1 ∷ [];
  ethertype = 0x0806;
  payload = 9 ∷ [];
}

abbrev frame_bytes : List ℕ
frame_bytes = 255 ∷ 255 ∷ 255 ∷ 255 ∷ 255 ∷ 255 ∷ 2 ∷ 0 ∷ 0 ∷ 0 ∷ 0 ∷ 1 ∷ 8 ∷ 6 ∷ 9 ∷ []

abbrev datagram : UdpDatagram
datagram = record { src_port = 5353; dst_port = 53; payload = 1 ∷ 2 ∷ 3 ∷ [] }

abbrev huge : UdpDatagram
huge = record datagram { payload = replicate 65528 0 }

-- The header of a packet, its checksum field zero.
abbrev header : List ℕ
header = 69 ∷ 0 ∷ 0 ∷ 28 ∷ 0 ∷ 0 ∷ 0 ∷ 0 ∷ 64 ∷ 17 ∷ 0 ∷ 0 ∷ 10 ∷ 0 ∷ 0 ∷ 1 ∷ 10 ∷ 0 ∷ 0 ∷ 2 ∷ []

checksum-header : checksum header ≡ 26319
unfolding checksum Ip.sum_words fold
checksum-header = refl

abbrev keep_declared : ℕ → ℕ → ℕ
keep_declared all byte = bit_and byte all

reads_frame : Ethernet.parse (Ethernet.serialize frame) ≡ some frame
unfolding Ethernet.parse Ethernet.serialize
reads_frame = refl

datagram_read_back_example : Udp.parse (Udp.serialize datagram ++ (7 ∷ [])) ≡ some datagram
datagram_read_back_example = datagram_read_back datagram (7 ∷ []) (omega arith)

checksum-verifies_example : checksum (header ++ to_be16 (checksum header)) ≡ 0
checksum-verifies_example = checksum-verifies header (omega arith) refl (omega arith)

parse_packet_example :
    Ip.parse (
      70 ∷ 0 ∷ 0 ∷ 28 ∷ 0 ∷ 0 ∷ 0 ∷ 0 ∷ 64 ∷ 17 ∷ 0 ∷ 0 ∷ 10 ∷ 0 ∷ 0 ∷ 1 ∷ 10 ∷ 0 ∷ 0 ∷ 2 ∷ 1 ∷ 1
      ∷ 1 ∷ 0 ∷ 99 ∷ [])
    ≡ done (
        some (record {
          src = 10 ∷ 0 ∷ 0 ∷ 1 ∷ [];
          dst = 10 ∷ 0 ∷ 0 ∷ 2 ∷ [];
          protocol = 17;
          ttl = 64;
          payload = 99 ∷ [];
        }))
parse_packet_example =
    parse_packet 6 0 0 28 0 0 0 0 64 17 0 0 10 0 0 1 10 0 0 2 (1 ∷ 1 ∷ 1 ∷ 0 ∷ []) (99 ∷ [])
      (omega arith) (omega arith) refl

parse_segment_example :
    Tcp.parse keep_declared (
      to_be16 80
      ++ (to_be16 4000
          ++ (to_be32 7
              ++ (to_be32 9 ++ (80 ∷ 0xd2 ∷ (to_be16 512 ++ (0 ∷ 0 ∷ 0 ∷ 0 ∷ 42 ∷ [])))))))
    ≡ done (
        some (record {
          src_port = 80;
          dst_port = 4000;
          seq_num = 7;
          ack_num = 9;
          flags = 0xd2;
          window = 512;
          payload = 42 ∷ [];
        }))
parse_segment_example =
    parse_segment keep_declared (λ all byte. refl) 80 4000 7 9 5 0xd2 512 0 0 0 0 [] (42 ∷ [])
      (omega arith) (omega arith) (omega arith) (omega arith) (omega arith) refl
