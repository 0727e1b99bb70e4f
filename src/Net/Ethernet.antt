-- ===== src/Net/Ethernet.antt =====
-- Ethernet frames: kernel/src/net/ethernet.rs. `try_into` of a six-byte slice cannot fail.
use compute_kernel.Common.{
  ℕ, ◌+◌, ◌*◌, ◌/◌, ◌%◌, ◌<◌, ◌≡◌, refl, ◌↔◌, ◌∙◌, ap, ap₂, Option, none, some, List, [], ◌∷◌, ◌++◌,
  arith, ltb, if◌then◌else◌, length, take, drop,
}
use compute_kernel.Net.Wire.{be16_at, to_be16, IsBytes}

pub record EthernetFrame : Type 0 where
  pub dst : List ℕ
  pub src : List ℕ
  pub ethertype : ℕ
  pub payload : List ℕ

unfoldable pub parse : List ℕ → Option EthernetFrame
parse bytes =
    if ltb (length bytes) 14
    then none
    else some (record {
      dst = take 6 bytes;
      src = take 6 (drop 6 bytes);
      ethertype = be16_at bytes 12;
      payload = drop 14 bytes;
    })

unfoldable pub serialize : EthernetFrame → List ℕ
serialize f = f.dst ++ (f.src ++ (to_be16 f.ethertype ++ f.payload))

-- What the field types say of a frame: six-byte addresses and a u16.
pub record IsFrame (f : EthernetFrame) : Type 0 where
  pub dst_len : length f.dst ≡ 6
  pub src_len : length f.src ≡ 6
  pub ethertype_lt : f.ethertype < 65536

-- A frame of fourteen header bytes and a payload, as the parser reads it.
abbrev read_frame : (dst src : List ℕ) (hi lo : ℕ) (payload : List ℕ) → EthernetFrame
read_frame dst src hi lo payload = record {
  dst = dst;
  src = src;
  ethertype = hi * 256 + lo;
  payload = payload;
}

parse_fields :
    (dst src : List ℕ) (hi lo : ℕ) (payload : List ℕ)
    → length dst ≡ 6
    → length src ≡ 6
    → parse (dst ++ (src ++ (hi ∷ lo ∷ payload))) ≡ some (read_frame dst src hi lo payload)
unfolding parse
parse_fields (a ∷ b ∷ c ∷ d ∷ e ∷ f ∷ []) (g ∷ h ∷ i ∷ j ∷ k ∷ l ∷ []) hi lo payload p q =
    ground arith
parse_fields _ _ hi lo payload p q = absurd (omega arith)

-- Parsing what was serialised gives the frame back.
pub frame_read_back : (f : EthernetFrame) → IsFrame f → parse (serialize f) ≡ some f
unfolding serialize
frame_read_back f v =
    parse_fields f.dst f.src (f.ethertype / 256) (f.ethertype % 256) f.payload v.dst_len v.src_len
    ∙ ap (λ (t : ℕ). some (record f { ethertype = t })) (omega arith)

short_refused : (bytes : List ℕ) {f : EthernetFrame} → length bytes < 14 → parse bytes ≡ some f → ⊥
unfolding parse
short_refused bytes short parsed = ground arith

-- Serialising what was parsed gives the bytes back: the parser loses nothing of a frame.
frame_written_back :
    (bytes : List ℕ) {f : EthernetFrame}
    → IsBytes bytes
    → parse bytes ≡ some f
    → serialize f ≡ bytes
unfolding serialize
frame_written_back (a ∷ b ∷ c ∷ d ∷ e ∷ g ∷ h ∷ i ∷ j ∷ k ∷ l ∷ m ∷ hi ∷ lo ∷ payload) {f} small
      parsed =
    let dst = a ∷ b ∷ c ∷ d ∷ e ∷ g ∷ [] in
    let src = h ∷ i ∷ j ∷ k ∷ l ∷ m ∷ [] in
    let frame : read_frame dst src hi lo payload ≡ f =
      cc (parse_fields dst src hi lo payload refl refl) in
    rw (← frame) (ap₂ (λ (x y : ℕ). dst ++ (src ++ (x ∷ y ∷ payload))) (omega arith) (omega arith))
frame_written_back bytes small parsed = absurd (short_refused bytes (omega arith) parsed)

-- Exactly the inputs below the header's fourteen bytes are refused.
pub parse_refuses : (bytes : List ℕ) → (parse bytes ≡ none) ↔ (length bytes < 14)
unfolding parse
parse_refuses bytes = (λ h. ground arith, λ h. ground arith)
