-- ===== src/Net/Ip/Checksum.antt =====
-- The IPv4 header checksum (`IpPacket::checksum` of kernel/src/net/ip.rs): the folding loop and the
-- sum of a header that carries its checksum.
use compute_kernel.Common.{
  ℕ, zero, suc, ◌+◌, ◌-◌, ◌*◌, ◌/◌, ◌%◌, ◌^◌, ◌<◌, ◌≤◌, ◌≡◌, ◌⊎◌, refl, ap, ◌∙◌, List, [], ◌∷◌,
  ◌++◌, arith, ltb, length, bit_and-low, Bool-cases, inl, inr,
}
use compute_kernel.Net.Wire.{IsBytes, be16, to_be16}
use compute_kernel.Net.Ip.{sum_words, fold, fold_fuel, checksum}

fold_step :
    (fuel sum : ℕ) → 65536 ≤ sum → fold (suc fuel) sum ≡ fold fuel (sum % 65536 + sum / 65536)
unfolding fold
fold_step fuel sum h = ground (arith, bit_and-low 16 sum 65535 refl)

fold_stop : (fuel sum : ℕ) → sum < 65536 → fold fuel sum ≡ sum
unfolding fold
fold_stop zero sum h = refl
fold_stop (suc fuel) sum h = ground arith

-- What the loop may do to a sum: end below 2 ^ 16, by steps that keep the remainder by 65535 and
-- take 0 to 0 and a positive sum to a positive one.
record Folded (sum result : ℕ) : Type 0 where
  small : result < 65536
  alike : result % 65535 ≡ sum % 65535
  positive : ((sum ≡ 0) × (result ≡ 0)) ⊎ ((0 < sum) × (0 < result))

-- One round.
round : ℕ → ℕ
round sum = sum % 65536 + sum / 65536

round_alike :
    (sum : ℕ)
    → (round sum % 65535 ≡ sum % 65535)
      × (((sum ≡ 0) × (round sum ≡ 0)) ⊎ ((0 < sum) × (0 < round sum)))
unfolding round
round_alike zero = (refl, inl (refl, refl))
round_alike (suc sum) = (omega arith, inr (omega arith, omega arith))

zero_or_more : (n : ℕ) → ((n ≡ 0) × (n ≡ 0)) ⊎ ((0 < n) × (0 < n))
zero_or_more zero = inl (refl, refl)
zero_or_more (suc n) = inr (omega arith, omega arith)

stopped : (fuel sum : ℕ) → sum < 65536 → Folded sum (fold fuel sum)
stopped fuel sum h =
    rw (fold_stop fuel sum h) (record { small = h; alike = refl; positive = zero_or_more sum })

-- A round before a folded rest.
stepped :
    (fuel sum : ℕ)
    → 65536 ≤ sum
    → Folded (round sum) (fold fuel (round sum))
    → Folded sum (fold (suc fuel) sum)
unfolding round
stepped fuel sum h later = rw (fold_step fuel sum h) (record {
  small = later.small;
  alike = omega (arith, later.alike, round_alike sum);
  positive = inr (omega arith, omega (arith, later.positive, round_alike sum));
})

fold_from_17_bits : (fuel sum : ℕ) → sum ≤ 131070 → Folded sum (fold (suc fuel) sum)
fold_from_17_bits fuel sum h = elim (Bool-cases (ltb sum 65536)) [
  | inl few ↦ stopped (suc fuel) sum (ground arith)
  | inr many ↦
      stepped fuel sum (ground arith) (stopped fuel (round sum) (round_small sum h (ground arith)))
]
  where
    round_small : (s : ℕ) → s ≤ 131070 → 65536 ≤ s → round s < 65536
    round_small s h l = unfold round in omega arith

fold_three : (sum : ℕ) → sum < 2 ^ 32 → Folded sum (fold 3 sum)
fold_three sum h = elim (Bool-cases (ltb sum 65536)) [
  | inl few ↦ stopped 3 sum (ground arith)
  | inr many ↦
      stepped 2 sum (ground arith) (fold_from_17_bits 1 (round sum) (unfold round in omega arith))
]

-- The loop's fuel is enough for every u32: it ends with the sum in sixteen bits.
fold_ends : (sum : ℕ) → sum < 2 ^ 32 → fold fold_fuel sum < 65536
fold_ends sum h = (fold_three sum h).small

-- The sum of the header's words, with no wrap.
total : List ℕ → ℕ
total [] = 0
total (a ∷ []) = a * 256
total (a ∷ b ∷ rest) = be16 a b + total rest

total-le : (xs : List ℕ) → IsBytes xs → total xs ≤ 32768 * (length xs + 1)
unfolding total
total-le [] h = omega arith
total-le (a ∷ []) h = omega (arith, h.0)
total-le (a ∷ b ∷ rest) h = omega (arith, h.0, h.1.0, total-le rest h.1.1)

sum_words-eq-total :
    (xs : List ℕ) (sum : ℕ) → sum + total xs < 2 ^ 32 → sum_words sum xs ≡ sum + total xs
unfolding total sum_words
sum_words-eq-total [] sum h = omega arith
sum_words-eq-total (a ∷ []) sum h = omega arith
sum_words-eq-total (a ∷ b ∷ rest) sum h =
    let no_wrap : (sum + be16 a b) % 2 ^ 32 ≡ sum + be16 a b = omega arith in
    rw no_wrap (sum_words-eq-total rest (sum + be16 a b) (omega arith) ∙ omega arith)

total-append_word :
    (xs : List ℕ) (c : ℕ) → length xs % 2 ≡ 0 → total (xs ++ to_be16 c) ≡ total xs + c
unfolding total
total-append_word [] c h = omega arith
total-append_word (a ∷ []) c h = absurd (omega arith)
total-append_word (a ∷ b ∷ rest) c h = omega (arith, total-append_word rest c (omega arith))

checksum_of_total :
    (xs : List ℕ) → total xs < 2 ^ 32 → checksum xs ≡ 65535 - fold 3 (total xs) % 65536
unfolding checksum
checksum_of_total xs h =
    ap (λ (s : ℕ). 65535 - fold 3 s % 65536) (sum_words-eq-total xs 0 (omega arith) ∙ omega arith)

-- A header of whole words with its checksum appended sums up to the checksum 0, by which a receiver
-- accepts it. (The sum fits its u32 for headers up to 131068 bytes; an IPv4 header has 60 at most.)
pub checksum-verifies :
    (header : List ℕ)
    → IsBytes header
    → length header % 2 ≡ 0
    → length header ≤ 131068
    → checksum (header ++ to_be16 (checksum header)) ≡ 0
checksum-verifies header bytes even short =
    let c = checksum header in
    let bound = total-le header bytes in
    let own : c ≡ 65535 - fold 3 (total header) % 65536 = checksum_of_total header (omega arith) in
    let all : total (header ++ to_be16 c) ≡ total header + c = total-append_word header c even in
    let before = fold_three (total header) (omega arith) in
    let after = fold_three (total header + c) (omega arith) in
    checksum_of_total (header ++ to_be16 c) (omega arith)
    ∙ ap (λ (s : ℕ). 65535 - fold 3 s % 65536) all
    ∙ omega (arith, before, after)
