-- ===== src/Net/Wire.antt =====
-- `from_be_bytes` and `to_be_bytes` of u16 and u32, and byte strings.
use compute_kernel.Common.{ℕ, suc, ◌+◌, ◌*◌, ◌/◌, ◌%◌, ◌<◌, List, [], ◌∷◌, All, get_or}

abbrev pub be16 : ℕ → ℕ → ℕ
be16 hi lo = hi * 256 + lo

abbrev pub be32 : ℕ → ℕ → ℕ → ℕ → ℕ
be32 a b c d = be16 (be16 (be16 a b) c) d

abbrev pub to_be16 : ℕ → List ℕ
to_be16 n = (n / 256) ∷ (n % 256) ∷ []

abbrev pub to_be32 : ℕ → List ℕ
to_be32 n = (n / 16777216) ∷ (n / 65536 % 256) ∷ (n / 256 % 256) ∷ (n % 256) ∷ []

-- The u16 at an index, and the u32.
abbrev pub be16_at : List ℕ → ℕ → ℕ
be16_at xs i = be16 (get_or xs i 0) (get_or xs (suc i) 0)

abbrev pub be32_at : List ℕ → ℕ → ℕ
be32_at xs i =
    be32 (get_or xs i 0) (get_or xs (suc i) 0) (get_or xs (suc (suc i)) 0)
      (get_or xs (suc (suc (suc i))) 0)

abbrev pub IsBytes : List ℕ → Type 0
IsBytes xs = All (λ b. b < 256) xs
