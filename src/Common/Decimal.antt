-- ===== src/Common/Decimal.antt =====
-- `format!("{}", n)` of an unsigned number.
use Prim.Native.Nat.{ℕ, zero, suc, ◌+◌, ◌-◌, ◌*◌, ◌/◌, ◌%◌, ◌^◌, ◌<◌}
use mathlib.Core.Path.{◌≡◌, refl}
use mathlib.Core.Bool.{false}
use mathlib.Core.Logic.{inl, inr}
use mathlib.Core.List.{List, [], ◌∷◌, ◌++◌}
use native.Mathlib.Nat.{pow-suc}
use native.Mathlib.Omega.{arith}
use compute_kernel.Common.Tests.{ltb, if◌then◌else◌, Bool-cases}

-- The digits, with at most as many as the fuel.
unfoldable pub decimal : ℕ → ℕ → List ℕ
decimal zero n = []
decimal (suc fuel) n =
    let front = decimal fuel (n / 10) in
    if ltb n 10 then (48 + n) ∷ [] else front ++ ((48 + n % 10) ∷ [])

-- A u64 has twenty digits at most.
abbrev pub show_u64 : ℕ → List ℕ
show_u64 n = decimal 20 n

-- The number that a string of digits stands for.
pub value_from : ℕ → List ℕ → ℕ
value_from acc [] = acc
value_from acc (c ∷ cs) = value_from (acc * 10 + (c - 48)) cs

value_from-append :
    (acc : ℕ) (xs : List ℕ) (c : ℕ)
    → value_from acc (xs ++ (c ∷ [])) ≡ value_from acc xs * 10 + (c - 48)
unfolding value_from
value_from-append acc [] c = refl
value_from-append acc (x ∷ xs) c = value_from-append (acc * 10 + (x - 48)) xs c

-- With enough fuel the digits read back as the number.
pub value-decimal : (fuel n : ℕ) → n < 10 ^ fuel → 0 < fuel → value_from 0 (decimal fuel n) ≡ n
unfolding decimal
value-decimal zero n h pos = absurd (omega arith)
value-decimal (suc fuel) n h pos = elim (Bool-cases (ltb n 10)) [
  | inl last ↦ rw (last, decimal) (unfold value_from in omega arith)
  | inr more ↦
      let few : n / 10 < 10 ^ fuel = omega (arith, pow-suc 10 fuel) in
      rw (more, decimal, value_from-append)
        (omega (arith, value-decimal fuel (n / 10) few (one_digit fuel n few (ltb_ge n more))))
]
  where
    ltb_ge : (n : ℕ) → ltb n 10 ≡ false → 10 < n + 1
    ltb_ge n h = ground arith

    one_digit : (fuel n : ℕ) → n / 10 < 10 ^ fuel → 10 < n + 1 → 0 < fuel
    one_digit zero n h l = absurd (omega arith)
    one_digit (suc fuel) n h l = omega arith
