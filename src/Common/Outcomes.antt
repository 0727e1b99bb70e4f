-- ===== src/Common/Outcomes.antt =====
-- Results of code that may panic, and slices that do when they are out of range.
use Prim.Native.Nat.{ℕ, ◌≤◌, ◌+◌, ◌*◌, ◌-◌, ◌%◌, ◌^◌}
use mathlib.Core.Path.{◌≡◌, refl, sym, ap, ◌∙◌}
use mathlib.Core.List.{List, ◌++◌, append_assoc}
use mathlib.Core.Bool.{Bool, ◌&&◌}
use mathlib.Core.Logic.{◌⊎◌, inl, inr}
use native.Mathlib.Omega.{arith}
use compute_kernel.Common.Tests.{leb, ltb, le→leb, if◌then◌else◌}
use compute_kernel.Common.Lists.{
  length, take, drop, length-append, length-take, length-drop, take-append-drop, drop-append_left,
  take-append_left,
}

pub data Outcome {ℓ} (A : Type ℓ) : Type ℓ where
  done : A → Outcome A
  panic : Outcome A

infixl 5 ◌>>=◌
abbrev pub ◌>>=◌ {ℓ κ} : {A : Type ℓ} {B : Type κ} → Outcome A → (A → Outcome B) → Outcome B
done a >>= f = f a
panic >>= f = panic

pub Outcome-cases {ℓ} : {A : Type ℓ} (o : Outcome A) → (o ≡ panic) ⊎ ((a : A) × (o ≡ done a))
Outcome-cases (done a) = inr (a, refl)
Outcome-cases panic = inl refl

pub >>=-eq-done {ℓ κ} :
    {A : Type ℓ} {B : Type κ} (m : Outcome A) (f : A → Outcome B) {b : B}
    → (m >>= f) ≡ done b
    → (a : A) × ((m ≡ done a) × (f a ≡ done b))
>>=-eq-done (done a) f h = (a, (refl, h))
>>=-eq-done panic f h = cc

-- `&data[start..]`.
abbrev pub slice_from {ℓ} : {A : Type ℓ} → ℕ → List A → Outcome (List A)
slice_from start xs = if leb start (length xs) then done (drop start xs) else panic

pub slice_from_in_range {ℓ} :
    {A : Type ℓ} (start : ℕ) (xs : List A)
    → start ≤ length xs
    → slice_from start xs ≡ done (drop start xs)
slice_from_in_range start xs h = ground arith

-- `&data[start..end]`.
abbrev pub slice {ℓ} : {A : Type ℓ} → ℕ → ℕ → List A → Outcome (List A)
slice start stop xs =
    if leb start stop && leb stop (length xs)
    then done (take (stop - start) (drop start xs))
    else panic

-- `a + b` on a u64 (or a usize): an overflow panics in a build that checks, and wraps in others.
abbrev pub add_u64 : Bool → ℕ → ℕ → Outcome ℕ
add_u64 checks a b =
    if ltb (a + b) (2 ^ 64) then done (a + b) else if checks then panic else done ((a + b) % 2 ^ 64)

-- `a * b` on a u64 (or a usize), likewise.
abbrev pub mul_u64 : Bool → ℕ → ℕ → Outcome ℕ
mul_u64 checks a b =
    if ltb (a * b) (2 ^ 64) then done (a * b) else if checks then panic else done ((a * b) % 2 ^ 64)

-- A slice that is the middle of three lists.
pub slice_middle {ℓ} :
    {A : Type ℓ} (before xs behind : List A) (start stop : ℕ)
    → start ≡ length before
    → stop ≡ length before + length xs
    → slice start stop (before ++ (xs ++ behind)) ≡ done xs
slice_middle before xs behind start stop p q =
    let all = before ++ (xs ++ behind) in
    let from : drop start all ≡ xs ++ behind =
      ap (λ (n : ℕ). drop n all) p ∙ drop-append_left before (xs ++ behind) in
    let size : stop - start ≡ length xs = omega arith in
    let cut : take (stop - start) (drop start all) ≡ xs =
      ap (take (stop - start)) from
      ∙ (ap (λ (n : ℕ). take n (xs ++ behind)) size ∙ take-append_left xs behind) in
    let room : stop ≤ length all =
      omega (arith, length-append before (xs ++ behind), length-append xs behind) in
    rw (le→leb start stop (omega arith), le→leb stop (length all) room, cut) refl

-- The end of what stands in the middle, from its place `k` on.
pub slice_tail {ℓ} :
    {A : Type ℓ} (before xs behind : List A) (k : ℕ)
    → k ≤ length xs
    → slice (length before + k) (length before + length xs) (before ++ (xs ++ behind))
      ≡ done (drop k xs)
slice_tail before xs behind k h =
    let head = before ++ take k xs in
    let parts : head ++ (drop k xs ++ behind) ≡ before ++ (xs ++ behind) =
      append_assoc before (take k xs) (drop k xs ++ behind)
      ∙ ap (◌++◌ before) (
          sym (append_assoc (take k xs) (drop k xs) behind)
          ∙ ap (λ (t : List _). t ++ behind) (take-append-drop k xs)) in
    let size : length head ≡ length before + k =
      omega (arith, length-append before (take k xs), length-take k xs) in
    rw (sym parts) (
      slice_middle head (drop k xs) behind (length before + k) (length before + length xs)
        (omega (arith, size)) (omega (arith, size, length-drop k xs)))
