-- ===== src/Syscall/Strings.antt =====
-- The strings that a user passes by address: `read_user_cstr` (kernel/src/syscall/mod.rs).
use compute_kernel.Common.{
  ℕ, zero, suc, ◌+◌, ◌<◌, ◌≡◌, refl, ◌≢◌, ◌↔◌, true, some, List, [], ◌∷◌, ◌++◌, ◌==◌, arith, length,
  is_utf8, Bool-cases, inl, inr, append-nil, append_assoc, ap,
}
use mathlib.Core.Path.{sym, subst, ◌∙◌}
use compute_kernel.Syscall.{read_user_cstr, read_cstr_from}

-- The bytes of a string stand in memory from an address on, with a zero byte behind them and none
-- among them.
unfoldable pub HoldsString : (ℕ → ℕ) → ℕ → List ℕ → Type 0
HoldsString memory a [] = memory a ≡ 0
HoldsString memory a (x ∷ xs) = (memory a ≡ x) × (x ≢ 0) × HoldsString memory (a + 1) xs

reads :
    (memory : ℕ → ℕ) (a left : ℕ) (bytes s : List ℕ)
    → HoldsString memory a s
    → length s < left
    → is_utf8 (bytes ++ s) ≡ true
    → read_cstr_from memory a left bytes ≡ some (bytes ++ s)
unfolding read_cstr_from HoldsString
reads memory a zero bytes s h short valid = absurd (omega (arith, short))
reads memory a (suc left) bytes [] h short valid =
    let same = append-nil bytes in
    let ok : is_utf8 bytes ≡ true = ◌∙◌ (ap is_utf8 (sym same)) valid in
    rw same (ground (arith, h, ok))
reads memory a (suc left) bytes (x ∷ xs) h short valid =
    let moved = append_assoc bytes (x ∷ []) xs in
    let rest =
      reads memory (a + 1) left (bytes ++ (x ∷ [])) xs h.2 (omega (arith, short))
        (◌∙◌ (ap is_utf8 moved) valid) in
    ◌∙◌ (ground (arith, h.0, h.1, rest)) (ap some moved)

read_back :
    (memory : ℕ → ℕ) (a left : ℕ) (bytes : List ℕ) {r : List ℕ}
    → read_cstr_from memory a left bytes ≡ some r
    → (s : List ℕ) × (r ≡ bytes ++ s)
      × HoldsString memory a s
      × (length s < left)
      × (is_utf8 r ≡ true)
unfolding read_cstr_from HoldsString
read_back memory a zero bytes e = absurd cc
read_back memory a (suc left) bytes {r} e = elim (Bool-cases (memory a == 0)) [
  | inl ended ↦
      let here : memory a ≡ 0 = ground (arith, ended) in
      let ok : is_utf8 bytes ≡ true = ground (arith, ended, e) in
      let same : bytes ≡ r = ground (arith, ended, e) in
      ([], ◌∙◌ (sym same) (sym (append-nil bytes)), here, omega arith, rw (← same) ok)
  | inr byte ↦
      let (s, same, held, short, valid) =
        read_back memory (a + 1) left (bytes ++ (memory a ∷ [])) {r = r}
          (ground (arith, byte, e)) in
      let nonzero : memory a ≢ 0 = ground (arith, byte) in
      (
        memory a ∷ s,
        ◌∙◌ same (append_assoc bytes (memory a ∷ []) s),
        (refl, nonzero, held),
        omega (arith, short),
        valid,
      )
]

-- `read_user_cstr` gives a string exactly if the address is not null, the string stands in memory
-- there with a zero byte behind it and none within, that zero byte is among the first `max_len`
-- bytes, and the bytes are UTF-8.
pub read_user_cstr_lem :
    (memory : ℕ → ℕ) (a max_len : ℕ) (s : List ℕ)
    → read_user_cstr memory a max_len ≡ some s
      ↔ (a ≢ 0) × HoldsString memory a s × (length s < max_len) × (is_utf8 s ≡ true)
unfolding read_user_cstr
read_user_cstr_lem memory a max_len s = (
  λ e. elim (Bool-cases (a == 0)) [
    | inl null ↦ absurd (ground (arith, null, e))
    | inr other ↦
        let (t, same, held, short, valid) =
          read_back memory a max_len [] {r = s} (ground (arith, other, e)) in
        (
          ground (arith, other),
          subst (λ x. HoldsString memory a x) (sym same) held,
          rw same short,
          valid,
        )
  ],
  λ h. ground (arith, h.0, reads memory a max_len [] s h.1 h.2 h.3),
)
