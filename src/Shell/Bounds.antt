-- ===== src/Shell/Bounds.antt =====
-- The line editor of kernel/src/shell.rs stays within its buffer.
use compute_kernel.Common.{
  ℕ, ◌-◌, ◌<◌, ◌≡◌, refl, sym, ap, ◌∙◌, ◌||◌, ◌&&◌, Bool-cases, Option, none, some, List, [], ◌∷◌,
  arith, ◌==◌, leb, ltb, length, length-set, replicate, inl, inr,
}
use compute_kernel.Drivers.Vga.{Vga}
use compute_kernel.Shell.{
  max_cmd_len, Line, Typed, goes_on, commits, cancels, press, entered, read_keys, read_line,
}
use compute_kernel.Shell.Editing.{erased_line}

-- The position stays in the buffer, and the buffer keeps its length.
abbrev IsBounded : Line → Type 0
IsBounded l = (l.pos < max_cmd_len) × (length l.buf ≡ max_cmd_len)

abbrev line_of : Typed → Line
line_of (goes_on l) = l
line_of (commits l) = l
line_of (cancels l) = l

erased_line-IsBounded : (l : Line) → IsBounded l → IsBounded (erased_line l)
erased_line-IsBounded l h = elim (Bool-cases (ltb 0 l.pos)) [
  | inl e ↦ rw e (omega arith, length-set l.buf (l.pos - 1) 0 ∙ h.1)
  | inr e ↦ rw e h
]

press-IsBounded : (ch : ℕ) (l : Line) → IsBounded l → IsBounded (line_of (press ch l))
unfolding press
press-IsBounded ch l h = elim (Bool-cases (ch == 10 || ch == 13)) [
  | inl enter ↦ rw (press, enter) h
  | inr e ↦ elim (Bool-cases (ch == 0x08 || ch == 0x7f)) [
    | inl back ↦ rw (press, e, back) (erased_line-IsBounded l h)
    | inr b ↦ elim (Bool-cases (ch == 0x03)) [
      | inl cancel ↦ rw (press, e, b, cancel) h
      | inr c ↦ elim (Bool-cases (leb 0x20 ch && ltb l.pos 255)) [
        | inr full ↦ rw (press, e, b, c, full) h
        | inl fits ↦
            let small : l.pos < 255 = ground (arith, fits) in
            rw (press, e, b, c, fits) (omega (arith, small), length-set l.buf l.pos ch ∙ h.1)
      ]
    ]
  ]
]

read_keys_bounded :
    (polls : List (Option ℕ)) (l : Line) {buf : List ℕ} {n : ℕ} {screen : Vga}
    {rest : List (Option ℕ)}
    → length l.buf ≡ max_cmd_len
    → l.pos < max_cmd_len
    → read_keys polls l ≡ entered buf n screen rest
    → (n < max_cmd_len) × (length buf ≡ max_cmd_len)
unfolding read_keys
read_keys_bounded [] l size room h = cc
read_keys_bounded (none ∷ polls) l size room h = read_keys_bounded polls l size room h
read_keys_bounded (some ch ∷ polls) l {buf} {n} {screen} {rest} size room h =
    go (press ch l) refl (λ l' bounded. read_keys_bounded polls l' (bounded.1) (bounded.0))
  where
    go :
        (t : Typed)
        → press ch l ≡ t
        → ((l' : Line)
            → IsBounded l'
            → read_keys polls l' ≡ entered buf n screen rest
            → (n < max_cmd_len) × (length buf ≡ max_cmd_len))
        → (n < max_cmd_len) × (length buf ≡ max_cmd_len)
    go (goes_on l') e more =
        let bounded : IsBounded l' = rw (sym (ap line_of e)) (press-IsBounded ch l (room, size)) in
        more l' bounded (sym (rw (read_keys, e) refl) ∙ h)
    go (commits l') e more =
        let bounded : IsBounded l' = rw (sym (ap line_of e)) (press-IsBounded ch l (room, size)) in
        let out : entered l'.buf l'.pos l'.screen polls ≡ entered buf n screen rest =
          sym (rw (read_keys, e) refl) ∙ h in
        let same_pos : l'.pos ≡ n = cc in
        let same_buf : l'.buf ≡ buf = cc in
        (omega (arith, bounded, same_pos), ap length (sym same_buf) ∙ bounded.1)
    go (cancels l') e more =
        let bounded : IsBounded l' = rw (sym (ap line_of e)) (press-IsBounded ch l (room, size)) in
        let out : entered l'.buf 0 l'.screen polls ≡ entered buf n screen rest =
          sym (rw (read_keys, e) refl) ∙ h in
        let same_pos : 0 ≡ n = cc in
        let same_buf : l'.buf ≡ buf = cc in
        (omega (arith, same_pos), ap length (sym same_buf) ∙ bounded.1)

-- The count that `read_line` returns is below the length of the buffer, which is MAX_CMD_LEN still.
pub read_line_bounded :
    (polls : List (Option ℕ)) (v : Vga) {buf : List ℕ} {n : ℕ} {screen : Vga}
    {rest : List (Option ℕ)}
    → read_line polls v ≡ entered buf n screen rest
    → (n < max_cmd_len) × (length buf ≡ max_cmd_len)
unfolding read_line
read_line_bounded polls v h =
    read_keys_bounded polls (record { buf = replicate max_cmd_len 0; pos = 0; screen = v }) refl
      (omega arith) h
