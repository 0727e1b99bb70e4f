-- ===== src/Fs/Initramfs/Ending.antt =====
-- The loop of `InitramFs::new` (kernel/src/fs/initramfs.rs) ends on every archive.
use compute_kernel.Common.{
  ℕ, zero, suc, ◌+◌, ◌*◌, ◌^◌, ◌<◌, ◌≤◌, ◌≡◌, ◌≢◌, inl, inr, refl, sym, ◌∙◌, Bool-cases,
  Option-cases, List, [], ◌∷◌, ◌++◌, Option, some, none, arith, leb, leb→le, ◌==◌, bytes_eq, length,
  take, drop,
}
use compute_kernel.Fs.Initramfs.{
  CpioEntry, cpio_newc_magic, hex_digit, hex_value, from_str_radix_16, parse_hex8, align4, field_at,
  Round, entry, stop, refused, crash, parse_name, parse_entry, unfinished, parse_entries, load,
}
use compute_kernel.Fs.Initramfs.Writer.{align4_bounds}

hex_value_lt : (cs : List ℕ) (acc n : ℕ) → acc < 2 ^ 32 → hex_value acc cs ≡ some n → n < 2 ^ 32
unfolding hex_value
hex_value_lt [] acc n small h = let same : acc ≡ n = cc in omega arith
hex_value_lt (c ∷ cs) acc n small h = elim (Option-cases (hex_digit c)) [
  | inl e ↦ ground (arith, h, e)
  | inr (d, e) ↦
      let v = acc * 16 + d in
      let inside : (v < 2 ^ 32) × (hex_value v cs ≡ some n) = ground (arith, h, e) in
      hex_value_lt cs v n (inside.0) (inside.1)
]

-- Where the next round starts.
name_next :
    (archive : List ℕ) (offset inode_num namesize filesize mode : ℕ) {e : CpioEntry} {next : ℕ}
    → filesize < 2 ^ 32
    → length archive < 2 ^ 63
    → parse_name archive offset inode_num namesize filesize mode ≡ entry e next
    → offset + 110 ≤ next
unfolding parse_name
name_next archive offset inode_num namesize filesize mode {e} {next} small room h =
    let end = offset + 110 + namesize in
    let inside : (end ≤ length archive) × (align4 (align4 end + filesize) ≡ next) =
      ground (arith, h) in
    let first = align4_bounds end (omega (arith, inside.0)) in
    let after = align4_bounds (align4 end + filesize) (omega (arith, inside.0, first)) in
    omega (arith, inside.1, first, after)

from_str_radix_16_lt : (cs : List ℕ) {n : ℕ} → from_str_radix_16 cs ≡ some n → n < 2 ^ 32
unfolding from_str_radix_16
from_str_radix_16_lt [] h = cc
from_str_radix_16_lt (c ∷ []) {n} h = hex_value_lt (c ∷ []) 0 n (omega arith) h
from_str_radix_16_lt (c ∷ d ∷ cs) {n} h = elim (Bool-cases (c == b'+')) [
  | inl e ↦ hex_value_lt (d ∷ cs) 0 n (omega arith) (ground (arith, h, e))
  | inr e ↦ hex_value_lt (c ∷ d ∷ cs) 0 n (omega arith) (ground (arith, h, e))
]

field_lt : (archive : List ℕ) (start : ℕ) {n : ℕ} → field_at archive start ≡ some n → n < 2 ^ 32
unfolding field_at parse_hex8
field_lt archive start {n} h =
    ground (arith, h, from_str_radix_16_lt (take 8 (drop start archive)) {n = n})

entry_next :
    (archive : List ℕ) (offset inode_num : ℕ) {e : CpioEntry} {next : ℕ}
    → length archive < 2 ^ 63
    → parse_entry archive offset inode_num ≡ entry e next
    → (offset + 110 ≤ length archive) × (offset + 110 ≤ next)
unfolding parse_entry
entry_next archive offset inode_num {e} {next} room h =
    go (field_at archive (offset + 94)) (field_at archive (offset + 54))
      (field_at archive (offset + 14)) refl refl refl
  where
    go :
        (x y z : Option ℕ)
        → field_at archive (offset + 94) ≡ x
        → field_at archive (offset + 54) ≡ y
        → field_at archive (offset + 14) ≡ z
        → (offset + 110 ≤ length archive) × (offset + 110 ≤ next)
    go none y z p q r = ground (arith, h, p)
    go (some a) none z p q r = ground (arith, h, p, q)
    go (some a) (some b) none p q r = ground (arith, h, p, q, r)
    go (some a) (some b) (some c) p q r = elim (Bool-cases (leb (offset + 110) (length archive))) [
      | inr t ↦ ground (arith, h, t)
      | inl t ↦ elim (Bool-cases (bytes_eq (take 6 (drop offset archive)) cpio_newc_magic)) [
        | inr m ↦ ground (arith, h, t, m)
        | inl m ↦
            let name = sym (rw (parse_entry, t, m, p, q, r) refl) ∙ h in
            let small = field_lt archive (offset + 54) q in
            (leb→le _ _ t, name_next archive offset inode_num a b c small room name)
      ]
    ]

-- A round that does not end the loop leaves it to the next.
round_end :
    (fuel : ℕ) (archive : List ℕ) (offset inode_num : ℕ) (entries : List CpioEntry)
    → ((x : CpioEntry) (next : ℕ)
        → parse_entry archive offset inode_num ≡ entry x next
        → parse_entries fuel archive next (inode_num + 1) (entries ++ (x ∷ [])) ≢ unfinished)
    → parse_entries (suc fuel) archive offset inode_num entries ≢ unfinished
unfolding parse_entries
round_end fuel archive offset inode_num entries more h =
    go (parse_entry archive offset inode_num) refl
  where
    go : (r : Round) → parse_entry archive offset inode_num ≡ r → ⊥
    go stop e = ground (arith, h, e)
    go refused e = ground (arith, h, e)
    go crash e = ground (arith, h, e)
    go (entry x next) e = more x next e (sym (rw (e, parse_entries) refl) ∙ h)

entries_end :
    (fuel : ℕ) (archive : List ℕ) (offset inode_num : ℕ) (entries : List CpioEntry)
    → length archive < 2 ^ 63
    → length archive < offset + 110 + fuel
    → parse_entries (suc fuel) archive offset inode_num entries ≢ unfinished
entries_end zero archive offset inode_num entries room enough =
    round_end zero archive offset inode_num entries
      (λ x next e. absurd (omega (arith, entry_next archive offset inode_num room e)))
entries_end (suc fuel) archive offset inode_num entries room enough =
    round_end (suc fuel) archive offset inode_num entries (λ x next e.
      entries_end fuel archive next (inode_num + 1) (entries ++ (x ∷ [])) room
        (omega (arith, entry_next archive offset inode_num room e)))

-- `InitramFs::new` ends on every archive of less than 2 ^ 63 bytes: each round moves on by a header at least.
pub load_ends : (archive : List ℕ) → length archive < 2 ^ 63 → load archive ≢ unfinished
unfolding load
load_ends archive room = entries_end (length archive) archive 0 2 [] room (omega arith)
