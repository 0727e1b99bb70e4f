-- ===== src/Segments/ListTables.antt =====
-- A descriptor table that is a list of entries: what kernel/src/arch/x86_64/gdt.rs takes of the
-- crate's table can be met.
use compute_kernel.Common.{
  ◌-◌, ◌^◌, ◌&&◌, leb, ltb, if◌then◌else◌, inl, inr, panic, ℕ, zero, suc, ◌+◌, ◌≤◌, ◌<◌, ◌≡◌, refl,
  Option, none, some, List, [], ◌∷◌, ◌++◌, arith, length, get_elem?, le→leb, Outcome, done,
  length-append,
}
use compute_kernel.Segments.Loading.{StaysCanonical}
use compute_kernel.Segments.{Descriptor, tss_segment, Tables, entries}

-- The entries of a table; the second entry of a task state is taken, and names no segment.
abbrev pub Entries : Type 0
Entries = List (Option Descriptor)

abbrev pub put : Descriptor → Entries
put (tss_segment tss) = some (tss_segment tss) ∷ none ∷ []
put d = some d ∷ []

abbrev pub entry_at : Entries → ℕ → Option Descriptor
entry_at t i = elim (get_elem? t i) [ none ↦ none | some d ↦ d ]

abbrev pub append_list : Descriptor → Entries → Outcome (ℕ × Entries)
append_list d t = if leb (length t + entries d) 8 then done (length t, t ++ put d) else panic

length-put : (d : Descriptor) → length (put d) ≡ entries d
length-put d = ground arith

entry_at-append_left : (t u : Entries) (i : ℕ) → i < length t → entry_at (t ++ u) i ≡ entry_at t i
entry_at-append_left [] u i h = absurd (omega arith)
entry_at-append_left (x ∷ t) u zero h = refl
entry_at-append_left (x ∷ t) u (suc i) h = entry_at-append_left t u i (omega arith)

entry_at-append_put : (t : Entries) (d : Descriptor) → entry_at (t ++ put d) (length t) ≡ some d
entry_at-append_put [] d = ground arith
entry_at-append_put (x ∷ t) d = entry_at-append_put t d

pub list_fits :
    (d : Descriptor) (t : Entries)
    → length t + entries d ≤ 8
    → (s : ℕ) × ((t' : Entries) × ((append_list d t ≡ done (s, t'))
          × ((s ≡ length t)
              × ((length t' ≡ length t + entries d)
                  × ((entry_at t' (length t) ≡ some d)
                      × ((i : ℕ) → i < length t → entry_at t' i ≡ entry_at t i))))))
list_fits d t h = (
  length t,
  (
    t ++ put d,
    (
      rw (le→leb (length t + entries d) 8 h) refl,
      (
        refl,
        (
          omega (arith, length-append t (put d), length-put d),
          (entry_at-append_put t d, entry_at-append_left t (put d)),
        ),
      ),
    ),
  ),
)

abbrev pub list_tables : Tables Entries ℕ
list_tables = record {
  new_table = none ∷ [];
  append = append_list;
  index = λ s. s;
  used = λ t. length t;
  entry = entry_at;
  used-new_table = refl;
  append_fits = list_fits;
}

-- The sum of an address and a number, which panics where it is not canonical.
abbrev pub sum_of : ℕ → ℕ → Outcome ℕ
sum_of a n =
    if ltb (a + n) (2 ^ 47)
    then done (a + n)
    else if leb (2 ^ 64 - 2 ^ 47) (a + n) && ltb (a + n) (2 ^ 64)
    then done (a + n)
    else panic

pub sum_of_canonical : (a n : ℕ) → StaysCanonical a n → sum_of a n ≡ done (a + n)
sum_of_canonical a n (inl low) = ground (arith, low)
sum_of_canonical a n (inr high) = ground (arith, high)
