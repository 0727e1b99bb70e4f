-- ===== src/Shell/Commands.antt =====
-- How a line of kernel/src/shell.rs is split into a command and its arguments, whatever spaces stand
-- around them.
use mathlib.Core.List.{reverse, reverse-append, reverse-reverse, reverse-cons}
use compute_kernel.Common.{
  ℕ, zero, suc, ◌<◌, ◌≡◌, refl, sym, ap, ◌∙◌, false, List, [], ◌∷◌, ◌++◌, append_assoc, append-nil,
  some, arith, ◌==◌, bytes_eq, replicate, All,
}
use compute_kernel.Shell.Words.{
  white1, white2, white3, trim_start, trim_last, trim, split_space, command_of, parse_command,
}

-- An ASCII character that is not white space.
abbrev pub IsInk : ℕ → Type 0
IsInk c = (c < 128) × (white1 c ≡ false)

-- A text that starts and ends with such a character.
pub record IsText (text : List ℕ) : Type 0 where
  pub first : ℕ
  pub behind : List ℕ
  pub last : ℕ
  pub before : List ℕ
  pub starts : text ≡ first ∷ behind
  pub ends : reverse text ≡ last ∷ before
  pub first_ink : IsInk first
  pub last_ink : IsInk last

trim_start-space : (s : List ℕ) → trim_start (b' ' ∷ s) ≡ trim_start s
unfolding trim_start
trim_start-space [] = refl
trim_start-space (c ∷ []) = refl
trim_start-space (c ∷ d ∷ s) = refl

trim_start-ink : (c : ℕ) (s : List ℕ) → IsInk c → trim_start (c ∷ s) ≡ c ∷ s
unfolding trim_start
trim_start-ink c [] h = rw (h.1) refl
trim_start-ink c (d ∷ []) h = let no : white2 c d ≡ false = ground (arith, h) in rw (h.1, no) refl
trim_start-ink c (d ∷ e ∷ s) h =
    let no : white2 c d ≡ false = ground (arith, h) in
    let nor : white3 c d e ≡ false = ground (arith, h) in rw (h.1, no, nor) refl

trim_last-space : (s : List ℕ) → trim_last (b' ' ∷ s) ≡ trim_last s
unfolding trim_last
trim_last-space [] = refl
trim_last-space (c ∷ []) = refl
trim_last-space (c ∷ d ∷ s) = refl

trim_last-ink : (c : ℕ) (s : List ℕ) → IsInk c → trim_last (c ∷ s) ≡ c ∷ s
unfolding trim_last
trim_last-ink c [] h = rw (h.1) refl
trim_last-ink c (d ∷ []) h = let no : white2 d c ≡ false = ground (arith, h) in rw (h.1, no) refl
trim_last-ink c (d ∷ e ∷ s) h =
    let no : white2 d c ≡ false = ground (arith, h) in
    let nor : white3 e d c ≡ false = ground (arith, h) in rw (h.1, no, nor) refl

trim_start-spaces : (n : ℕ) (s : List ℕ) → trim_start (replicate n b' ' ++ s) ≡ trim_start s
trim_start-spaces zero s = refl
trim_start-spaces (suc n) s = trim_start-space (replicate n b' ' ++ s) ∙ trim_start-spaces n s

trim_last-spaces : (n : ℕ) (s : List ℕ) → trim_last (replicate n b' ' ++ s) ≡ trim_last s
trim_last-spaces zero s = refl
trim_last-spaces (suc n) s = trim_last-space (replicate n b' ' ++ s) ∙ trim_last-spaces n s

replicate_snoc : (n x : ℕ) → replicate n x ++ (x ∷ []) ≡ x ∷ replicate n x
replicate_snoc zero x = refl
replicate_snoc (suc n) x = ap (◌∷◌ x) (replicate_snoc n x)

reverse-replicate : (n x : ℕ) → reverse (replicate n x) ≡ replicate n x
reverse-replicate zero x = refl
reverse-replicate (suc n) x =
    reverse-cons x (replicate n x)
    ∙ (ap (λ (t : List ℕ). t ++ (x ∷ [])) (reverse-replicate n x) ∙ replicate_snoc n x)

-- Spaces around a text are trimmed.
trim-IsText :
    (n k : ℕ) (text : List ℕ)
    → IsText text
    → trim (replicate n b' ' ++ (text ++ replicate k b' ')) ≡ text
unfolding trim
trim-IsText n k text h =
    let tail = replicate k b' ' in
    let front : trim_start (replicate n b' ' ++ (text ++ tail)) ≡ text ++ tail =
      trim_start-spaces n (text ++ tail)
      ∙ (ap (λ (t : List ℕ). trim_start (t ++ tail)) (h.starts)
          ∙ (trim_start-ink h.first (h.behind ++ tail) (h.first_ink)
              ∙ ap (λ (t : List ℕ). t ++ tail) (sym (h.starts)))) in
    let back : trim_last (reverse (text ++ tail)) ≡ reverse text =
      ap trim_last (
        reverse-append text tail
        ∙ ap (λ (t : List ℕ). t ++ reverse text) (reverse-replicate k b' '))
      ∙ (trim_last-spaces k (reverse text)
          ∙ (ap trim_last (h.ends)
              ∙ (trim_last-ink h.last (h.before) (h.last_ink) ∙ sym (h.ends)))) in
    ap (λ (t : List ℕ). reverse (trim_last (reverse t))) front
    ∙ (ap reverse back ∙ reverse-reverse text)

-- A word: no space in it, and it starts with a character that is not white space.
pub record IsWord (word : List ℕ) : Type 0 where
  pub initial : ℕ
  pub others : List ℕ
  pub spelled : word ≡ initial ∷ others
  pub initial_ink : IsInk initial
  pub no_space : All (λ c. (c == b' ') ≡ false) word

split_space-word :
    (word rest : List ℕ)
    → All (λ c. (c == b' ') ≡ false) word
    → split_space (word ++ (b' ' ∷ rest)) ≡ some (word, rest)
unfolding split_space
split_space-word [] rest h = refl
split_space-word (c ∷ cs) rest h = rw (h.0, split_space-word cs rest (h.1)) refl

line-IsText :
    (m : ℕ) (word args : List ℕ)
    → IsWord word
    → IsText args
    → IsText (word ++ (b' ' ∷ (replicate m b' ' ++ args)))
line-IsText m word args w h =
    let rest = b' ' ∷ (replicate m b' ' ++ args) in
    record {
      first = w.initial;
      behind = w.others ++ rest;
      last = h.last;
      before = h.before ++ reverse (word ++ replicate (suc m) b' ');
      starts = ap (λ (t : List ℕ). t ++ rest) (w.spelled);
      ends =
          ap reverse (sym (append_assoc word (replicate (suc m) b' ') args))
          ∙ (reverse-append (word ++ replicate (suc m) b' ') args
              ∙ ap (λ (t : List ℕ). t ++ reverse (word ++ replicate (suc m) b' ')) (h.ends));
      first_ink = w.initial_ink;
      last_ink = h.last_ink;
    }

-- A word, a space and a text, with any number of spaces in front, between and behind, is the command
-- of that word with that text as its arguments.
pub parse_command_lem :
    (n m k : ℕ) (word args : List ℕ)
    → IsWord word
    → IsText args
    → parse_command
        (replicate n b' ' ++ (word ++ (b' ' ∷ (replicate m b' ' ++ args)) ++ replicate k b' '))
      ≡ some (command_of word args)
unfolding parse_command
parse_command_lem n m k word args w h =
    let line = word ++ (b' ' ∷ (replicate m b' ' ++ args)) in
    let trimmed = trim-IsText n k line (line-IsText m word args w h) in
    let full : bytes_eq line [] ≡ false =
      ap (λ (t : List ℕ). bytes_eq (t ++ (b' ' ∷ (replicate m b' ' ++ args))) []) (w.spelled) in
    let split = split_space-word word (replicate m b' ' ++ args) (w.no_space) in
    let inner : trim (replicate m b' ' ++ args) ≡ args =
      ap (λ (t : List ℕ). trim (replicate m b' ' ++ t)) (sym (append-nil args))
      ∙ trim-IsText m 0 args h in
    rw (parse_command, trimmed, full, split, inner) refl
