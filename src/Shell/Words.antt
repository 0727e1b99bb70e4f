-- ===== src/Shell/Words.antt =====
-- The words of a shell line: `execute` of kernel/src/shell.rs up to the choice of the command, with
-- `str::trim` and `str::find`. A line is valid UTF-8, held as its bytes.
use mathlib.Core.List.{reverse}
use compute_kernel.Common.{
  ℕ, ◌&&◌, ◌||◌, Bool, Option, none, some, List, [], ◌∷◌, ◌==◌, if◌then◌else◌, codes, bytes_eq,
  in_range,
}

-- The characters of White_Space by the length of their UTF-8: U+0009 to U+000D and U+0020; U+0085
-- and U+00A0; U+1680, U+2000 to U+200A, U+2028, U+2029, U+202F, U+205F and U+3000.
abbrev pub white1 : ℕ → Bool
white1 b = in_range 0x09 0x0d b || b == 0x20

abbrev pub white2 : ℕ → ℕ → Bool
white2 b c = b == 0xc2 && (c == 0x85 || c == 0xa0)

abbrev pub white3 : ℕ → ℕ → ℕ → Bool
white3 b c d =
    (b == 0xe1 && (c == 0x9a && d == 0x80))
    || ((b == 0xe2
          && (c == 0x80 && (in_range 0x80 0x8a d || (d == 0xa8 || (d == 0xa9 || d == 0xaf)))))
        || ((b == 0xe2 && (c == 0x81 && d == 0x9f)) || (b == 0xe3 && (c == 0x80 && d == 0x80))))

-- `trim_start`.
unfoldable pub trim_start : List ℕ → List ℕ
trim_start [] = []
trim_start (b ∷ []) = if white1 b then [] else b ∷ []
trim_start (b ∷ c ∷ []) =
    let one = trim_start (c ∷ []) in if white1 b then one else if white2 b c then [] else b ∷ c ∷ []
trim_start (b ∷ c ∷ d ∷ s) =
    let one = trim_start (c ∷ d ∷ s) in
    let two = trim_start (d ∷ s) in
    let three = trim_start s in
    if white1 b
    then one
    else if white2 b c
    then two
    else if white3 b c d
    then three
    else b ∷ c ∷ d ∷ s

-- `trim_end`, on the reversed bytes.
unfoldable pub trim_last : List ℕ → List ℕ
trim_last [] = []
trim_last (b ∷ []) = if white1 b then [] else b ∷ []
trim_last (c ∷ b ∷ []) =
    let one = trim_last (b ∷ []) in if white1 c then one else if white2 b c then [] else c ∷ b ∷ []
trim_last (d ∷ c ∷ b ∷ s) =
    let one = trim_last (c ∷ b ∷ s) in
    let two = trim_last (b ∷ s) in
    let three = trim_last s in
    if white1 d
    then one
    else if white2 c d
    then two
    else if white3 b c d
    then three
    else d ∷ c ∷ b ∷ s

-- `trim`.
unfoldable pub trim : List ℕ → List ℕ
unfolding trim_start trim_last
trim s = reverse (trim_last (reverse (trim_start s)))

-- `line.find(' ')`, and the line before and behind that space.
unfoldable pub split_space : List ℕ → Option (List ℕ × List ℕ)
split_space [] = none
split_space (c ∷ cs) =
    if c == b' '
    then some ([], cs)
    else elim (split_space cs) [ none ↦ none | some (before, behind) ↦ some (c ∷ before, behind) ]

-- What `match cmd` chooses.
pub data Command : Type 0 where
  help clear_cmd uname version ps uptime halt reboot : Command
  echo unknown : List ℕ → Command

unfoldable pub command_of : List ℕ → List ℕ → Command
command_of cmd args =
    if bytes_eq cmd (codes "help")
    then help
    else if bytes_eq cmd (codes "clear")
    then clear_cmd
    else if bytes_eq cmd (codes "echo")
    then echo args
    else if bytes_eq cmd (codes "uname")
    then uname
    else if bytes_eq cmd (codes "version")
    then version
    else if bytes_eq cmd (codes "ps")
    then ps
    else if bytes_eq cmd (codes "uptime")
    then uptime
    else if bytes_eq cmd (codes "halt") || bytes_eq cmd (codes "poweroff")
    then halt
    else if bytes_eq cmd (codes "reboot")
    then reboot
    else unknown cmd

-- `none` for a blank line.
unfoldable pub parse_command : List ℕ → Option Command
unfolding trim split_space command_of
parse_command raw =
    let line = trim raw in
    if bytes_eq line [] then none else elim (split_space line) [
      | none ↦ some (command_of line [])
      | some (cmd, args) ↦ some (command_of cmd (trim args))
    ]
