-- ===== src/Shell/Tests.antt =====
-- The shell (kernel/src/shell.rs) on sequences of keys and on a line, and its theorems at them.
use compute_kernel.Common.{
  ◌++◌, map, arith, ◌<◌, length, replicate, ℕ, ◌≡◌, refl, Option, none, some, List, [], ◌∷◌, codes,
}
use compute_kernel.Drivers.Vga.{Vga, write_string, println}
use compute_kernel.Syscall.Io.{char_bytes}
use compute_kernel.Shell.{max_cmd_len, press, read_keys, read_line, entered}
use compute_kernel.Shell.Editing.{edit, text, seen, untype, rev_onto, read_line_refines}
use compute_kernel.Shell.Words.{command_of, parse_command}
use compute_kernel.Shell.Commands.{IsWord, IsText, parse_command_lem}
use compute_kernel.Drivers.Keyboard.{new}
use compute_kernel.Drivers.Keyboard.Queue.{run}
use compute_kernel.Shell.TypeAhead.{type_ahead, typed_before_polls}
use compute_kernel.Shell.Bounds.{read_line_bounded}

-- "lx", backspace, "s", Enter.
abbrev keys : List (Option ℕ)
keys = some 108 ∷ none ∷ some 120 ∷ some 8 ∷ some 115 ∷ some 13 ∷ []

abbrev screen : Vga
screen = record { column_position = 0; color_code = 7; row = 0; memory = λ a. 32 }

ls_typed : edit keys [] ≡ text (codes "ls")
unfolding edit untype rev_onto
ls_typed = refl

read_line_refines_example : seen (read_line keys screen) ≡ edit keys []
read_line_refines_example = read_line_refines keys screen

-- "l", Enter.
one_letter :
    read_line (some 108 ∷ some 13 ∷ []) screen
    ≡ entered
        (108 ∷ replicate 255 0)
        1
        (println [] (write_string (char_bytes (108 ∷ [])) screen))
        []
unfolding read_line read_keys press
one_letter = refl

read_line_bounded_example :
    (1 < max_cmd_len) × (length {A = ℕ} (108 ∷ replicate 255 0) ≡ max_cmd_len)
read_line_bounded_example = read_line_bounded (some 108 ∷ some 13 ∷ []) screen one_letter

echo-IsWord : IsWord (codes "echo")
echo-IsWord = record {
  initial = b'e';
  others = codes "cho";
  spelled = refl;
  initial_ink = (omega arith, refl);
  no_space = (refl, (refl, (refl, (refl, tt))));
}

words-IsText : IsText (codes "a b")
words-IsText = record {
  first = b'a';
  behind = codes " b";
  last = b'b';
  before = codes " a";
  starts = refl;
  ends = refl;
  first_ink = (omega arith, refl);
  last_ink = (omega arith, refl);
}

parse_command_lem_example :
    parse_command (codes "  echo   a b ") ≡ some (command_of (codes "echo") (codes "a b"))
parse_command_lem_example =
    parse_command_lem 2 2 1 (codes "echo") (codes "a b") echo-IsWord words-IsText

typed_before_polls_example :
    seen (read_line (run new (type_ahead (codes "ls" ++ (13 ∷ [])))) screen)
    ≡ edit (map some (codes "ls" ++ (13 ∷ []))) []
typed_before_polls_example = typed_before_polls (codes "ls" ++ (13 ∷ [])) screen (omega arith)
