-- ===== src/Shell.antt =====
-- The kernel shell: kernel/src/shell.rs, over the keyboard's polls and the VGA writer. A poll gives
-- a key, or none, after which the CPU halts. What is printed goes to the writer.
pub mod Words
pub mod Editing
pub mod Commands
pub mod TypeAhead
pub mod Bounds
mod Tests
use compute_kernel.Common.{
  ℕ, zero, suc, ◌+◌, ◌-◌, ◌&&◌, ◌||◌, Bool, Option, none, some, List, [], ◌∷◌, ◌++◌, ◌==◌, leb, ltb,
  if◌then◌else◌, codes, bytes_eq, length, take, set, replicate, is_utf8, show_u64,
}
use compute_kernel.Process.{Process, ProcessState, ready, running, blocked, zombie, Kernel}
use compute_kernel.Syscall.Io.{char_bytes}
use compute_kernel.Drivers.Vga.{
  Vga, Color, light_green, black, white, light_cyan, light_red, write_string, set_color, clear,
  backspace, println,
}
use compute_kernel.Shell.Words.{
  Command, help, clear_cmd, echo, uname, version, ps, uptime, halt, reboot, unknown, parse_command,
}

abbrev pub max_cmd_len : ℕ
max_cmd_len = 256

unfoldable pub print_prompt : Vga → Vga
print_prompt v =
    let v₁ = write_string (codes "root@computekernel") (set_color light_green black v) in
    let v₂ = write_string (codes " ~ ") (set_color white black v₁) in
    let v₃ = write_string (codes "% ") (set_color light_cyan black v₂) in set_color white black v₃

-- The line being typed: the buffer, the position in it, and the screen.
pub record Line : Type 0 where
  pub buf : List ℕ
  pub pos : ℕ
  pub screen : Vga

-- What a key does to the line.
pub data Typed : Type 0 where
  goes_on commits cancels : Line → Typed

unfoldable pub press : ℕ → Line → Typed
press ch l =
    if ch == 10 || ch == 13
    then commits (record l { screen = println [] l.screen })
    else if ch == 0x08 || ch == 0x7f
    then goes_on (
        if ltb 0 l.pos
        then record l {
          buf = set l.buf (l.pos - 1) 0;
          pos = l.pos - 1;
          screen = backspace l.screen;
        }
        else l)
    else if ch == 0x03
    then cancels (record l { screen = println (codes "^C") l.screen })
    else if leb 0x20 ch && ltb l.pos (max_cmd_len - 1)
    then goes_on (record l {
      buf = set l.buf l.pos ch;
      pos = l.pos + 1;
      screen = write_string (char_bytes (ch ∷ [])) l.screen;
    })
    else goes_on l

-- `read_line`: the buffer, the count returned, the screen and the polls that are left, or that no
-- line has been entered by the end of the polls.
pub data LineRead : Type 0 where
  entered : List ℕ → ℕ → Vga → List (Option ℕ) → LineRead
  waiting : Line → LineRead

unfoldable pub read_keys : List (Option ℕ) → Line → LineRead
unfolding press
read_keys [] l = waiting l
read_keys (none ∷ polls) l = read_keys polls l
read_keys (some ch ∷ polls) l = elim (press ch l) [
  | goes_on l' ↦ read_keys polls l'
  | commits l' ↦ entered l'.buf l'.pos l'.screen polls
  | cancels l' ↦ entered l'.buf 0 l'.screen polls
]

unfoldable pub read_line : List (Option ℕ) → Vga → LineRead
unfolding read_keys
read_line polls v = read_keys polls (record { buf = replicate max_cmd_len 0; pos = 0; screen = v })

abbrev pub state_text : ProcessState → List ℕ
state_text ready = codes "READY  "
state_text running = codes "RUNNING"
state_text blocked = codes "BLOCKED"
state_text zombie = codes "ZOMBIE "

-- `{:3}`.
abbrev pub pad3 : List ℕ → List ℕ
pad3 text = replicate (3 - length text) b' ' ++ text

unfoldable pub ps_lines : List Process → Vga → Vga
ps_lines [] v = v
ps_lines (p ∷ table) v = ps_lines table (
    println
      (codes "  "
        ++ (pad3 (show_u64 p.pid)
            ++ (codes "  " ++ (state_text p.state ++ (codes "  " ++ p.name)))))
      v)

unfoldable pub cmd_help : Vga → Vga
cmd_help v =
    let v₁ = println (codes "ComputeKERNEL built-in commands:") v in
    let v₂ = println (codes "  help      - show this help") v₁ in
    let v₃ = println (codes "  clear     - clear the screen") v₂ in
    let v₄ = println (codes "  echo      - print arguments") v₃ in
    let v₅ = println (codes "  uname     - print system information") v₄ in
    let v₆ = println (codes "  version   - print kernel version") v₅ in
    let v₇ = println (codes "  ps        - list processes") v₆ in
    let v₈ = println (codes "  uptime    - show uptime in ticks") v₇ in
    let v₉ = println (codes "  halt      - halt the system") v₈ in
    println (codes "  reboot    - reboot the system") v₉

unfoldable pub cmd_version : Vga → Vga
cmd_version v =
    println (codes "Architecture: x86_64")
      (println (codes "Built with Rust (nightly)") (println (codes "ComputeKERNEL v1.0.0") v))

-- How a command ends: back in the loop, halted for good with interrupts off, or halted after 0xFE
-- has been written to port 0x64.
pub data Executed : Type 0 where
  continues halted rebooting : Vga → Executed

unfoldable pub run_command : Command → Kernel → Vga → Executed
unfolding ps_lines
run_command help k v = continues (cmd_help v)
run_command clear_cmd k v = continues (clear v)
run_command (echo args) k v = continues (println args v)
run_command uname k v = continues (println (codes "ComputeKERNEL v1.0.0 x86_64") v)
run_command version k v = continues (cmd_version v)
run_command ps k v = continues (ps_lines k.table (println (codes "  PID  STATE    NAME") v))
run_command uptime k v =
    continues (println (codes "uptime: " ++ (show_u64 k.ticks ++ codes " ticks")) v)
run_command halt k v = halted (println (codes "Halting system...") v)
run_command reboot k v = rebooting (println (codes "Rebooting...") v)
run_command (unknown cmd) k v = continues (
    set_color white black
      (println (codes "shell: command not found: " ++ cmd) (set_color light_red black v)))

-- `execute`: nothing for a blank line.
unfoldable pub execute : List ℕ → Kernel → Vga → Executed
unfolding run_command
execute raw k v = elim (parse_command (if is_utf8 raw then raw else [])) [
  | none ↦ continues v
  | some command ↦ run_command command k v
]

-- What `run` prints before its loop.
unfoldable pub banner : Vga → Vga
banner v = println [] (
    println (codes "Type 'help' for available commands.")
      (println (codes "Welcome to ComputeKERNEL v1.0.0") (println [] v)))

-- One turn of the loop of `run`: the polls left and how the command ended, or a wait.
pub data Turn : Type 0 where
  executed : Executed → List (Option ℕ) → Turn
  typing : Line → Turn

unfoldable pub turn : List (Option ℕ) → Kernel → Vga → Turn
turn polls k v = elim (read_line polls (print_prompt v)) [
  | waiting l ↦ typing l
  | entered buf len screen rest ↦ executed (execute (take len buf) k screen) rest
]
