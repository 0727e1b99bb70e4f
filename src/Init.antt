-- ===== src/Init.antt =====
-- The init program, PID 1: init/src/main.rs. What it does is the list of its actions. The commands
-- are run by the standard library: how each start of the shell ends, with the text of its status or
-- of the error, is a parameter.
mod Tests
use compute_kernel.Common.{ℕ, List, [], ◌∷◌, ◌++◌, codes}

-- `eprintln!`, a command that is run to its end, and a sleep of some seconds.
pub data Action : Type 0 where
  eprint : List ℕ → Action
  runs : List ℕ → List (List ℕ) → Action
  sleeps : ℕ → Action

-- `mount`: the command's status is not looked at.
unfoldable pub mount : List ℕ → List ℕ → List ℕ → List Action
mount fstype target options =
    runs (codes "mount") (codes "-t" ∷ fstype ∷ codes "none" ∷ target ∷ codes "-o" ∷ options ∷ [])
    ∷ eprint (codes "[init] mounted " ++ (fstype ++ (codes " on " ++ target)))
    ∷ []

-- `Result<ExitStatus, Error>`, by its text.
pub data ShellEnd : Type 0 where
  exited failed : List ℕ → ShellEnd

-- What follows a start of the shell.
unfoldable pub after_shell : ShellEnd → List Action
after_shell (exited status) = eprint (codes "[init] /bin/sh exited with " ++ status) ∷ []
after_shell (failed error) =
    eprint (codes "[init] failed to start /bin/sh: " ++ error) ∷ sleeps 1 ∷ []

-- The endless loop, as far as the ends of the shell go.
unfoldable pub rounds : List ShellEnd → List Action
unfolding after_shell
rounds [] = []
rounds (end ∷ ends) =
    eprint (codes "[init] starting /bin/sh")
    ∷ runs (codes "/bin/sh") []
    ∷ (after_shell end ++ rounds ends)

unfoldable pub main : List ShellEnd → List Action
unfolding mount rounds
main ends =
    eprint (codes "[init] PID 1 starting")
    ∷ (mount (codes "proc") (codes "/proc") (codes "proc")
        ++ (mount (codes "sysfs") (codes "/sys") (codes "sysfs")
            ++ (mount (codes "devtmpfs") (codes "/dev") (codes "devtmpfs")
                ++ (eprint (codes "[init] filesystems mounted") ∷ rounds ends))))
