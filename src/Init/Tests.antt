-- ===== src/Init/Tests.antt =====
-- The init program (init/src/main.rs) on two starts of the shell.
use compute_kernel.Common.{◌≡◌, refl, [], ◌∷◌, codes}
use compute_kernel.Init.{eprint, runs, sleeps, failed, exited, rounds, after_shell}

-- A start that fails is followed by a pause of a second, one that succeeds is not.
one_failure :
    rounds (failed (codes "missing") ∷ exited (codes "0") ∷ [])
    ≡ eprint (codes "[init] starting /bin/sh")
      ∷ runs (codes "/bin/sh") []
      ∷ eprint (codes "[init] failed to start /bin/sh: missing")
      ∷ sleeps 1
      ∷ eprint (codes "[init] starting /bin/sh")
      ∷ runs (codes "/bin/sh") []
      ∷ eprint (codes "[init] /bin/sh exited with 0")
      ∷ []
unfolding rounds after_shell
one_failure = refl
