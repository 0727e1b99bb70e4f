-- ===== src/Shell/TypeAhead.antt =====
-- The keyboard's ring buffer (kernel/src/drivers/keyboard.rs) under the line editor of
-- kernel/src/shell.rs: keys that come before the shell asks for them.
use compute_kernel.Common.{
  ℕ, ◌+◌, ◌≤◌, ◌≡◌, refl, sym, ap, ◌∙◌, some, List, [], ◌∷◌, ◌++◌, map, append_assoc, append-nil,
  arith, ltb, lt→ltb, true, length, length-append, replicate,
}
use compute_kernel.Drivers.Vga.{Vga}
use compute_kernel.Drivers.Keyboard.{new}
use compute_kernel.Drivers.Keyboard.Queue.{
  KeyOp, press, take_key, run, queue_run, queue_push, queue_pop, new-IsValid, run_refines,
}
use compute_kernel.Shell.{read_line}
use compute_kernel.Shell.Editing.{edit, seen, read_line_refines}

-- Each key comes by an interrupt, and then the shell polls as often.
abbrev pub type_ahead : List ℕ → List KeyOp
type_ahead keys = map press keys ++ replicate (length keys) take_key

queue_run-press :
    (q keys : List ℕ) (ops : List KeyOp)
    → length q + length keys ≤ 256
    → queue_run q (map press keys ++ ops) ≡ queue_run (q ++ keys) ops
unfolding queue_run queue_push
queue_run-press q [] ops h = ap (λ (t : List ℕ). queue_run t ops) (sym (append-nil q))
queue_run-press q (x ∷ keys) ops h =
    let room : ltb (length q) 256 ≡ true = lt→ltb _ _ (omega arith) in
    let more = queue_run-press (q ++ (x ∷ [])) keys ops (omega (arith, length-append q (x ∷ []))) in
    rw (queue_run, queue_push, room)
      (more ∙ ap (λ (t : List ℕ). queue_run t ops) (append_assoc q (x ∷ []) keys))

queue_run-take : (q : List ℕ) → queue_run q (replicate (length q) take_key) ≡ map some q
unfolding queue_run queue_pop
queue_run-take [] = refl
queue_run-take (x ∷ q) = ap (◌∷◌ (some x)) (queue_run-take q)

-- Up to 256 keys typed before the shell polls reach it through the ring buffer in order, and the
-- line that it reads is what the editor on a stack makes of them.
pub typed_before_polls :
    (keys : List ℕ) (v : Vga)
    → length keys ≤ 256
    → seen (read_line (run new (type_ahead keys)) v) ≡ edit (map some keys) []
typed_before_polls keys v h =
    let buffered : run new (type_ahead keys) ≡ map some keys =
      run_refines (type_ahead keys) new (new-IsValid.0)
      ∙ (ap (λ (q : List ℕ). queue_run q (type_ahead keys)) (new-IsValid.1)
          ∙ (queue_run-press [] keys (replicate (length keys) take_key) (omega arith)
              ∙ queue_run-take keys)) in
    rw buffered (read_line_refines (map some keys) v)
