-- ===== src/Drivers/Keyboard/Queue.antt =====
-- The ring buffer of kernel/src/drivers/keyboard.rs against a queue of at most 256 keys that drops
-- what comes when it is full.
use compute_kernel.Common.{
  ℕ, zero, suc, ◌+◌, ◌-◌, ◌%◌, ◌<◌, ◌≤◌, ◌≡◌, refl, ap, ap₂, ◌∙◌, Option, none, some, List, [], ◌∷◌,
  ◌++◌, arith, ltb, if◌then◌else◌, length, length-set, get_or, get_or-set_self, get_or-set_ne, set,
  length-replicate,
}
use compute_kernel.Drivers.Keyboard.{KeyBuffer, new, push, pop}

-- The keys held, oldest first: `n` of them from index `i` on, the index taken modulo 256.
pub window : List ℕ → ℕ → ℕ → List ℕ
window buf i zero = []
window buf i (suc n) = get_or buf (i % 256) 0 ∷ window buf (i + 1) n

pub contents : KeyBuffer → List ℕ
unfolding window
contents k = window k.buf k.read k.count

pub record IsValid (k : KeyBuffer) : Type 0 where
  pub size : length k.buf ≡ 256
  pub read_lt : k.read < 256
  pub full : k.count ≤ 256
  pub behind : k.write ≡ (k.read + k.count) % 256

-- The queue that a client of the buffer may think of.
unfoldable pub queue_push : List ℕ → ℕ → List ℕ
queue_push q x = if ltb (length q) 256 then q ++ (x ∷ []) else q

unfoldable pub queue_pop : List ℕ → Option ℕ × List ℕ
queue_pop [] = (none, [])
queue_pop (x ∷ q) = (some x, q)

length-window : (buf : List ℕ) (i n : ℕ) → length (window buf i n) ≡ n
unfolding window
length-window buf i zero = refl
length-window buf i (suc n) = ap suc (length-window buf (i + 1) n)

-- A key written just behind the window joins it at its end.
window-set :
    (buf : List ℕ) (x i n w : ℕ)
    → length buf ≡ 256
    → n < 256
    → w ≡ (i + n) % 256
    → window (set buf w x) i (suc n) ≡ window buf i n ++ (x ∷ [])
unfolding window
window-set buf x i zero w size h e =
    let here : i % 256 ≡ w = omega arith in
    rw here (ap (λ (t : ℕ). t ∷ []) (get_or-set_self buf w x 0 (omega arith)))
window-set buf x i (suc n) w size h e =
    ap₂ ◌∷◌ (get_or-set_ne buf w (i % 256) x 0 (omega arith))
      (window-set buf x (i + 1) n w size (omega arith) (omega arith))

-- The window depends on its start modulo 256 alone.
window_mod : (buf : List ℕ) (i j n : ℕ) → i % 256 ≡ j % 256 → window buf i n ≡ window buf j n
unfolding window
window_mod buf i j zero e = refl
window_mod buf i j (suc n) e =
    ap₂ ◌∷◌ (ap (λ (t : ℕ). get_or buf t 0) e) (window_mod buf (i + 1) (j + 1) n (omega arith))

push-IsValid : (k : KeyBuffer) (x : ℕ) → IsValid k → IsValid (push k x)
unfolding push
push-IsValid k x v = ground (arith, length-set k.buf k.write x)

pop-IsValid : (k : KeyBuffer) → IsValid k → IsValid (pop k).1
unfolding pop
pop-IsValid k v = ground arith

-- A new buffer is valid and empty.
pub new-IsValid : IsValid new × (contents new ≡ [])
unfolding new contents window
new-IsValid = (omega (arith, length-replicate {A = ℕ} 256 0), refl)

-- `push` is that of the queue: the key joins the end, or is dropped when 256 keys wait.
push_refines : (k : KeyBuffer) (x : ℕ) → IsValid k → contents (push k x) ≡ queue_push (contents k) x
unfolding contents push queue_push
push_refines k x v =
    ground
      (arith, length-window k.buf k.read k.count, window-set k.buf x k.read k.count k.write v.size)

window_first :
    (buf : List ℕ) (i n : ℕ)
    → i < 256
    → 0 < n
    → window buf i n ≡ get_or buf i 0 ∷ window buf ((i + 1) % 256) (n - 1)
unfolding window
window_first buf i zero h pos = absurd (omega arith)
window_first buf i (suc n) h pos = ap₂ ◌∷◌ (ap (λ (t : ℕ). get_or buf t 0) (omega arith)) (
    window_mod buf (i + 1) ((i + 1) % 256) n (omega arith)
    ∙ ap (window buf ((i + 1) % 256)) (omega arith))

window_empty : (buf : List ℕ) (i n : ℕ) → n ≡ 0 → window buf i n ≡ []
unfolding window
window_empty buf i n e = rw e

-- `pop` is that of the queue: the oldest key, or none from an empty buffer.
pop_refines :
    (k : KeyBuffer)
    → IsValid k
    → ((pop k).0 ≡ (queue_pop (contents k)).0) × (contents (pop k).1 ≡ (queue_pop (contents k)).1)
unfolding contents pop queue_pop
pop_refines k v =
    ground (arith, window_first k.buf k.read k.count v.read_lt, window_empty k.buf k.read k.count)

-- What happens to the buffer: the interrupt handler brings a key, or a reader asks for one.
pub data KeyOp : Type 0 where
  press : ℕ → KeyOp
  take_key : KeyOp

-- What the reader is given, in order.
unfoldable pub run : KeyBuffer → List KeyOp → List (Option ℕ)
run k [] = []
run k (press x ∷ ops) = run (push k x) ops
run k (take_key ∷ ops) = (pop k).0 ∷ run (pop k).1 ops

unfoldable pub queue_run : List ℕ → List KeyOp → List (Option ℕ)
queue_run q [] = []
queue_run q (press x ∷ ops) = queue_run (queue_push q x) ops
queue_run q (take_key ∷ ops) = (queue_pop q).0 ∷ queue_run (queue_pop q).1 ops

-- No sequence of key presses and reads tells the ring buffer from the queue of the keys it holds.
pub run_refines :
    (ops : List KeyOp) (k : KeyBuffer) → IsValid k → run k ops ≡ queue_run (contents k) ops
unfolding run queue_run
run_refines [] k v = refl
run_refines (press x ∷ ops) k v =
    run_refines ops (push k x) (push-IsValid k x v)
    ∙ ap (λ (q : List ℕ). queue_run q ops) (push_refines k x v)
run_refines (take_key ∷ ops) k v = ap₂ ◌∷◌ (pop_refines k v).0 (
    run_refines ops (pop k).1 (pop-IsValid k v)
    ∙ ap (λ (q : List ℕ). queue_run q ops) (pop_refines k v).1)
