-- ===== src/Shell/Editing.antt =====
-- The line editor of kernel/src/shell.rs against an editor on a stack of characters.
use compute_kernel.Common.{
  ℕ, zero, suc, ◌+◌, ◌-◌, ◌<◌, ◌≡◌, refl, ap, ◌∙◌, true, false, ◌||◌, ◌&&◌, Bool-cases, Option,
  none, some, List, [], ◌∷◌, arith, ◌==◌, leb, ltb, if◌then◌else◌, length, take, set, replicate,
  ge→ltb, lt→ltb, inl, inr,
}
use compute_kernel.Drivers.Vga.{Vga, backspace, write_string}
use compute_kernel.Syscall.Io.{char_bytes}
use compute_kernel.Shell.{
  max_cmd_len, Line, press, LineRead, entered, waiting, read_keys, read_line,
}

-- The characters of a stack, the oldest first, in front of a list.
unfoldable pub rev_onto : List ℕ → List ℕ → List ℕ
rev_onto [] acc = acc
rev_onto (c ∷ cs) acc = rev_onto cs (c ∷ acc)

-- A line that has been entered, or is being typed.
pub data Edited : Type 0 where
  text typing : List ℕ → Edited

unfoldable pub untype : List ℕ → List ℕ
untype [] = []
untype (c ∷ cs) = cs

-- Enter takes the line, backspace and delete the last character off, Ctrl-C empties the line and
-- ends it, and what is printable is put on as long as there is room.
unfoldable pub edit : List (Option ℕ) → List ℕ → Edited
unfolding rev_onto untype
edit [] stack = typing (rev_onto stack [])
edit (none ∷ keys) stack = edit keys stack
edit (some ch ∷ keys) stack =
    let erased = edit keys (untype stack) in
    let more = edit keys (ch ∷ stack) in
    let same = edit keys stack in
    if ch == 10 || ch == 13
    then text (rev_onto stack [])
    else if ch == 0x08 || ch == 0x7f
    then erased
    else if ch == 0x03
    then text []
    else if leb 0x20 ch && ltb (length stack) 255
    then more
    else same

-- What the caller of `read_line` sees: the bytes up to the count.
abbrev pub seen : LineRead → Edited
seen (entered buf n screen polls) = text (take n buf)
seen (waiting l) = typing (take l.pos l.buf)

set-rev_onto :
    (stack acc : List ℕ) (i y : ℕ)
    → set (rev_onto stack acc) (length stack + i) y ≡ rev_onto stack (set acc i y)
unfolding rev_onto
set-rev_onto [] acc i y = ap (λ (n : ℕ). set acc n y) (omega arith)
set-rev_onto (c ∷ cs) acc i y =
    ap (λ (n : ℕ). set (rev_onto cs (c ∷ acc)) n y) (omega arith)
    ∙ set-rev_onto cs (c ∷ acc) (suc i) y

take-rev_onto :
    (stack acc : List ℕ) (i : ℕ)
    → take (length stack + i) (rev_onto stack acc) ≡ rev_onto stack (take i acc)
unfolding rev_onto
take-rev_onto [] acc i = ap (λ (n : ℕ). take n acc) (omega arith)
take-rev_onto (c ∷ cs) acc i =
    ap (λ (n : ℕ). take n (rev_onto cs (c ∷ acc))) (omega arith)
    ∙ take-rev_onto cs (c ∷ acc) (suc i)

-- The buffer holds the characters of the stack, and zeros behind them.
record Shows (l : Line) (stack : List ℕ) (room : ℕ) : Type 0 where
  buf_is : l.buf ≡ rev_onto stack (replicate (suc room) 0)
  pos_is : l.pos ≡ length stack
  room_is : length stack + room ≡ 255

shown :
    (l : Line) (stack : List ℕ) (room : ℕ)
    → Shows l stack room
    → take l.pos l.buf ≡ rev_onto stack []
shown l stack room h =
    let all : l.pos ≡ length stack + 0 = omega (arith, h.pos_is) in
    rw (all, h.buf_is) (take-rev_onto stack (replicate (suc room) 0) 0)

-- What erasing and typing do to the line.
abbrev pub erased_line : Line → Line
erased_line l =
    if ltb 0 l.pos
    then record l { buf = set l.buf (l.pos - 1) 0; pos = l.pos - 1; screen = backspace l.screen }
    else l

abbrev typed_line : ℕ → Line → Line
typed_line ch l = record l {
  buf = set l.buf l.pos ch;
  pos = l.pos + 1;
  screen = write_string (char_bytes (ch ∷ [])) l.screen;
}

erased-Shows :
    (l : Line) (stack : List ℕ) (room : ℕ)
    → Shows l stack room
    → (room' : ℕ) × Shows (erased_line l) (untype stack) room'
unfolding untype rev_onto
erased-Shows l [] room h =
    let first : ltb 0 l.pos ≡ false = ge→ltb _ _ (omega (arith, h.pos_is)) in (room, rw first h)
erased-Shows l (c ∷ cs) room h =
    let behind : ltb 0 l.pos ≡ true = lt→ltb _ _ (omega (arith, h.pos_is)) in
    let place : l.pos - 1 ≡ length cs + 0 = omega (arith, h.pos_is) in
    (
      suc room,
      rw behind (record {
        buf_is = rw (h.buf_is, place) (set-rev_onto cs (c ∷ replicate (suc room) 0) 0 0);
        pos_is = omega (arith, h.pos_is);
        room_is = omega (arith, h.room_is);
      }),
    )

typed-Shows :
    (ch : ℕ) (l : Line) (stack : List ℕ) (room : ℕ)
    → length stack < 255
    → Shows l stack room
    → (room' : ℕ) × Shows (typed_line ch l) (ch ∷ stack) room'
unfolding rev_onto
typed-Shows ch l stack zero free h = absurd (omega (arith, h.room_is))
typed-Shows ch l stack (suc room) free h =
    let place : l.pos ≡ length stack + 0 = omega (arith, h.pos_is) in
    (
      room,
      record {
        buf_is = rw (h.buf_is, place) (set-rev_onto stack (replicate (suc (suc room)) 0) 0 ch);
        pos_is = omega (arith, h.pos_is);
        room_is = omega (arith, h.room_is);
      },
    )

read_keys_refines :
    (polls : List (Option ℕ)) (l : Line) (stack : List ℕ) (room : ℕ)
    → Shows l stack room
    → seen (read_keys polls l) ≡ edit polls stack
unfolding read_keys edit
read_keys_refines [] l stack room h = ap typing (shown l stack room h)
read_keys_refines (none ∷ polls) l stack room h = read_keys_refines polls l stack room h
read_keys_refines (some ch ∷ polls) l stack room h = elim (Bool-cases (ch == 10 || ch == 13)) [
  | inl enter ↦ rw (read_keys, press, edit, enter) (ap text (shown l stack room h))
  | inr e ↦ elim (Bool-cases (ch == 0x08 || ch == 0x7f)) [
    | inl back ↦
        let (room', h') = erased-Shows l stack room h in
        rw (read_keys, press, edit, e, back)
          (read_keys_refines polls (erased_line l) (untype stack) room' h')
    | inr b ↦ elim (Bool-cases (ch == 0x03)) [
      | inl cancel ↦ rw (read_keys, press, edit, e, b, cancel) refl
      | inr c ↦ elim (Bool-cases (leb 0x20 ch && ltb (length stack) 255)) [
        | inr full ↦
            let here : (leb 0x20 ch && ltb l.pos 255) ≡ false = rw (h.pos_is) full in
            rw (read_keys, press, edit, e, b, c, here, full)
              (read_keys_refines polls l stack room h)
        | inl fits ↦
            let here : (leb 0x20 ch && ltb l.pos 255) ≡ true = rw (h.pos_is) fits in
            let (room', h') = typed-Shows ch l stack room (ground (arith, fits)) h in
            rw (read_keys, press, edit, e, b, c, here, fits)
              (read_keys_refines polls (typed_line ch l) (ch ∷ stack) room' h')
      ]
    ]
  ]
]

-- Whatever is polled, `read_line` shows its caller what the editor on a stack makes of the keys.
pub read_line_refines :
    (polls : List (Option ℕ)) (v : Vga) → seen (read_line polls v) ≡ edit polls []
unfolding read_line rev_onto
read_line_refines polls v =
    read_keys_refines polls (record { buf = replicate max_cmd_len 0; pos = 0; screen = v }) [] 255
      (record { buf_is = refl; pos_is = refl; room_is = refl })
