-- ===== src/Common/Utf8.antt =====
-- `str::from_utf8` and `char` as UTF-8: which byte strings are UTF-8, by the table of well-formed
-- sequences of the Unicode standard.
use Prim.Native.Nat.{ℕ, zero, suc, ◌<◌}
use mathlib.Core.Path.{◌≡◌, refl}
use native.Mathlib.Omega.{arith}
use compute_kernel.Common.Lists.{All}
use mathlib.Core.Bool.{Bool, true, false, ◌&&◌}
use mathlib.Core.Option.{Option, none, some}
use mathlib.Core.List.{List, [], ◌∷◌}
use compute_kernel.Common.Tests.{ltb, leb, ◌==◌, if◌then◌else◌}

-- `b` lies in `lo..=hi`.
abbrev pub in_range : ℕ → ℕ → ℕ → Bool
in_range lo hi b = leb lo b && leb b hi

-- How many continuation bytes follow a first byte, and the range of the first of them.
abbrev lead : ℕ → Option (ℕ × ℕ × ℕ)
lead b =
    if ltb b 0x80
    then some (0, 0x80, 0xbf)
    else if in_range 0xc2 0xdf b
    then some (1, 0x80, 0xbf)
    else if b == 0xe0
    then some (2, 0xa0, 0xbf)
    else if b == 0xed
    then some (2, 0x80, 0x9f)
    else if in_range 0xe1 0xef b
    then some (2, 0x80, 0xbf)
    else if b == 0xf0
    then some (3, 0x90, 0xbf)
    else if in_range 0xf1 0xf3 b
    then some (3, 0x80, 0xbf)
    else if b == 0xf4
    then some (3, 0x80, 0x8f)
    else none

-- One byte, with `need` continuation bytes to come, the next of them from `lo` to `hi`.
abbrev advance : ℕ → ℕ → ℕ → ℕ → Option (ℕ × ℕ × ℕ)
advance zero lo hi b = lead b
advance (suc need) lo hi b = if in_range lo hi b then some (need, 0x80, 0xbf) else none

utf8_from : ℕ → ℕ → ℕ → List ℕ → Bool
utf8_from need lo hi [] = need == 0
utf8_from need lo hi (b ∷ bs) = elim (advance need lo hi b) [
  | none ↦ false
  | some (need', lo', hi') ↦ utf8_from need' lo' hi' bs
]

unfoldable pub is_utf8 : List ℕ → Bool
unfolding utf8_from
is_utf8 bytes = utf8_from 0 0x80 0xbf bytes

-- ASCII is UTF-8.
pub is_utf8_ascii : (bytes : List ℕ) → All (λ b. b < 128) bytes → is_utf8 bytes ≡ true
unfolding is_utf8
is_utf8_ascii [] h = refl
is_utf8_ascii (b ∷ bs) h = ground (arith, is_utf8_ascii bs)
