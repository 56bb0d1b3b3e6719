-- ===== src/Prelude/Int.antt =====
-- Go's int, the values of 64 bits with a sign, and what package strconv reads into it. A
-- time.Duration is kept as the 64 bits that stand for it.
use Prim.Native.Nat.{ℕ, zero, suc, ◌+◌, ◌-◌, ◌*◌, ◌%◌, ◌^◌}
use mathlib.Core.Bool.{Bool, true, false, ◌&&◌}
use mathlib.Core.List.{[], ◌∷◌}
use mathlib.Core.Option.{Option, none, some}
use sipgate_sip_stream_bridg.Prelude.Tests.{ltb, leb, ◌==◌, if◌then◌else◌}
use sipgate_sip_stream_bridg.Prelude.Text.{Text}

-- `negsuc n` is -(n + 1).
pub data ℤ : Type 0 where
  pos : ℕ → ℤ
  negsuc : ℕ → ℤ

-- Minus n.
unfoldable pub neg : ℕ → ℤ
neg zero = pos 0
neg (suc n) = negsuc n

unfoldable pub read_digits : ℕ → Text → Option ℕ
read_digits n [] = some n
read_digits n (c ∷ s) =
    let rest = read_digits (10 * n + (c - b'0')) s in
    if leb b'0' c && leb c b'9' then rest else none

unfoldable pub read_natural : Text → Option ℕ
unfolding read_digits
read_natural [] = none
read_natural (c ∷ s) = read_digits 0 (c ∷ s)

unfoldable pub in_int64 : Bool → ℕ → Option ℤ
unfolding neg
in_int64 negative n =
    if negative
    then (if leb n (2 ^ 63) then some (neg n) else none)
    else (if ltb n (2 ^ 63) then some (pos n) else none)

unfoldable pub signed : Bool → Option ℕ → Option ℤ
unfolding in_int64
signed negative none = none
signed negative (some n) = in_int64 negative n

-- `strconv.Atoi`; its error carries nothing that the program looks at.
unfoldable pub atoi : Text → Option ℤ
unfolding signed read_natural
atoi [] = none
atoi (c ∷ s) =
    if c == b'-'
    then signed true (read_natural s)
    else if c == b'+'
    then signed false (read_natural s)
    else signed false (read_natural (c ∷ s))

-- The 64 bits of a number times a unit, with its wrap-around.
unfoldable pub bits_times : ℤ → ℕ → ℕ
bits_times (pos n) unit = n * unit % 2 ^ 64
bits_times (negsuc n) unit = (2 ^ 64 - suc n * unit % 2 ^ 64) % 2 ^ 64

-- Whether 64 bits stand for a number below 0.
unfoldable pub is_negative : ℕ → Bool
is_negative d = leb (2 ^ 63) d

unfoldable pub up : ℤ → ℤ
up (pos n) = pos (suc n)
up (negsuc zero) = pos 0
up (negsuc (suc n)) = negsuc n

unfoldable pub down : ℤ → ℤ
down (pos zero) = negsuc 0
down (pos (suc n)) = pos n
down (negsuc n) = negsuc (suc n)

unfoldable pub is_zero : ℤ → Bool
is_zero (pos zero) = true
is_zero (pos (suc n)) = false
is_zero (negsuc n) = false
