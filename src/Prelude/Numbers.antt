-- ===== src/Prelude/Numbers.antt =====
-- Decimal numbers as text: `strconv.Atoi` and `%d`.
use Prim.Native.Nat.{ℕ, zero, suc, ◌+◌, ◌-◌, ◌*◌, ◌/◌, ◌%◌}
use mathlib.Core.Bool.{Bool, ◌&&◌}
use mathlib.Core.List.{[], ◌∷◌}
use mathlib.Core.Option.{Option, none, some}
use crom_spirit_iso.Prelude.Tests.{ltb, leb, ◌==◌, if◌then◌else◌}
use crom_spirit_iso.Prelude.Text.{Bytes}
use crom_spirit_iso.Prelude.Words.{sign_bit, is_neg, magnitude, neg64}

abbrev pub is_digit : ℕ → Bool
is_digit b = leb b'0' b && leb b b'9'

-- Digits only; `n` is the number read so far.
unfoldable pub digits_from : ℕ → Bytes → Option ℕ
digits_from n [] = some n
digits_from n (b ∷ s) =
    let rest = digits_from (n * 10 + (b - b'0')) s in if is_digit b then rest else none

-- At least one digit.
unfoldable pub digits : Bytes → Option ℕ
unfolding digits_from
digits [] = none
digits (b ∷ s) = digits_from 0 (b ∷ s)

-- Out of range the nearest number is returned, and 0 for a text that is no number.
abbrev clamp_pos : Option ℕ → ℕ
clamp_pos none = 0
clamp_pos (some n) = if ltb n sign_bit then n else sign_bit - 1

abbrev clamp_neg : Option ℕ → ℕ
clamp_neg none = 0
clamp_neg (some n) = if leb n sign_bit then neg64 n else sign_bit

-- `strconv.Atoi`, its error ignored, as an int64.
unfoldable pub atoi : Bytes → ℕ
unfolding digits
atoi [] = 0
atoi (b ∷ s) =
    if b == b'-'
    then clamp_neg (digits s)
    else if b == b'+'
    then clamp_pos (digits s)
    else clamp_pos (digits (b ∷ s))

-- The digits of a number below 10 ^ fuel, in front of `s`.
unfoldable pub decimal_from : ℕ → ℕ → Bytes → Bytes
decimal_from zero n s = s
decimal_from (suc fuel) n s =
    let s' = (b'0' + n % 10) ∷ s in
    let rest = decimal_from fuel (n / 10) s' in if ltb n 10 then s' else rest

-- `%d` of a number below 2 ^ 64, which has at most 20 digits.
unfoldable pub decimal : ℕ → Bytes
unfolding decimal_from
decimal n = decimal_from 20 n []

-- `%d` of an int64.
unfoldable pub decimal_signed : ℕ → Bytes
unfolding decimal
decimal_signed a = if is_neg a then b'-' ∷ decimal (magnitude a) else decimal a
