-- ===== src/Prelude/Words.antt =====
-- 64-bit signed integers (`int64`) as bit patterns below 2 ^ 64.
use Prim.Native.Nat.{ℕ, ◌+◌, ◌*◌, ◌/◌, ◌-◌, ◌%◌, ◌^◌, ◌<◌}
use mathlib.Core.Path.{◌≡◌}
use mathlib.Core.Bool.{Bool, false, xor}
use native.Mathlib.Omega.{arith}
use crom_spirit_iso.Prelude.Tests.{ltb, leb, if◌then◌else◌}

abbrev pub word : ℕ
word = 2 ^ 64

-- The first pattern that stands for a negative number.
abbrev pub sign_bit : ℕ
sign_bit = 2 ^ 63

-- A machine integer: conversion, `+` and `-`, which wrap.
abbrev pub int64 : ℕ → ℕ
int64 n = n % word

abbrev pub add64 : ℕ → ℕ → ℕ
add64 a b = (a + b) % word

abbrev pub sub64 : ℕ → ℕ → ℕ
sub64 a b = (a + (word - b % word)) % word

-- The signed test a > b: with the sign bit flipped, patterns compare as the numbers do.
abbrev pub gt64 : ℕ → ℕ → Bool
gt64 a b = ltb ((b + sign_bit) % word) ((a + sign_bit) % word)

-- On patterns of non-negative numbers the signed test is the plain one.
pub gt64_nonneg : (a b : ℕ) → a < sign_bit → b < sign_bit → gt64 a b ≡ ltb b a
gt64_nonneg a b ha hb = ground arith

-- Sums that do not reach the sign bit do not wrap, and what was added can be taken off.
pub sub64-add64 : (a b : ℕ) → sub64 (add64 a b) b ≡ a % word
sub64-add64 a b = omega arith

abbrev pub is_neg : ℕ → Bool
is_neg a = leb sign_bit a

abbrev pub neg64 : ℕ → ℕ
neg64 a = (word - a % word) % word

-- The absolute value.
abbrev pub magnitude : ℕ → ℕ
magnitude a = if is_neg a then word - a else a

abbrev pub mul64 : ℕ → ℕ → ℕ
mul64 a b = (a * b) % word

-- Go's `/`, for a divisor that is not 0: it rounds towards 0.
abbrev pub div64 : ℕ → ℕ → ℕ
div64 a b =
    let q = magnitude a / magnitude b in if xor (is_neg a) (is_neg b) then neg64 q else int64 q

pub div64_nonneg : (a b : ℕ) → a < sign_bit → b < sign_bit → div64 a b ≡ a / b % word
unfolding xor
div64_nonneg a b ha hb =
    let pa : leb sign_bit a ≡ false = ground arith in
    let pb : leb sign_bit b ≡ false = ground arith in rw (pa, pb)
