-- ===== src/Input/Flags.antt =====
-- The modifier flags of internal/input/keyboard.go as bits.
use crom_spirit_iso.Prelude.{ℕ, ◌+◌, bit_and, Bool, ◌≡◌, arith, if◌then◌else◌, ◌==◌}
use crom_spirit_iso.Input.{with_flag, mod_ctrl, mod_shift, mod_alt, mod_super}

abbrev bit : Bool → ℕ → ℕ
bit b n = if b then n else 0

-- The flags of the modifier keys that are down.
abbrev pub mask : Bool → Bool → Bool → Bool → ℕ
mask c s a u = bit c 1 + bit s 2 + bit a 4 + bit u 8

pub with_ctrl : (p c s a u : Bool) → with_flag (mask c s a u) mod_ctrl p ≡ mask p s a u
with_ctrl p c s a u = ground arith

pub with_shift : (p c s a u : Bool) → with_flag (mask c s a u) mod_shift p ≡ mask c p a u
with_shift p c s a u = ground arith

pub with_alt : (p c s a u : Bool) → with_flag (mask c s a u) mod_alt p ≡ mask c s p u
with_alt p c s a u = ground arith

pub with_super : (p c s a u : Bool) → with_flag (mask c s a u) mod_super p ≡ mask c s a p
with_super p c s a u = ground arith

pub has_ctrl : (c s a u : Bool) → (bit_and (mask c s a u) mod_ctrl == mod_ctrl) ≡ c
has_ctrl c s a u = ground arith

pub has_shift : (c s a u : Bool) → (bit_and (mask c s a u) mod_shift == mod_shift) ≡ s
has_shift c s a u = ground arith

pub has_alt : (c s a u : Bool) → (bit_and (mask c s a u) mod_alt == mod_alt) ≡ a
has_alt c s a u = ground arith

pub has_super : (c s a u : Bool) → (bit_and (mask c s a u) mod_super == mod_super) ≡ u
has_super c s a u = ground arith
