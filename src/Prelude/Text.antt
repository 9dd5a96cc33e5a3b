-- ===== src/Prelude/Text.antt =====
-- Go strings and byte slices' contents as lists of bytes.
use Prim.Native.Char.{code}
use crom_spirit_iso.Prelude.Tests.{ltb, if◌then◌else◌}
use Prim.Native.Nat.{ℕ, ◌+◌, ◌/◌, ◌%◌}
use Prim.Native.String.{String}
use mathlib.Core.List.{List, [], ◌∷◌, ◌++◌}
unfoldable use native.Mathlib.Decide.{ℕ_discrete}

abbrev pub Bytes : Type 0
Bytes = List ℕ

-- Equality of Go strings.
unfoldable pub Bytes_discrete : Discrete Bytes
unfolding ℕ_discrete
Bytes_discrete = hlevel ℕ_discrete

-- The UTF-8 encoding of a code point.
abbrev pub utf8 : ℕ → Bytes
utf8 c =
    if ltb c 0x80
    then c ∷ []
    else if ltb c 0x800
    then (0xc0 + c / 64) ∷ (0x80 + c % 64) ∷ []
    else if ltb c 0x10000
    then (0xe0 + c / 4096) ∷ (0x80 + c / 64 % 64) ∷ (0x80 + c % 64) ∷ []
    else (0xf0 + c / 262144) ∷ (0x80 + c / 4096 % 64) ∷ (0x80 + c / 64 % 64) ∷ (0x80 + c % 64) ∷ []

-- The bytes of a string literal.
abbrev pub bytes : String → Bytes
bytes String.[] = []
bytes (String.◌∷◌ c s) = utf8 (code c) ++ bytes s

-- The sign of a warning, in colour.
abbrev pub warning_sign : Bytes
warning_sign = bytes "⚠" ++ 0xef ∷ 0xb8 ∷ 0x8f ∷ []
