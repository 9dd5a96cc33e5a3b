-- ===== src/Prelude/Strings.antt =====
-- What the program uses of Go's `strings` package, on bytes.
use Prim.Native.Nat.{ℕ, zero, suc, ◌-◌}
use mathlib.Core.Bool.{Bool, true, false, ◌&&◌, ◌||◌}
use mathlib.Core.List.{List, [], ◌∷◌, ◌++◌, reverse}
use crom_spirit_iso.Prelude.Tests.{leb, ◌==◌, if◌then◌else◌}
use crom_spirit_iso.Prelude.Lists.{length, drop}
use crom_spirit_iso.Prelude.Text.{Bytes}

-- The bytes of the white space that a text begins with, as `unicode.IsSpace` has it: 0 if none.
-- Bytes 9 to 13, space, U+0085, U+00A0, U+1680, U+2000 to U+200A, U+2028, U+2029, U+202F, U+205F
-- and U+3000.
abbrev pub is_space_3 : ℕ → ℕ → ℕ → Bool
is_space_3 a b c =
    (a == 0xe1 && b == 0x9a && c == 0x80)
    || (a == 0xe2
        && b == 0x80
        && ((leb 0x80 c && leb c 0x8a) || c == 0xa8 || c == 0xa9 || c == 0xaf))
    || (a == 0xe2 && b == 0x81 && c == 0x9f)
    || (a == 0xe3 && b == 0x80 && c == 0x80)

abbrev pub is_space_2 : ℕ → ℕ → Bool
is_space_2 a b = a == 0xc2 && (b == 0x85 || b == 0xa0)

abbrev pub is_space_1 : ℕ → Bool
is_space_1 a = (leb 9 a && leb a 13) || a == 0x20

unfoldable pub space_width : Bytes → ℕ
space_width [] = 0
space_width (a ∷ []) = if is_space_1 a then 1 else 0
space_width (a ∷ b ∷ []) = if is_space_1 a then 1 else if is_space_2 a b then 2 else 0
space_width (a ∷ b ∷ c ∷ s) =
    if is_space_1 a then 1 else if is_space_2 a b then 2 else if is_space_3 a b c then 3 else 0

-- The same for the white space that a text ends with, the text being given from its last byte on.
unfoldable pub space_width_back : Bytes → ℕ
space_width_back [] = 0
space_width_back (a ∷ []) = if is_space_1 a then 1 else 0
space_width_back (b ∷ a ∷ []) = if is_space_1 b then 1 else if is_space_2 a b then 2 else 0
space_width_back (c ∷ b ∷ a ∷ s) =
    if is_space_1 c then 1 else if is_space_2 b c then 2 else if is_space_3 a b c then 3 else 0

-- The bytes of the white space at the head; `skip` more bytes belong to the rune before.
unfoldable pub leading : (Bytes → ℕ) → ℕ → Bytes → ℕ
leading width skip [] = 0
leading width (suc skip) (b ∷ s) = suc (leading width skip s)
leading width zero (b ∷ s) =
    let rest = suc (leading width (width (b ∷ s) - 1) s) in if width (b ∷ s) == 0 then 0 else rest

-- `strings.TrimSpace`
unfoldable pub trim_space : Bytes → Bytes
unfolding space_width space_width_back leading
trim_space s =
    let left = drop (leading space_width 0 s) s in
    let back = reverse left in reverse (drop (leading space_width_back 0 back) back)

-- A field that has ended: fields are not empty.
abbrev end_field : Bytes → List Bytes → List Bytes
end_field [] fs = fs
end_field (b ∷ s) fs = (b ∷ s) ∷ fs

-- `strings.Fields`; `field` is the field being read.
unfoldable pub fields_from : ℕ → Bytes → Bytes → List Bytes
unfolding space_width
fields_from skip field [] = end_field field []
fields_from (suc skip) field (b ∷ s) = fields_from skip field s
fields_from zero field (b ∷ s) =
    let inside = fields_from 0 (field ++ b ∷ []) s in
    let between = end_field field (fields_from (space_width (b ∷ s) - 1) [] s) in
    if space_width (b ∷ s) == 0 then inside else between

abbrev pub fields : Bytes → List Bytes
fields = fields_from 0 []

-- `strings.Split` by one byte; `part` is the part being read.
unfoldable pub split_from : ℕ → Bytes → Bytes → List Bytes
split_from sep part [] = part ∷ []
split_from sep part (b ∷ s) =
    let here = part ∷ split_from sep [] s in
    let on = split_from sep (part ++ b ∷ []) s in if b == sep then here else on

abbrev pub split : ℕ → Bytes → List Bytes
split sep = split_from sep []

-- `strings.SplitN(s, sep, 2)` by one byte.
unfoldable pub split_2_from : ℕ → Bytes → Bytes → List Bytes
split_2_from sep part [] = part ∷ []
split_2_from sep part (b ∷ s) =
    let on = split_2_from sep (part ++ b ∷ []) s in if b == sep then part ∷ s ∷ [] else on

abbrev pub split_2 : ℕ → Bytes → List Bytes
split_2 sep = split_2_from sep []

-- `strings.HasPrefix(s, p)`
unfoldable pub has_prefix : Bytes → Bytes → Bool
has_prefix s [] = true
has_prefix [] (c ∷ p) = false
has_prefix (b ∷ s) (c ∷ p) = b == c && has_prefix s p

-- `strings.TrimPrefix(s, p)`
unfoldable pub trim_prefix : Bytes → Bytes → Bytes
unfolding has_prefix
trim_prefix s p = if has_prefix s p then drop (length p) s else s

-- `strings.Contains(s, sub)`
unfoldable pub contains : Bytes → Bytes → Bool
unfolding has_prefix
contains [] sub = has_prefix [] sub
contains (b ∷ s) sub = has_prefix (b ∷ s) sub || contains s sub

-- `strings.Join(parts, sep)`
unfoldable pub join : Bytes → List Bytes → Bytes
join sep [] = []
join sep (s ∷ []) = s
join sep (s ∷ t ∷ ss) = s ++ (sep ++ join sep (t ∷ ss))
