-- ===== src/Nodus/Node/Scan.antt =====
-- `fmt.Sscanf(header, "%s\n%d\n", &filename, &size)` of internal/nodus/node.go. On an error what was
-- read before it stays, and the rest keeps its zero value.
use crom_spirit_iso.Prelude.{
  ℕ, zero, suc, ◌+◌, ◌-◌, ◌*◌, ◌||◌, ◌&&◌, not, leb, Bool, Option, none, some, [], ◌∷◌, ltb, ◌==◌,
  if◌then◌else◌, drop, sign_bit,
}
use crom_spirit_iso.Prelude.Numbers.{is_digit}
use crom_spirit_iso.Prelude.Strings.{space_width}
use crom_spirit_iso.Prelude.Text.{Bytes}

-- A size as it was read; `make` panics on a negative one.
pub data Size : Type 0 where
  of_bytes : ℕ → Size
  below_zero : Size

pub record Header : Type 0 where
  pub filename : Bytes
  pub size : Size

-- The length of the white space at the head, other than newlines; `skip` more bytes belong to it.
unfoldable pub blanks : ℕ → Bytes → ℕ
blanks skip [] = 0
blanks (suc skip) (b ∷ s) = suc (blanks skip s)
blanks zero (b ∷ s) =
    let rest = suc (blanks (space_width (b ∷ s) - 1) s) in
    if space_width (b ∷ s) == 0 || b == b'\n' then 0 else rest

-- A byte that is not the first one of its rune, and the runes of two, three and four bytes.
abbrev is_next : ℕ → Bool
is_next b = leb 0x80 b && leb b 0xbf

abbrev pub is_rune_2 : ℕ → ℕ → Bool
is_rune_2 a b = leb 0xc2 a && leb a 0xdf && is_next b

abbrev pub is_rune_3 : ℕ → ℕ → ℕ → Bool
is_rune_3 a b c =
    is_next c
    && ((a == 0xe0 && leb 0xa0 b && leb b 0xbf)
        || (a == 0xed && leb 0x80 b && leb b 0x9f)
        || (leb 0xe1 a && leb a 0xef && not (a == 0xed) && is_next b))

abbrev pub is_rune_4 : ℕ → ℕ → ℕ → ℕ → Bool
is_rune_4 a b c d =
    is_next c
    && is_next d
    && ((a == 0xf0 && leb 0x90 b && leb b 0xbf)
        || (a == 0xf4 && leb 0x80 b && leb b 0x8f)
        || (leb 0xf1 a && leb a 0xf3 && is_next b))

-- The bytes of the rune that a text begins with, as `utf8.DecodeRune` has it: 0 if it is no UTF-8.
unfoldable pub rune_width : Bytes → ℕ
rune_width [] = 0
rune_width (a ∷ []) = if ltb a 0x80 then 1 else 0
rune_width (a ∷ b ∷ []) = if ltb a 0x80 then 1 else if is_rune_2 a b then 2 else 0
rune_width (a ∷ b ∷ c ∷ []) =
    if ltb a 0x80 then 1 else if is_rune_2 a b then 2 else if is_rune_3 a b c then 3 else 0
rune_width (a ∷ b ∷ c ∷ d ∷ s) =
    if ltb a 0x80
    then 1
    else if is_rune_2 a b
    then 2
    else if is_rune_3 a b c
    then 3
    else if is_rune_4 a b c d
    then 4
    else 0

-- What `%s` takes, and what is left: the runes before the next white space, with U+FFFD in place of
-- each byte that is no UTF-8; `skip` more bytes belong to the rune before.
unfoldable pub token : ℕ → Bytes → Bytes × Bytes
token skip [] = ([], [])
token (suc skip) (b ∷ s) = let (t, rest) = token skip s in (b ∷ t, rest)
token zero (b ∷ s) =
    let (t, rest) = token (rune_width (b ∷ s) - 1) s in
    if space_width (b ∷ s) == 0
    then (if rune_width (b ∷ s) == 0 then (0xef ∷ 0xbf ∷ 0xbd ∷ t, rest) else (b ∷ t, rest))
    else ([], b ∷ s)

-- What a newline in the format takes: blanks and a newline, or the end of the input.
unfoldable pub newline : Bytes → Option Bytes
newline s = elim (drop (blanks 0 s) s) [
  | [] ↦ some []
  | b ∷ rest ↦ if b == b'\n' then some rest else none
]

-- The digits at the head as a number, after the number `n` read so far.
unfoldable pub number_from : ℕ → Bytes → ℕ
number_from n [] = n
number_from n (b ∷ s) =
    let rest = number_from (n * 10 + (b - b'0')) s in if is_digit b then rest else n

-- A number that is no int64 is an error, so the size stays 0.
abbrev plus : ℕ → Size
plus n = of_bytes (if ltb n sign_bit then n else 0)

abbrev minus : ℕ → Size
minus n = if n == 0 then of_bytes 0 else if ltb sign_bit n then of_bytes 0 else below_zero

-- What `%d` reads; 0 where there is no digit.
unfoldable pub number : Bytes → Size
number [] = of_bytes 0
number (b ∷ s) =
    if b == b'-'
    then minus (number_from 0 s)
    else if b == b'+'
    then plus (number_from 0 s)
    else plus (number_from 0 (b ∷ s))

abbrev sized : Bytes → Option Bytes → Header
sized t none = record { filename = t; size = of_bytes 0 }
sized t (some s) = record { filename = t; size = number (drop (blanks 0 s) s) }

-- A text with no token is an error at once.
abbrev named : Bytes × Bytes → Header
named ([], s) = record { filename = []; size = of_bytes 0 }
named (b ∷ t, s) = sized (b ∷ t) (newline s)

unfoldable pub parse_header : Bytes → Header
parse_header s = named (token 0 (drop (blanks 0 s) s))
