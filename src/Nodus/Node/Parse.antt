-- ===== src/Nodus/Node/Parse.antt =====
-- The header of a broadcast of internal/nodus/node.go, as it is read back.
use crom_spirit_iso.Prelude.{
  ℕ, zero, suc, ◌+◌, ◌*◌, ◌/◌, ◌%◌, ◌^◌, ◌<◌, Bool, true, false, some, [], ◌∷◌, ◌++◌, ◌≡◌, refl,
  ◌∙◌, ap, arith, ltb, ltb→lt, lt→ltb, ◌==◌, drop, sign_bit, not, ◌&&◌, ◌||◌, leb, Bool-cases, inl,
  inr,
}
use native.Mathlib.Nat.{pow-suc}
use mathlib.Core.List.{append_assoc}
use crom_spirit_iso.Prelude.Numbers.{decimal, decimal_from, is_digit}
use crom_spirit_iso.Prelude.Strings.{space_width, is_space_1, is_space_2, is_space_3}
use crom_spirit_iso.Prelude.Text.{Bytes}
use crom_spirit_iso.Nodus.Node.{broadcast_header}
use crom_spirit_iso.Nodus.Node.Scan.{
  of_bytes, blanks, token, is_rune_2, is_rune_3, is_rune_4, rune_width, newline, number_from,
  number, parse_header,
}

-- A byte with which no white space begins.
abbrev is_solid : ℕ → Bool
is_solid b =
    not ((leb 9 b && leb b 13) || b == 0x20 || b == 0xc2 || b == 0xe1 || b == 0xe2 || b == 0xe3)

-- Valid UTF-8 with no white space, rune by rune.
pub data IsWord : Bytes → Type 0 where
  no_more : IsWord []
  rune_1 :
      (a : ℕ) (t : Bytes) → ltb a 0x80 ≡ true → is_space_1 a ≡ false → IsWord t → IsWord (a ∷ t)
  rune_2 :
      (a b : ℕ) (t : Bytes)
      → is_rune_2 a b ≡ true
      → is_space_2 a b ≡ false
      → IsWord t
      → IsWord (a ∷ b ∷ t)
  rune_3 :
      (a b c : ℕ) (t : Bytes)
      → is_rune_3 a b c ≡ true
      → is_space_3 a b c ≡ false
      → IsWord t
      → IsWord (a ∷ b ∷ c ∷ t)
  rune_4 :
      (a b c d : ℕ) (t : Bytes) → is_rune_4 a b c d ≡ true → IsWord t → IsWord (a ∷ b ∷ c ∷ d ∷ t)

space_width-rune_1 :
    (a : ℕ) (s : Bytes) → ltb a 0x80 ≡ true → is_space_1 a ≡ false → space_width (a ∷ s) ≡ 0
unfolding space_width
space_width-rune_1 a [] h n = rw n
space_width-rune_1 a (c ∷ []) h n = ground arith
space_width-rune_1 a (c ∷ d ∷ s) h n = ground arith

rune_width-rune_1 : (a : ℕ) (s : Bytes) → ltb a 0x80 ≡ true → rune_width (a ∷ s) ≡ 1
unfolding rune_width
rune_width-rune_1 a [] h = rw h
rune_width-rune_1 a (b ∷ []) h = rw h
rune_width-rune_1 a (b ∷ c ∷ []) h = rw h
rune_width-rune_1 a (b ∷ c ∷ d ∷ s) h = rw h

space_width-rune_2 :
    (a b : ℕ) (s : Bytes)
    → is_rune_2 a b ≡ true
    → is_space_2 a b ≡ false
    → space_width (a ∷ b ∷ s) ≡ 0
unfolding space_width
space_width-rune_2 a b [] h n = ground arith
space_width-rune_2 a b (c ∷ s) h n = ground arith

rune_width-rune_2 : (a b : ℕ) (s : Bytes) → is_rune_2 a b ≡ true → rune_width (a ∷ b ∷ s) ≡ 2
unfolding rune_width
rune_width-rune_2 a b [] h = ground arith
rune_width-rune_2 a b (c ∷ []) h = ground arith
rune_width-rune_2 a b (c ∷ d ∷ s) h = ground arith

space_width-rune_3 :
    (a b c : ℕ) (s : Bytes)
    → is_rune_3 a b c ≡ true
    → is_space_3 a b c ≡ false
    → space_width (a ∷ b ∷ c ∷ s) ≡ 0
unfolding space_width
space_width-rune_3 a b c s h n = rw n (ground arith)

rune_width-rune_3 :
    (a b c : ℕ) (s : Bytes) → is_rune_3 a b c ≡ true → rune_width (a ∷ b ∷ c ∷ s) ≡ 3
unfolding rune_width
rune_width-rune_3 a b c [] h = ground arith
rune_width-rune_3 a b c (d ∷ s) h = ground arith

space_width-rune_4 :
    (a b c d : ℕ) (s : Bytes) → is_rune_4 a b c d ≡ true → space_width (a ∷ b ∷ c ∷ d ∷ s) ≡ 0
unfolding space_width
space_width-rune_4 a b c d s h = ground arith

rune_width-rune_4 :
    (a b c d : ℕ) (s : Bytes) → is_rune_4 a b c d ≡ true → rune_width (a ∷ b ∷ c ∷ d ∷ s) ≡ 4
unfolding rune_width
rune_width-rune_4 a b c d s h = ground arith

space_width-solid : (b : ℕ) (s : Bytes) → is_solid b ≡ true → space_width (b ∷ s) ≡ 0
unfolding space_width
space_width-solid b [] h = ground arith
space_width-solid b (c ∷ []) h = ground arith
space_width-solid b (c ∷ d ∷ s) h = ground arith

space_width-newline : (s : Bytes) → space_width (b'\n' ∷ s) ≡ 1
unfolding space_width
space_width-newline [] = refl
space_width-newline (c ∷ []) = refl
space_width-newline (c ∷ d ∷ s) = refl

blanks-solid : (b : ℕ) (s : Bytes) → is_solid b ≡ true → blanks 0 (b ∷ s) ≡ 0
unfolding blanks
blanks-solid b s h = rw (space_width-solid b s h)

blanks-newline : (s : Bytes) → blanks 0 (b'\n' ∷ s) ≡ 0
unfolding blanks
blanks-newline s = rw (space_width-newline s)

newline_lem : (s : Bytes) → newline (b'\n' ∷ s) ≡ some s
unfolding newline
newline_lem s = rw (newline, blanks-newline s)

token-append : {t : Bytes} (s : Bytes) → IsWord t → token 0 (t ++ b'\n' ∷ s) ≡ (t, b'\n' ∷ s)
unfolding token
token-append s no_more = rw (space_width-newline s)
token-append s (rune_1 a t h n w) = rw (
  rune_width-rune_1 a (t ++ b'\n' ∷ s) h,
  space_width-rune_1 a (t ++ b'\n' ∷ s) h n,
  token-append s w,
)
token-append s (rune_2 a b t h n w) = rw (
  rune_width-rune_2 a b (t ++ b'\n' ∷ s) h,
  space_width-rune_2 a b (t ++ b'\n' ∷ s) h n,
  token-append s w,
)
token-append s (rune_3 a b c t h n w) = rw (
  rune_width-rune_3 a b c (t ++ b'\n' ∷ s) h,
  space_width-rune_3 a b c (t ++ b'\n' ∷ s) h n,
  token-append s w,
)
token-append s (rune_4 a b c d t h w) = rw (
  rune_width-rune_4 a b c d (t ++ b'\n' ∷ s) h,
  space_width-rune_4 a b c d (t ++ b'\n' ∷ s) h,
  token-append s w,
)

blanks-word : {t : Bytes} (s : Bytes) → IsWord t → blanks 0 (t ++ b'\n' ∷ s) ≡ 0
unfolding blanks
blanks-word s no_more = rw (space_width-newline s)
blanks-word s (rune_1 a t h n w) = rw (space_width-rune_1 a (t ++ b'\n' ∷ s) h n)
blanks-word s (rune_2 a b t h n w) = rw (space_width-rune_2 a b (t ++ b'\n' ∷ s) h n)
blanks-word s (rune_3 a b c t h n w) = rw (space_width-rune_3 a b c (t ++ b'\n' ∷ s) h n)
blanks-word s (rune_4 a b c d t h w) = rw (space_width-rune_4 a b c d (t ++ b'\n' ∷ s) h)

number_from-digit :
    (m d : ℕ) (s : Bytes) → d < 10 → number_from m ((b'0' + d) ∷ s) ≡ number_from (m * 10 + d) s
unfolding number_from
number_from-digit m d s h =
    let e : is_digit (b'0' + d) ≡ true = ground arith in
    rw e (ap (λ k. number_from k s) (omega arith))

-- Reading digits takes back the number that was printed, whatever stands behind.
number_from-decimal_from :
    (fuel n : ℕ) (s : Bytes)
    → n < 10 ^ fuel
    → number_from 0 (decimal_from fuel n s) ≡ number_from n s
unfolding decimal_from
number_from-decimal_from zero n s h = ap (λ k. number_from k s) (omega arith)
number_from-decimal_from (suc fuel) n s h = elim (Bool-cases (ltb n 10)) [
  | inl e ↦ rw e (
      number_from-digit 0 (n % 10) s (omega arith)
      ∙ ap (λ k. number_from k s) (omega (arith, ltb→lt n 10 e)))
  | inr e ↦ rw e (
      number_from-decimal_from fuel (n / 10) ((b'0' + n % 10) ∷ s) (omega (arith, pow-suc 10 fuel))
      ∙ number_from-digit (n / 10) (n % 10) s (omega arith)
      ∙ ap (λ k. number_from k s) (omega arith))
]

-- A printed number begins with a digit.
data StartsWithDigit : Bytes → Type 0 where
  digit : (b : ℕ) (s : Bytes) → is_digit b ≡ true → StartsWithDigit (b ∷ s)

decimal_from-digit :
    (fuel n d : ℕ) (s : Bytes) → is_digit d ≡ true → StartsWithDigit (decimal_from fuel n (d ∷ s))
unfolding decimal_from
decimal_from-digit zero n d s h = digit d s h
decimal_from-digit (suc fuel) n d s h =
    let e : is_digit (b'0' + n % 10) ≡ true = ground arith in
    elim (Bool-cases (ltb n 10)) [
      | inl small ↦ rw small (digit (b'0' + n % 10) (d ∷ s) e)
      | inr big ↦ rw big (decimal_from-digit fuel (n / 10) (b'0' + n % 10) (d ∷ s) e)
    ]

decimal_from-append :
    (fuel n : ℕ) (s t : Bytes) → decimal_from fuel n s ++ t ≡ decimal_from fuel n (s ++ t)
unfolding decimal_from
decimal_from-append zero n s t = refl
decimal_from-append (suc fuel) n s t = elim (Bool-cases (ltb n 10)) [
  | inl e ↦ rw e
  | inr e ↦ rw e (decimal_from-append fuel (n / 10) ((b'0' + n % 10) ∷ s) t)
]

number-digit :
    (n : ℕ) (s : Bytes)
    → StartsWithDigit s
    → number_from 0 s ≡ n
    → n < sign_bit
    → number s ≡ of_bytes n
unfolding number
number-digit n [] x e small = elim x [ ]
number-digit n (b ∷ s) (digit _ _ h) e small =
    let minus_no : (b == b'-') ≡ false = ground arith in
    let plus_no : (b == b'+') ≡ false = ground arith in
    let fits : ltb n sign_bit ≡ true = lt→ltb n sign_bit small in rw (minus_no, plus_no, e, fits)

decimal-digit : (fuel n : ℕ) (s : Bytes) → StartsWithDigit (decimal_from (suc fuel) n s)
unfolding decimal_from
decimal-digit fuel n s =
    let e : is_digit (b'0' + n % 10) ≡ true = ground arith in
    elim (Bool-cases (ltb n 10)) [
      | inl small ↦ rw small (digit (b'0' + n % 10) s e)
      | inr big ↦ rw big (decimal_from-digit fuel (n / 10) (b'0' + n % 10) s e)
    ]

blanks-digit : (s : Bytes) → StartsWithDigit s → drop (blanks 0 s) s ≡ s
blanks-digit [] x = elim x [ ]
blanks-digit (b ∷ s) (digit _ _ h) = rw (blanks-solid b s (ground arith))

-- What the size is read from, with any bytes behind the header.
abbrev printed : ℕ → Bytes → Bytes
printed n early = decimal_from 20 n (b'\n' ∷ early)

number-printed : (n : ℕ) (early : Bytes) → n < sign_bit → number (printed n early) ≡ of_bytes n
unfolding number_from
number-printed n early small =
    number-digit n (printed n early) (decimal-digit 19 n (b'\n' ∷ early))
      (number_from-decimal_from 20 n (b'\n' ∷ early) (omega arith)) small

header-append :
    (name : Bytes) (n : ℕ) (early : Bytes)
    → broadcast_header name n ++ early ≡ name ++ b'\n' ∷ printed n early
unfolding broadcast_header decimal
header-append name n early =
    simp append_assoc (ap (λ t. name ++ b'\n' ∷ t) (decimal_from-append 20 n [] (b'\n' ∷ early)))

-- The header is read back, also if bytes of the file have come in with it.
pub parse_header-append :
    (b : ℕ) (t : Bytes) (n : ℕ) (early : Bytes)
    → IsWord (b ∷ t)
    → n < sign_bit
    → parse_header (broadcast_header (b ∷ t) n ++ early)
      ≡ record { filename = b ∷ t; size = of_bytes n }
unfolding parse_header
parse_header-append b t n early h small = rw (
  header-append (b ∷ t) n early,
  blanks-word (printed n early) h,
  token-append (printed n early) h,
  newline_lem (printed n early),
  blanks-digit (printed n early) (decimal-digit 19 n (b'\n' ∷ early)),
  number-printed n early small,
)
