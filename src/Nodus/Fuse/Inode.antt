-- ===== src/Nodus/Fuse/Inode.antt =====
-- `hashString` of internal/nodus/fuse.go: an inode number from a name. SHA-256 is a parameter.
use crom_spirit_iso.Prelude.{
  ℕ, zero, suc, ◌+◌, ◌-◌, ◌*◌, ◌/◌, ◌%◌, ◌<◌, ◌≡◌, refl, ◌∙◌, ap, [], ◌∷◌, arith, ltb,
  if◌then◌else◌, take, All,
}
use crom_spirit_iso.Prelude.Text.{Bytes}

abbrev hex_digit : ℕ → ℕ
hex_digit d = if ltb d 10 then b'0' + d else b'a' + (d - 10)

-- `hex.EncodeToString`
unfoldable pub hex_encode : Bytes → Bytes
hex_encode [] = []
hex_encode (b ∷ s) = hex_digit (b / 16) ∷ hex_digit (b % 16) ∷ hex_encode s

abbrev hex_value : ℕ → ℕ
hex_value c = if ltb c b'a' then c - b'0' else c - b'a' + 10

-- `fmt.Sscanf(hex, "%x", &result)` on text that is all lower-case hexadecimal digits, 16 at most.
unfoldable pub scan_hex : ℕ → Bytes → ℕ
scan_hex n [] = n
scan_hex n (c ∷ s) = scan_hex (n * 16 + hex_value c) s

unfoldable pub hash_string : (Bytes → Bytes) → Bytes → ℕ
hash_string sha256 s = scan_hex 0 (hex_encode (take 8 (sha256 s)))

-- A number from its bytes, the most significant first.
abbrev pub big_endian : ℕ → Bytes → ℕ
big_endian n [] = n
big_endian n (b ∷ s) = big_endian (n * 256 + b) s

hex_value-digit : (d : ℕ) → d < 16 → hex_value (hex_digit d) ≡ d
hex_value-digit d h = ground arith

scan_hex-encode :
    (n : ℕ) (s : Bytes) → All (λ b. b < 256) s → scan_hex n (hex_encode s) ≡ big_endian n s
unfolding scan_hex hex_encode
scan_hex-encode n [] h = refl
scan_hex-encode n (b ∷ s) h =
    scan_hex-encode
      ((n * 16 + hex_value (hex_digit (b / 16))) * 16 + hex_value (hex_digit (b % 16))) s h.1
    ∙ ap (λ k. big_endian k s)
        (omega
          (arith, hex_value-digit (b / 16) (omega arith), hex_value-digit (b % 16) (omega arith)))

All-take : (n : ℕ) (s : Bytes) → All (λ b. b < 256) s → All (λ b. b < 256) (take n s)
All-take zero s h = tt
All-take (suc n) [] h = tt
All-take (suc n) (b ∷ s) h = (h.0, All-take n s h.1)

-- The inode number is the first eight bytes of the hash as a number, the most significant first.
hash_string_lem :
    (sha256 : Bytes → Bytes) (s : Bytes)
    → All (λ b. b < 256) (sha256 s)
    → hash_string sha256 s ≡ big_endian 0 (take 8 (sha256 s))
unfolding hash_string
hash_string_lem sha256 s h = scan_hex-encode 0 (take 8 (sha256 s)) (All-take 8 (sha256 s) h)
