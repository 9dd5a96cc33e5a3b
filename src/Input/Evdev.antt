-- ===== src/Input/Evdev.antt =====
-- Events as `ReadEvent` decodes them, against the keyboard's loop: internal/input/evdev.go.
--
-- An open device is a parameter: the bytes that its next reads return.
use crom_spirit_iso.Prelude.{
  ◌>>=◌, ℕ, zero, suc, ◌+◌, ◌*◌, ◌≤◌, ◌≡◌, refl, ap, subst, false, not, Option, none, some, [], ◌∷◌,
  ltb, ◌==◌, if◌then◌else◌, length, get_or, drop, arith, ltb→le, Bool-cases, inl, inr,
}
use crom_spirit_iso.Prelude.Text.{Bytes}
use crom_spirit_iso.Input.{
  little_endian, event_type, event_code, event_value, ev_key, KeyboardHandler, key_event,
  read_round,
}

-- The value's 32 bits; as an int32 it is 0 exactly if they are.
pub record InputEvent : Type 0 where
  pub time_sec : ℕ
  pub time_usec : ℕ
  pub type : ℕ
  pub code : ℕ
  pub value : ℕ

-- An unsigned number of so many bytes, the lowest one first, and the bytes after it.
unfoldable pub read_uint : ℕ → Bytes → Option (ℕ × Bytes)
read_uint zero s = some (0, s)
read_uint (suc n) [] = none
read_uint (suc n) (b ∷ s) = do (v, rest) ← read_uint n s; some (b + 256 * v, rest)

-- The fields in their order.
unfoldable pub decode : Bytes → Option (InputEvent × Bytes)
unfolding read_uint
decode s = do
  (time_sec, s) ← read_uint 8 s
  (time_usec, s) ← read_uint 8 s
  (type, s) ← read_uint 2 s
  (code, s) ← read_uint 2 s
  (value, s) ← read_uint 4 s
  some (
    record { time_sec = time_sec; time_usec = time_usec; type = type; code = code; value = value },
    s,
  )

-- An event and the bytes after it, or an error: `binary.Read` wants all bytes of the event before it
-- decodes it.
unfoldable pub read_event : Bytes → Option (InputEvent × Bytes)
unfolding decode
read_event s = if ltb (length s) 24 then none else decode s

-- What the keyboard's loop does with a decoded event.
abbrev pub on_event : KeyboardHandler → Option (InputEvent × Bytes) → KeyboardHandler
on_event h none = h
on_event h (some (e, rest)) =
    if e.type == ev_key then key_event h e.code (not (e.value == 0)) else h

-- So many bytes from a position on, those past the end being 0.
abbrev pub slice : Bytes → ℕ → ℕ → Bytes
slice s k zero = []
slice s k (suc n) = get_or s k 0 ∷ slice s (suc k) n

slice-cons : (b : ℕ) (s : Bytes) (k n : ℕ) → slice (b ∷ s) (suc k) n ≡ slice s k n
slice-cons b s k zero = refl
slice-cons b s k (suc n) = ap (λ l. get_or s k 0 ∷ l) (slice-cons b s (suc k) n)

read_uint_lem :
    (n : ℕ)
    → (s : Bytes) → n ≤ length s
    → read_uint n s ≡ some (little_endian (slice s 0 n), drop n s)
unfolding read_uint
read_uint_lem zero s h = refl
read_uint_lem (suc n) [] h = absurd (omega arith)
read_uint_lem (suc n) (b ∷ s) h = rw (slice-cons b s 0 n, read_uint_lem n s (omega arith)) refl

read_uint-drop :
    (n k m : ℕ)
    → (s : Bytes) → k + n ≡ m
    → m ≤ length s
    → read_uint n (drop k s) ≡ some (little_endian (slice s k n), drop m s)
read_uint-drop n zero m s e h =
    subst (λ i. read_uint n s ≡ some (little_endian (slice s 0 n), drop i s)) (omega (arith, e))
      (read_uint_lem n s (omega (arith, e, h)))
read_uint-drop n (suc k) zero s e h = absurd (omega arith)
read_uint-drop n (suc k) (suc m) [] e h = absurd (omega arith)
read_uint-drop n (suc k) (suc m) (b ∷ s) e h =
    rw (slice-cons b s k n) (read_uint-drop n k m s (omega arith) (omega arith))

abbrev pub event_at : Bytes → InputEvent
event_at s = record {
  time_sec = little_endian (slice s 0 8);
  time_usec = little_endian (slice s 8 8);
  type = event_type s;
  code = event_code s;
  value = event_value s;
}

decode_lem : (s : Bytes) → 24 ≤ length s → decode s ≡ some (event_at s, drop 24 s)
unfolding decode
decode_lem s h =
    let time_sec = read_uint-drop 8 0 8 s refl (omega arith) in
    let time_usec = read_uint-drop 8 8 16 s refl (omega arith) in
    let type = read_uint-drop 2 16 18 s refl (omega arith) in
    let code = read_uint-drop 2 18 20 s refl (omega arith) in
    let value = read_uint-drop 4 20 24 s refl (omega arith) in
    rw (time_sec, time_usec, type, code, value) refl

-- A round of the keyboard's loop that is not stopped does with the bytes it reads, however many they
-- are, what it would do with the event that `ReadEvent` decodes from them: the loop's places in the
-- buffer and the fields' order are the same format, and bytes too few for an event are ignored by the
-- one and an error of the other.
pub read_round-read_event :
    (h : KeyboardHandler)
    → (s : Bytes) → h.stopped ≡ false
    → read_round h (some s) ≡ on_event h (read_event s)
unfolding read_round read_event
read_round-read_event h s on = elim (Bool-cases (ltb (length s) 24)) [
  | inl short ↦ rw (on, short) refl
  | inr full ↦
      rw (on, full, decode_lem s (ltb→le (length s) 24 full))
        (elim (Bool-cases (event_type s == ev_key)) [
          | inl key ↦ rw key refl
          | inr other ↦ rw other refl
        ])
]
