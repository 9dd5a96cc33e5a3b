-- ===== src/Input/Held.antt =====
-- What the rounds of internal/input/keyboard.go leave in a handler that did not panic.
use crom_spirit_iso.Prelude.{
  ℕ, ◌≤◌, Bool, true, false, not, ◌&&◌, ◌≡◌, refl, ◌∙◌, ap, none, some, List, [], ◌∷◌, ltb, ◌==◌,
  arith, if◌then◌else◌, length, length-append,
}
use crom_spirit_iso.Prelude.Text.{Bytes}
use crom_spirit_iso.Input.{
  KeyEvent, KeyboardHandler, new_keyboard_handler, key_leftctrl, key_leftshift, key_leftalt,
  key_leftmeta, ev_key, capacity, event_type, event_code, event_value, update_modifiers, send,
  key_event, read_round, rest, Step, read, receive, stop, after,
}
use crom_spirit_iso.Input.Flags.{mask, with_ctrl, with_shift, with_alt, with_super}

abbrev pub stopped_in : List Step → Bool
stopped_in [] = false
stopped_in (stop ∷ earlier) = true
stopped_in (_ ∷ earlier) = stopped_in earlier

-- A whole event of a key.
abbrev pub is_key_event : Bytes → Bool
is_key_event buf = not (ltb (length buf) 24) && (event_type buf == ev_key)

-- The last thing that was read of a key before the handler was stopped: whether it is down.
abbrev pub held : ℕ → List Step → Bool
held k [] = false
held k (read (some buf) ∷ earlier) =
    let before = held k earlier in
    if (not (stopped_in earlier) && is_key_event buf) && (event_code buf == k)
    then not (event_value buf == 0)
    else before
held k (_ ∷ earlier) = held k earlier

-- The flags of the keys that are down.
abbrev pub held_flags : List Step → ℕ
held_flags steps =
    mask (held key_leftctrl steps) (held key_leftshift steps) (held key_leftalt steps)
      (held key_leftmeta steps)

-- The state after some steps, if none of them panics.
unfoldable pub state : List Step → KeyboardHandler
state [] = new_keyboard_handler
state (s ∷ earlier) = after (state earlier) s

pub state-stopped : (steps : List Step) → (state steps).stopped ≡ stopped_in steps
unfolding state new_keyboard_handler read_round key_event
state-stopped [] = refl
state-stopped (read none ∷ earlier) = state-stopped earlier
state-stopped (read (some buf) ∷ earlier) = ground (arith, state-stopped earlier)
state-stopped (receive ∷ earlier) = state-stopped earlier
state-stopped (stop ∷ earlier) = refl

update_modifiers-mask :
    (code : ℕ) (p c s a u : Bool)
    → update_modifiers (mask c s a u) code p
      ≡ mask
          (if code == key_leftctrl then p else c)
          (if code == key_leftshift then p else s)
          (if code == key_leftalt then p else a)
          (if code == key_leftmeta then p else u)
unfolding update_modifiers
update_modifiers-mask code p c s a u =
    ground
      (arith, with_ctrl p c s a u, with_shift p c s a u, with_alt p c s a u, with_super p c s a u)

update_modifiers-if :
    (heard : Bool) (m code : ℕ) (p c s a u : Bool)
    → m ≡ mask c s a u
    → (if heard then update_modifiers m code p else m)
      ≡ mask
          (if heard && (code == key_leftctrl) then p else c)
          (if heard && (code == key_leftshift) then p else s)
          (if heard && (code == key_leftalt) then p else a)
          (if heard && (code == key_leftmeta) then p else u)
update_modifiers-if false m code p c s a u h = h
update_modifiers-if true m code p c s a u h =
    ap (λ n. update_modifiers n code p) h ∙ update_modifiers-mask code p c s a u

abbrev pub heard_event : KeyboardHandler → Bytes → Bool
heard_event h buf = not h.stopped && is_key_event buf

pub read_round-modifiers :
    (h : KeyboardHandler) (buf : Bytes)
    → (read_round h (some buf)).modifiers ≡ (
        if heard_event h buf
        then update_modifiers h.modifiers (event_code buf) (not (event_value buf == 0))
        else h.modifiers)
unfolding read_round key_event
read_round-modifiers h buf = ground arith

length-send :
    (es : List KeyEvent) (e : KeyEvent) → length es ≤ capacity → length (send es e) ≤ capacity
unfolding send
length-send es e h = ground (arith, length-append es (e ∷ []))

-- The event that a read of a key event sends.
abbrev pub sent : KeyboardHandler → Bytes → KeyEvent
sent h buf =
    let pressed = not (event_value buf == 0) in
    record {
      key = event_code buf;
      pressed = pressed;
      modifiers = update_modifiers h.modifiers (event_code buf) pressed;
    }

pub read_round-sent :
    (h : KeyboardHandler) (buf : Bytes)
    → (read_round h (some buf)).events
      ≡ (if heard_event h buf then send h.events (sent h buf) else h.events)
unfolding read_round key_event
read_round-sent h buf = ground arith

read_round-events :
    (h : KeyboardHandler) (buf : Bytes)
    → length h.events ≤ capacity
    → length (read_round h (some buf)).events ≤ capacity
read_round-events h buf bound =
    ground (arith, read_round-sent h buf, length-send h.events (sent h buf))

length-rest : (es : List KeyEvent) → length es ≤ capacity → length (rest es) ≤ capacity
length-rest [] h = h
length-rest (e ∷ es) h = omega (arith, h)

pub modifiers-state : (steps : List Step) → (state steps).modifiers ≡ held_flags steps
unfolding state new_keyboard_handler read_round key_event
modifiers-state [] = refl
modifiers-state (read none ∷ earlier) = modifiers-state earlier
modifiers-state (read (some buf) ∷ earlier) =
    read_round-modifiers (state earlier) buf
    ∙ ap
        (λ b.
          if not b && is_key_event buf
          then update_modifiers (state earlier).modifiers (event_code buf)
              (not (event_value buf == 0))
          else (state earlier).modifiers)
        (state-stopped earlier)
    ∙ update_modifiers-if (not (stopped_in earlier) && is_key_event buf) (state earlier).modifiers
        (event_code buf) (not (event_value buf == 0)) (held key_leftctrl earlier)
        (held key_leftshift earlier) (held key_leftalt earlier) (held key_leftmeta earlier)
        (modifiers-state earlier)
modifiers-state (receive ∷ earlier) = modifiers-state earlier
modifiers-state (stop ∷ earlier) = modifiers-state earlier

-- The channel never holds more events than its capacity.
length-events : (steps : List Step) → length (state steps).events ≤ capacity
unfolding state new_keyboard_handler read_round key_event send
length-events [] = omega arith
length-events (read none ∷ earlier) = length-events earlier
length-events (read (some buf) ∷ earlier) =
    read_round-events (state earlier) buf (length-events earlier)
length-events (receive ∷ earlier) = length-rest (state earlier).events (length-events earlier)
length-events (stop ∷ earlier) = length-events earlier
