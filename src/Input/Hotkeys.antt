-- ===== src/Input/Hotkeys.antt =====
-- What a client of internal/input/keyboard.go learns of the keys that are down, and when it panics.
use crom_spirit_iso.Prelude.{
  subst, zero, suc, ℕ, ◌+◌, ◌<◌, Option, Bool, true, false, not, ◌≡◌, refl, ◌∙◌, ap, sym, none,
  some, List, [], ◌∷◌, ◌++◌, ltb, ◌==◌, arith, if◌then◌else◌, length,
}
use crom_spirit_iso.Prelude.Text.{Bytes}
use crom_spirit_iso.Input.{
  KeyEvent, KeyboardHandler, key_leftctrl, key_leftshift, key_leftalt, key_leftmeta, mod_ctrl,
  mod_shift, mod_alt, mod_super, capacity, event_code, event_value, send, read_round, Step, read,
  receive, stop, after, step, stepped, run, check_hotkey,
}
use crom_spirit_iso.Input.Flags.{mask, has_ctrl, has_shift, has_alt, has_super}
use crom_spirit_iso.Input.Held.{
  state, stopped_in, state-stopped, is_key_event, held, held_flags, modifiers-state, heard_event,
  read_round-modifiers, sent, read_round-sent,
}

hotkey_flags :
    (k : ℕ) (c s a u : Bool)
    → let e : KeyEvent = record { key = k; pressed = true; modifiers = mask c s a u } in
      (check_hotkey e k mod_ctrl ≡ c)
      × (check_hotkey e k mod_shift ≡ s)
      × (check_hotkey e k mod_alt ≡ a)
      × (check_hotkey e k mod_super ≡ u)
unfolding check_hotkey
hotkey_flags k c s a u =
    let same : (k == k) ≡ true = ground arith in
    rw same (has_ctrl c s a u, has_shift c s a u, has_alt c s a u, has_super c s a u)

send-room : (es : List KeyEvent) (e : KeyEvent) → length es < capacity → send es e ≡ es ++ e ∷ []
unfolding send
send-room es e h = ground arith

unfoldable pub count_stops : List Step → ℕ
count_stops [] = 0
count_stops (read r ∷ earlier) = count_stops earlier
count_stops (receive ∷ earlier) = count_stops earlier
count_stops (stop ∷ earlier) = count_stops earlier + 1

stopped_in-count : (steps : List Step) → stopped_in steps ≡ ltb 0 (count_stops steps)
unfolding count_stops
stopped_in-count [] = ground arith
stopped_in-count (read r ∷ earlier) = stopped_in-count earlier
stopped_in-count (receive ∷ earlier) = stopped_in-count earlier
stopped_in-count (stop ∷ earlier) = ground arith

abbrev some_if : Bool → KeyboardHandler → Option KeyboardHandler
some_if b h = if b then some h else none

stepped-if :
    (b : Bool) (h : KeyboardHandler) (s : Step)
    → step h s ≡ some (after h s)
    → stepped (some_if b h) s ≡ some_if b (after h s)
stepped-if true h s e = e
stepped-if false h s e = refl

stepped-stop :
    (h : KeyboardHandler) (n : ℕ)
    → h.stopped ≡ ltb 0 n
    → stepped (some_if (ltb n 2) h) stop ≡ some_if (ltb (n + 1) 2) (after h stop)
unfolding step
stepped-stop h zero e = rw e refl
stepped-stop h (suc zero) e = rw e refl
stepped-stop h (suc (suc n)) e =
    let more : ltb (suc (suc n)) 2 ≡ false = ground arith in
    let still : ltb (suc (suc n) + 1) 2 ≡ false = ground arith in rw (more, still) refl

-- The process panics exactly with the second `Stop`.
run-state : (steps : List Step) → run steps ≡ some_if (ltb (count_stops steps) 2) (state steps)
unfolding run state count_stops step
run-state [] = ground arith
run-state (read r ∷ earlier) =
    ap (λ o. stepped o (read r)) (run-state earlier)
    ∙ stepped-if (ltb (count_stops earlier) 2) (state earlier) (read r) refl
run-state (receive ∷ earlier) =
    ap (λ o. stepped o receive) (run-state earlier)
    ∙ stepped-if (ltb (count_stops earlier) 2) (state earlier) receive refl
run-state (stop ∷ earlier) =
    ap (λ o. stepped o stop) (run-state earlier)
    ∙ stepped-stop (state earlier) (count_stops earlier)
        (state-stopped earlier ∙ stopped_in-count earlier)

abbrev pub modifiers_of : Option KeyboardHandler → Option ℕ
modifiers_of none = none
modifiers_of (some h) = some h.modifiers

modifiers_of-if :
    (b : Bool) (h : KeyboardHandler)
    → modifiers_of (some_if b h) ≡ (if b then some h.modifiers else none)
modifiers_of-if true h = refl
modifiers_of-if false h = refl

-- After any steps with one `Stop` at most, the modifiers of the handler are the flags of the keys that
-- are down: those whose last event before `Stop` was not a release. A second `Stop` panics.
pub modifiers-run :
    (steps : List Step)
    → modifiers_of (run steps)
      ≡ (if ltb (count_stops steps) 2 then some (held_flags steps) else none)
modifiers-run steps =
    ap modifiers_of (run-state steps)
    ∙ modifiers_of-if (ltb (count_stops steps) 2) (state steps)
    ∙ ap (λ m. if ltb (count_stops steps) 2 then some m else none) (modifiers-state steps)

is_state : (b : Bool) (h h' : KeyboardHandler) → some_if b h ≡ some h' → h ≡ h'
is_state true h h' e = cc
is_state false h h' e = absurd (cc)

check_hotkey-state :
    (earlier : List Step) (buf : Bytes)
    → (state earlier).stopped ≡ false
    → is_key_event buf ≡ true
    → (event_value buf == 0) ≡ false
    → length (state earlier).events < capacity
    → let steps = read (some buf) ∷ earlier in
      let e : KeyEvent = record {
        key = event_code buf;
        pressed = true;
        modifiers = held_flags steps;
      } in
      (state steps).events ≡ (state earlier).events ++ e ∷ []
unfolding state
check_hotkey-state earlier buf live whole press room =
    let steps = read (some buf) ∷ earlier in
    let h = state earlier in
    let heard : heard_event h buf ≡ true = ground (arith, live, whole) in
    let flags : (sent h buf).modifiers ≡ held_flags steps =
      ap (λ b. if b then (sent h buf).modifiers else h.modifiers) (sym heard)
      ∙ sym (read_round-modifiers h buf)
      ∙ modifiers-state steps in
    read_round-sent h buf
    ∙ ap (λ b. if b then send h.events (sent h buf) else h.events) heard
    ∙ send-room h.events (sent h buf) room
    ∙ ap
        (λ p.
          h.events
          ++ record { key = event_code buf; pressed = not p; modifiers = (sent h buf).modifiers }
            ∷ [])
        press
    ∙ ap (λ m. h.events ++ record { key = event_code buf; pressed = true; modifiers = m } ∷ [])
        flags

-- A press of a key that is read while the handler runs and the channel has room is sent, and is
-- the hotkey of that key and a modifier exactly if that modifier key is down.
pub check_hotkey-run :
    (earlier : List Step) (h : KeyboardHandler) (buf : Bytes)
    → run earlier ≡ some h
    → h.stopped ≡ false
    → is_key_event buf ≡ true
    → (event_value buf == 0) ≡ false
    → length h.events < capacity
    → let steps = read (some buf) ∷ earlier in
      let e : KeyEvent = record {
        key = event_code buf;
        pressed = true;
        modifiers = held_flags steps;
      } in
      ((h' : KeyboardHandler) × (run steps ≡ some h') × (h'.events ≡ h.events ++ e ∷ []))
      × ((check_hotkey e (event_code buf) mod_ctrl ≡ held key_leftctrl steps)
          × (check_hotkey e (event_code buf) mod_shift ≡ held key_leftshift steps)
          × (check_hotkey e (event_code buf) mod_alt ≡ held key_leftalt steps)
          × (check_hotkey e (event_code buf) mod_super ≡ held key_leftmeta steps))
unfolding run step state
check_hotkey-run earlier h buf runs live whole press room =
    let steps = read (some buf) ∷ earlier in
    let same : state earlier ≡ h =
      is_state (ltb (count_stops earlier) 2) (state earlier) h (sym (run-state earlier) ∙ runs) in
    (
      (
        read_round h (some buf),
        ap (λ o. stepped o (read (some buf))) runs,
        subst
            (λ g.
              g.stopped ≡ false
              → length g.events < capacity
              → (read_round g (some buf)).events
                ≡ g.events
                  ++ record { key = event_code buf; pressed = true; modifiers = held_flags steps }
                    ∷ [])
            same (λ l r. check_hotkey-state earlier buf l whole press r) live room,
      ),
      hotkey_flags (event_code buf) (held key_leftctrl steps) (held key_leftshift steps)
          (held key_leftalt steps) (held key_leftmeta steps),
    )
