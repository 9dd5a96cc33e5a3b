-- ===== src/Tests/InputTests.antt =====
-- The keyboard of internal/input/keyboard.go on a few events.
use crom_spirit_iso.Prelude.{
  ℕ, ◌<◌, ◌≡◌, refl, true, false, ltb, if◌then◌else◌, List, [], ◌∷◌, ◌++◌, none, some, arith,
  length, replicate,
}
use crom_spirit_iso.Prelude.Text.{Bytes}
use crom_spirit_iso.Input.{
  KeyEvent, KeyboardHandler, stop, Step, read, receive, new_keyboard_handler, update_modifiers,
  send, key_event, read_round, step, run, check_hotkey, capacity, event_code, mod_ctrl, mod_shift,
  mod_alt, mod_super, key_leftctrl, key_leftshift, key_leftalt, key_leftmeta,
}
use crom_spirit_iso.Input.Hotkeys
use crom_spirit_iso.Input.Hotkeys.{count_stops, modifiers_of}
use crom_spirit_iso.Input.Held.{held, held_flags}

program : Unit {0}
unfolding new_keyboard_handler update_modifiers send key_event read_round step run count_stops
    check_hotkey
program = tt

abbrev raw : ℕ → ℕ → Bytes
raw code value = replicate 16 0 ++ 1 ∷ 0 ∷ code ∷ 0 ∷ value ∷ 0 ∷ 0 ∷ 0 ∷ []

-- Super is pressed, Ctrl is pressed and released, and the first event is received.
abbrev steps : List Step
steps =
    receive
    ∷ read (some (raw 29 0))
    ∷ read none
    ∷ read (some (raw 29 1))
    ∷ read (some (raw 125 1))
    ∷ []

modifiers_held : modifiers_of (run steps) ≡ some 8
unfolding program
modifiers_held = refl

-- The handler is stopped once, and then again.
modifiers-run_example :
    modifiers_of (run (stop ∷ steps))
    ≡ (if ltb (count_stops (stop ∷ steps)) 2 then some (held_flags (stop ∷ steps)) else none)
modifiers-run_example = Hotkeys.modifiers-run (stop ∷ steps)

stopped_twice : run (stop ∷ stop ∷ steps) ≡ none
unfolding program
stopped_twice = refl

-- F1 is pressed.
abbrev f1 : Bytes
f1 = raw 59 1

handler :
    (h : KeyboardHandler) × (run steps ≡ some h)
    × (h.stopped ≡ false)
    × (length h.events < capacity)
unfolding program
handler = (_, refl, refl, omega arith)

check_hotkey-run_example :
    let all = read (some f1) ∷ steps in
    let e : KeyEvent = record { key = event_code f1; pressed = true; modifiers = held_flags all } in
    ((h' : KeyboardHandler) × (run all ≡ some h') × (h'.events ≡ handler.0.events ++ e ∷ []))
    × ((check_hotkey e (event_code f1) mod_ctrl ≡ held key_leftctrl all)
        × (check_hotkey e (event_code f1) mod_shift ≡ held key_leftshift all)
        × (check_hotkey e (event_code f1) mod_alt ≡ held key_leftalt all)
        × (check_hotkey e (event_code f1) mod_super ≡ held key_leftmeta all))
check_hotkey-run_example =
    Hotkeys.check_hotkey-run steps handler.0 f1 handler.1 handler.2 refl refl handler.3
