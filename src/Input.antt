-- ===== src/Input.antt =====
-- The keyboard handler: internal/input/keyboard.go.
--
-- The state is the handler's own; a round of `readLoop`, a receive from the channel of events and
-- `Stop` are its steps. The device is a parameter: what a `read` returned.
pub mod Evdev
pub mod Devices
pub mod Search
pub mod Flags
pub mod Held
pub mod Hotkeys
pub mod Mouse
use crom_spirit_iso.Prelude.{
  ℕ, ◌+◌, ◌-◌, ◌*◌, bit_and, bit_or, Bool, true, false, not, ◌&&◌, Option, none, some, List, [],
  ◌∷◌, ◌++◌, ltb, ◌==◌, if◌then◌else◌, length, get_or,
}
use crom_spirit_iso.Prelude.Text.{Bytes}

abbrev pub key_leftctrl : ℕ
key_leftctrl = 29

abbrev pub key_leftshift : ℕ
key_leftshift = 42

abbrev pub key_leftalt : ℕ
key_leftalt = 56

abbrev pub key_leftmeta : ℕ
key_leftmeta = 125

abbrev pub ev_key : ℕ
ev_key = 1

abbrev pub mod_ctrl : ℕ
mod_ctrl = 1

abbrev pub mod_shift : ℕ
mod_shift = 2

abbrev pub mod_alt : ℕ
mod_alt = 4

abbrev pub mod_super : ℕ
mod_super = 8

pub record KeyEvent : Type 0 where
  pub key : ℕ
  pub pressed : Bool
  pub modifiers : ℕ

-- `events` is what the channel holds, the oldest first; `stopped` tells that `stopChan` is closed.
pub record KeyboardHandler : Type 0 where
  pub modifiers : ℕ
  pub events : List KeyEvent
  pub stopped : Bool

unfoldable pub new_keyboard_handler : KeyboardHandler
new_keyboard_handler = record { modifiers = 0; events = []; stopped = false }

-- The capacity of the channel.
abbrev pub capacity : ℕ
capacity = 10

abbrev pub little_endian : List ℕ → ℕ
little_endian [] = 0
little_endian (b ∷ s) = b + 256 * little_endian s

abbrev byte : Bytes → ℕ → ℕ
byte buf i = get_or buf i 0

abbrev pub event_type : Bytes → ℕ
event_type buf = little_endian (byte buf 16 ∷ byte buf 17 ∷ [])

abbrev pub event_code : Bytes → ℕ
event_code buf = little_endian (byte buf 18 ∷ byte buf 19 ∷ [])

-- An int32 is 0 exactly if its bits as a uint32 are.
abbrev pub event_value : Bytes → ℕ
event_value buf = little_endian (byte buf 20 ∷ byte buf 21 ∷ byte buf 22 ∷ byte buf 23 ∷ [])

-- `m |= flag` and `m &^= flag`
abbrev pub with_flag : ℕ → ℕ → Bool → ℕ
with_flag m flag pressed = if pressed then bit_or m flag else m - bit_and m flag

unfoldable pub update_modifiers : ℕ → ℕ → Bool → ℕ
update_modifiers m code pressed =
    if code == key_leftctrl
    then with_flag m mod_ctrl pressed
    else if code == key_leftshift
    then with_flag m mod_shift pressed
    else if code == key_leftalt
    then with_flag m mod_alt pressed
    else if code == key_leftmeta
    then with_flag m mod_super pressed
    else m

-- The send that drops the event if the channel is full.
unfoldable pub send : List KeyEvent → KeyEvent → List KeyEvent
send events e = if ltb (length events) capacity then events ++ e ∷ [] else events

unfoldable pub key_event : KeyboardHandler → ℕ → Bool → KeyboardHandler
key_event h code pressed =
    let m = update_modifiers h.modifiers code pressed in
    record h {
      modifiers = m;
      events = send h.events (record { key = code; pressed = pressed; modifiers = m });
    }

-- A round of `readLoop`, on the bytes read; `none` is an error.
unfoldable pub read_round : KeyboardHandler → Option Bytes → KeyboardHandler
read_round h none = h
read_round h (some buf) =
    if h.stopped
    then h
    else if ltb (length buf) 24
    then h
    else if not (event_type buf == ev_key)
    then h
    else key_event h (event_code buf) (not (event_value buf == 0))

abbrev rest : List KeyEvent → List KeyEvent
rest [] = []
rest (e ∷ es) = es

pub data Step : Type 0 where
  read : Option Bytes → Step
  receive stop : Step

-- The state after a step that does not panic.
abbrev pub after : KeyboardHandler → Step → KeyboardHandler
after h (read r) = read_round h r
after h receive = record h { events = rest h.events }
after h stop = record h { stopped = true }

-- A second `Stop` closes a closed channel: `none` is that panic.
unfoldable pub step : KeyboardHandler → Step → Option KeyboardHandler
step h (read r) = some (after h (read r))
step h receive = some (after h receive)
step h stop = if h.stopped then none else some (after h stop)

abbrev pub stepped : Option KeyboardHandler → Step → Option KeyboardHandler
stepped none s = none
stepped (some h) s = step h s

-- The steps are listed with the last one first.
unfoldable pub run : List Step → Option KeyboardHandler
run [] = some new_keyboard_handler
run (s ∷ earlier) = stepped (run earlier) s

unfoldable pub check_hotkey : KeyEvent → ℕ → ℕ → Bool
check_hotkey ev key mods = (ev.key == key) && ev.pressed && (bit_and ev.modifiers mods == mods)
