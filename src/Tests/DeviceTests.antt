-- ===== src/Tests/DeviceTests.antt =====
-- The devices of internal/input: a directory with two of them.
use crom_spirit_iso.Prelude.{ℕ, ◌≡◌, refl, Option, List, [], ◌∷◌, ◌++◌, none, some, replicate, ite}
use crom_spirit_iso.Prelude.Text.{Bytes, bytes, Bytes_discrete}
use crom_spirit_iso.Prelude.Strings.{split_from, contains}
use crom_spirit_iso.Input.{new_keyboard_handler, read_round}
use crom_spirit_iso.Input.Evdev
use crom_spirit_iso.Input.Evdev.{read_event, on_event}
use crom_spirit_iso.Input.Devices.{
  symlink, at_path, is_mouse, find_mouse_device, first_mouse, is_keyboard, find_keyboard,
  start_keyboard, opened, closed, handler_on, stop_calls,
}
use crom_spirit_iso.Input.Search
use crom_spirit_iso.Input.Search.{held, with_found, IsFound, IsFirst}

program : Unit {0}
unfolding Bytes_discrete split_from contains new_keyboard_handler symlink is_mouse first_mouse
    find_mouse_device is_keyboard find_keyboard
program = tt

-- Ctrl pressed.
abbrev ctrl : Bytes
ctrl = replicate 16 0 ++ 1 ∷ 0 ∷ 29 ∷ 0 ∷ 1 ∷ 0 ∷ 0 ∷ 0 ∷ []

read_round-read_event_example :
    read_round new_keyboard_handler (some ctrl) ≡ on_event new_keyboard_handler (read_event ctrl)
unfolding program
read_round-read_event_example = Evdev.read_round-read_event new_keyboard_handler ctrl refl

abbrev devices : List Bytes
devices = bytes "/dev/input/event0" ∷ bytes "/dev/input/event1" ∷ []

abbrev same : Bytes → Bytes
same s = s

-- The first device is a mouse; the second one is the keyboard, and gets the descriptor that the first
-- one had before it was closed.
abbrev name_of : Bytes → Option Bytes
name_of dev =
    ite (Bytes_discrete dev (bytes "/dev/input/event1")) (some (bytes "at keyboard"))
      (some (bytes "usb mouse"))

abbrev open_device : Bytes → Option ℕ
open_device dev = some 3

search_calls :
    find_keyboard same name_of open_device devices
    ≡ (some (bytes "/dev/input/event1", 3), opened 3 ∷ closed 3 ∷ opened 3 ∷ [])
unfolding program
search_calls = refl

start_keyboard-held_example :
    let (found, calls) = find_keyboard same name_of open_device devices in
    let (handler, made) = start_keyboard same name_of open_device devices in
    (held (0 ∷ 1 ∷ 2 ∷ []) made ≡ with_found found (0 ∷ 1 ∷ 2 ∷ []))
    × (handler ≡ handler_on found)
    × IsFound (is_keyboard same name_of) open_device found
    × (held (0 ∷ 1 ∷ 2 ∷ []) (made ++ stop_calls handler) ≡ 0 ∷ 1 ∷ 2 ∷ [])
start_keyboard-held_example =
    Search.start_keyboard-held same name_of open_device devices (0 ∷ 1 ∷ 2 ∷ [])

abbrev read_file : Bytes → Option Bytes
read_file path =
    ite (Bytes_discrete path (bytes "/sys/class/input/event1/device/name"))
      (some (bytes "usb mouse")) none

second_is_mouse :
    find_mouse_device same read_file (some devices) ≡ at_path (bytes "/dev/input/event1")
unfolding program
second_is_mouse = refl
