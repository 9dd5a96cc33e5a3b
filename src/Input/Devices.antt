-- ===== src/Input/Devices.antt =====
-- The search for the devices: `FindMouseDevice` of internal/input/evdev.go and `NewKeyboardHandler` of
-- internal/input/keyboard.go.
--
-- The devices are parameters: what reading a file, opening a device and asking it for its name return.
-- So is the lower case of a text.
use crom_spirit_iso.Prelude.{
  ℕ, Bool, false, ◌||◌, Option, none, some, List, [], ◌∷◌, ◌++◌, if◌then◌else◌,
}
use crom_spirit_iso.Prelude.Text.{Bytes, bytes}
use crom_spirit_iso.Input.{KeyboardHandler, new_keyboard_handler}
use crom_spirit_iso.Prelude.Strings.{contains, split}

-- The last element of a path that does not end with a slash.
abbrev last_of : List Bytes → Bytes
last_of [] = []
last_of (s ∷ []) = s
last_of (s ∷ t ∷ ss) = last_of (t ∷ ss)

unfoldable pub symlink : Bytes → Bytes
symlink path = bytes "/sys/class/input/" ++ last_of (split 0x2f path) ++ bytes "/device/name"

pub data MouseDevice : Type 0 where
  glob_error no_devices : MouseDevice
  at_path : Bytes → MouseDevice

abbrev pub fallback : List Bytes → MouseDevice
fallback [] = no_devices
fallback (path ∷ matches) = at_path path

-- `syscall.Open` and `syscall.Close` of a descriptor.
pub data Call : Type 0 where
  opened closed : ℕ → Call

-- What the operations return: a value, or the text of an error.
pub data Result {ℓ} (A : Type ℓ) : Type ℓ where
  error : Bytes → Result A
  ok : A → Result A

pub record EvdevReader : Type 0 where
  pub file : ℕ
  pub path : Bytes

-- On what opening the file returns.
unfoldable pub new_evdev_reader : Bytes → Result ℕ → Result EvdevReader × List Call
new_evdev_reader path (error err) =
    (error (bytes "failed to open " ++ path ++ bytes ": " ++ err), [])
new_evdev_reader path (ok fd) = (ok (record { file = fd; path = path }), opened fd ∷ [])

unfoldable pub close_reader : EvdevReader → List Call
close_reader r = closed r.file ∷ []

abbrev pub handler_on : Option (Bytes × ℕ) → Result (ℕ × KeyboardHandler)
handler_on none = error (bytes "no keyboard found")
handler_on (some (dev, fd)) = ok (fd, new_keyboard_handler)

-- `Stop` of a handler that runs, with the descriptor that it was started on.
unfoldable pub stop_calls : Result (ℕ × KeyboardHandler) → List Call
stop_calls (error err) = []
stop_calls (ok (fd, h)) = closed fd ∷ []

module _ (to_lower : Bytes → Bytes) where
  module _ (read_file : Bytes → Option Bytes) where
    -- The loop's test of a path.
    unfoldable pub is_mouse : Bytes → Bool
    unfolding symlink
    is_mouse path = elim (read_file (symlink path)) [
      | none ↦ false
      | some name ↦ contains (to_lower name) (bytes "mouse")
    ]

    unfoldable pub first_mouse : List Bytes → Option Bytes
    first_mouse [] = none
    first_mouse (path ∷ matches) =
        let later = first_mouse matches in if is_mouse path then some path else later

    -- On the matches of the pattern, or none if there is an error.
    unfoldable pub find_mouse_device : Option (List Bytes) → MouseDevice
    unfolding first_mouse
    find_mouse_device none = glob_error
    find_mouse_device (some matches) = elim (first_mouse matches) [
      | none ↦ fallback matches
      | some path ↦ at_path path
    ]

  -- The name of a device is asked of the descriptor that was opened for it just before.
  module _ (get_name : Bytes → Option Bytes) where
    unfoldable pub is_keyboard : Bytes → Bool
    is_keyboard dev = elim (get_name dev) [
      | none ↦ false
      | some name ↦
          let lower = to_lower name in
          contains lower (bytes "keyboard") || contains lower (bytes "kbd")
    ]

    module _ (open_device : Bytes → Option ℕ) where
      -- The keyboard and its descriptor, if there is one, and the calls in their order.
      unfoldable pub find_keyboard : List Bytes → Option (Bytes × ℕ) × List Call
      find_keyboard [] = (none, [])
      find_keyboard (dev ∷ devices) =
          let (later, calls) = find_keyboard devices in
          elim (open_device dev) [
            | none ↦ (later, calls)
            | some fd ↦
                if is_keyboard dev
                then (some (dev, fd), opened fd ∷ [])
                else (later, opened fd ∷ closed fd ∷ calls)
          ]

      unfoldable pub start_keyboard : List Bytes → Result (ℕ × KeyboardHandler) × List Call
      unfolding find_keyboard
      start_keyboard devices =
          let (found, calls) = find_keyboard devices in (handler_on found, calls)
