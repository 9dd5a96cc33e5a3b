-- ===== src/Input/Search.antt =====
-- What the search for a keyboard leaves open, and which devices the searches find:
-- internal/input/keyboard.go and internal/input/evdev.go.
use crom_spirit_iso.Prelude.{
  ℕ, ◌≡◌, refl, sym, subst, ap, ◌∙◌, Bool, true, false, Option, none, some, List, [], ◌∷◌, ◌++◌,
  ◌==◌, if◌then◌else◌, All, Bool-cases, Option-cases, inl, inr, ◌⊎◌, ==_refl,
}
use crom_spirit_iso.Prelude.Text.{Bytes}
use crom_spirit_iso.Input.Devices.{
  at_path, is_mouse, first_mouse, fallback, find_mouse_device, Call, opened, closed, is_keyboard,
  find_keyboard, handler_on, stop_calls, start_keyboard,
}

unfoldable pub remove : ℕ → List ℕ → List ℕ
remove fd [] = []
remove fd (g ∷ fds) = let rest = remove fd fds in if g == fd then fds else g ∷ rest

remove_head : (fd : ℕ) (fds : List ℕ) → remove fd (fd ∷ fds) ≡ fds
unfolding remove
remove_head fd fds = rw (==_refl fd, remove) refl

-- The open descriptors after some calls.
abbrev pub held : List ℕ → List Call → List ℕ
held fds [] = fds
held fds (opened fd ∷ calls) = held (fd ∷ fds) calls
held fds (closed fd ∷ calls) = held (remove fd fds) calls

abbrev pub with_found : Option (Bytes × ℕ) → List ℕ → List ℕ
with_found none fds = fds
with_found (some (dev, fd)) fds = fd ∷ fds

-- What was found is a device of that descriptor that passes the test.
abbrev pub IsFound : (Bytes → Bool) → (Bytes → Option ℕ) → Option (Bytes × ℕ) → Type 0
IsFound test open_device none = Unit
IsFound test open_device (some (dev, fd)) = (test dev ≡ true) × (open_device dev ≡ some fd)

module _ (to_lower : Bytes → Bytes) (get_name : Bytes → Option Bytes)
    (open_device : Bytes → Option ℕ) where
  find_keyboard-held :
      (devices : List Bytes)
      → (fds : List ℕ)
      → let (found, calls) = find_keyboard to_lower get_name open_device devices in
        (held fds calls ≡ with_found found fds)
        × IsFound (is_keyboard to_lower get_name) open_device found
  unfolding find_keyboard
  find_keyboard-held [] fds = (refl, tt)
  find_keyboard-held (dev ∷ devices) fds =
      let again = find_keyboard-held devices fds in
      let (later, calls) = find_keyboard to_lower get_name open_device devices in
      elim (Option-cases (open_device dev)) [
        | inl failed ↦ rw (failed, find_keyboard) again
        | inr (fd, found) ↦ elim (Bool-cases (is_keyboard to_lower get_name dev)) [
          | inl this ↦ rw (found, this, find_keyboard) (refl, (this, found))
          | inr other ↦
              rw (found, other, find_keyboard)
                (
                  subst (λ l. held l calls ≡ with_found later fds) (sym (remove_head fd fds))
                      again.0,
                  again.1,
                )
        ]
      ]

held-append : (fds : List ℕ) (cs ds : List Call) → held fds (cs ++ ds) ≡ held (held fds cs) ds
held-append fds [] ds = refl
held-append fds (opened fd ∷ cs) ds = held-append (fd ∷ fds) cs ds
held-append fds (closed fd ∷ cs) ds = held-append (remove fd fds) cs ds

held-stop_calls :
    (found : Option (Bytes × ℕ)) (fds : List ℕ)
    → held (with_found found fds) (stop_calls (handler_on found)) ≡ fds
unfolding stop_calls
held-stop_calls none fds = refl
held-stop_calls (some (dev, fd)) fds = remove_head fd fds

-- The start of a keyboard's handler leaves no descriptor open but that of the device that it reads,
-- whose name then says that it is a keyboard, and `Stop` closes it; those that were open before stay
-- open.
pub start_keyboard-held :
    (to_lower : Bytes → Bytes) (get_name : Bytes → Option Bytes) (open_device : Bytes → Option ℕ)
    (devices : List Bytes) (fds : List ℕ)
    → let (found, calls) = find_keyboard to_lower get_name open_device devices in
      let (handler, made) = start_keyboard to_lower get_name open_device devices in
      (held fds made ≡ with_found found fds)
      × (handler ≡ handler_on found)
      × IsFound (is_keyboard to_lower get_name) open_device found
      × (held fds (made ++ stop_calls handler) ≡ fds)
unfolding start_keyboard
start_keyboard-held to_lower get_name open_device devices fds =
    let (found, calls) = find_keyboard to_lower get_name open_device devices in
    let (left, named) = find_keyboard-held to_lower get_name open_device devices fds in
    (
      left,
      refl,
      named,
      held-append fds calls (stop_calls (handler_on found))
          ∙ ap (λ l. held l (stop_calls (handler_on found))) left
          ∙ held-stop_calls found fds,
    )

-- A device that the search found because of its name, the first such.
abbrev pub IsFirst : (Bytes → Bool) → List Bytes → Bytes → Type 0
IsFirst test matches path =
    (before after : List Bytes) × (matches ≡ before ++ path ∷ after)
    × (test path ≡ true)
    × All (λ p. test p ≡ false) before

module _ (to_lower : Bytes → Bytes) (read_file : Bytes → Option Bytes) where
  first_mouse-IsFirst :
      (matches : List Bytes)
      → ((path : Bytes) × (first_mouse to_lower read_file matches ≡ some path)
          × IsFirst (is_mouse to_lower read_file) matches path)
        ⊎ ((first_mouse to_lower read_file matches ≡ none)
            × All (λ p. is_mouse to_lower read_file p ≡ false) matches)
  unfolding first_mouse
  first_mouse-IsFirst [] = inr (refl, tt)
  first_mouse-IsFirst (p ∷ matches) = elim (Bool-cases (is_mouse to_lower read_file p)) [
    | inl here ↦ inl (p, rw (here, first_mouse) refl, ([], matches, refl, here, tt))
    | inr other ↦ elim (first_mouse-IsFirst matches) [
      | inl (path, e, (before, after, splits, yes_path, none_before)) ↦ inl (
        path,
        rw (other, first_mouse) e,
        (p ∷ before, after, ap (λ l. p ∷ l) splits, yes_path, (other, none_before)),
      )
      | inr (e, none_at_all) ↦ inr (rw (other, first_mouse) e, (other, none_at_all))
    ]
  ]

  -- The search for a mouse returns the first device whose name says that it is one; without any such
  -- device it returns the first device of all, and an error only if there is none.
  find_mouse_device-IsFirst :
      (matches : List Bytes)
      → ((path : Bytes) × (find_mouse_device to_lower read_file (some matches) ≡ at_path path)
          × IsFirst (is_mouse to_lower read_file) matches path)
        ⊎ ((find_mouse_device to_lower read_file (some matches) ≡ fallback matches)
            × All (λ p. is_mouse to_lower read_file p ≡ false) matches)
  unfolding find_mouse_device
  find_mouse_device-IsFirst matches = elim (first_mouse-IsFirst matches) [
    | inl (path, e, first) ↦ inl (path, rw (e, find_mouse_device) refl, first)
    | inr (e, none_at_all) ↦ inr (rw (e, find_mouse_device) refl, none_at_all)
  ]
