-- ===== src/Tests/MouseTests.antt =====
-- The mouse of internal/input/mouse.go, on whole numbers from -1000 on in place of floats.
use crom_spirit_iso.Prelude.{ℕ, ◌+◌, ◌-◌, ◌/◌, ◌≡◌, refl, true, false, List, [], ◌∷◌, ltb, arith}
use crom_spirit_iso.Input.Mouse
use crom_spirit_iso.Input.Mouse.{
  Float, btn_left, new_mouse_state, clamp, update_position, set_button, get_position,
  is_left_pressed, Movement, moved, button, track, IsWithin, last_said,
}

program : Unit {0}
unfolding new_mouse_state clamp update_position set_button track
program = tt

-- `n` stands for n - 1000.
abbrev whole : Float ℕ
whole = record {
  origin = 1000;
  plus = λ a b. a + b - 1000;
  half = λ a. (a + 1000) / 2;
  below = ltb;
}

irreflexive : (p : ℕ) → ltb p p ≡ false
irreflexive p = ground arith

-- On a screen of 80 by 60 the mouse moves by (-50, 20), and the left button is pressed.
abbrev movements : List (Movement whole)
movements = button btn_left true ∷ moved 950 1020 ∷ []

position : get_position whole (track whole 1080 1060 movements) ≡ (1000, 1050)
unfolding program
position = refl

track-IsWithin_example :
    IsWithin whole 1080 (track whole 1080 1060 movements).x
    × IsWithin whole 1060 (track whole 1080 1060 movements).y
    × ((track whole 1080 1060 movements).left_button ≡ last_said whole btn_left movements)
track-IsWithin_example =
    Mouse.track-IsWithin whole irreflexive 1080 1060 (refl, refl) (refl, refl) refl refl movements
