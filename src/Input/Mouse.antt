-- ===== src/Input/Mouse.antt =====
-- The mouse state: internal/input/mouse.go.
--
-- Floating-point numbers are a parameter, with their sum, order and half. A number that is not
-- below another one need not be above or equal: it may be no number.
use crom_spirit_iso.Prelude.{ℕ, Bool, false, ◌≡◌, refl, List, [], ◌∷◌, ◌==◌, if◌then◌else◌, arith}

-- float64: 0, the sum, the half and `<`.
pub record Float (F : Type 0) : Type 0 where
  pub origin : F
  pub plus : F → F → F
  pub half : F → F
  pub below : F → F → Bool

pub record MouseState (F : Type 0) : Type 0 where
  pub x : F
  pub y : F
  pub delta_x : F
  pub delta_y : F
  pub left_button : Bool
  pub right_button : Bool
  pub middle_button : Bool
  pub screen_width : F
  pub screen_height : F

abbrev pub btn_left : ℕ
btn_left = 0x110

abbrev pub btn_right : ℕ
btn_right = 0x111

abbrev pub btn_middle : ℕ
btn_middle = 0x112

module _ {F : Type 0} (float : Float F) where
  unfoldable pub new_mouse_state : F → F → MouseState F
  new_mouse_state width height = record {
    x = float.half width;
    y = float.half height;
    delta_x = float.origin;
    delta_y = float.origin;
    left_button = false;
    right_button = false;
    middle_button = false;
    screen_width = width;
    screen_height = height;
  }

  -- The two tests of a coordinate, the second one on what the first one left.
  unfoldable pub clamp : F → F → F
  clamp size p =
      let q = if float.below p float.origin then float.origin else p in
      if float.below size q then size else q

  unfoldable pub update_position : MouseState F → F → F → MouseState F
  update_position m dx dy = record m {
    delta_x = dx;
    delta_y = dy;
    x = clamp m.screen_width (float.plus m.x dx);
    y = clamp m.screen_height (float.plus m.y dy);
  }

  unfoldable pub set_button : MouseState F → ℕ → Bool → MouseState F
  set_button m button pressed =
      if button == btn_left
      then record m { left_button = pressed }
      else if button == btn_right
      then record m { right_button = pressed }
      else if button == btn_middle
      then record m { middle_button = pressed }
      else m

  abbrev pub get_position : MouseState F → F × F
  get_position m = (m.x, m.y)

  abbrev pub is_left_pressed : MouseState F → Bool
  is_left_pressed m = m.left_button

  pub data Movement : Type 0 where
    moved : F → F → Movement
    button : ℕ → Bool → Movement

  -- The movements are listed with the last one first.
  unfoldable pub track : F → F → List Movement → MouseState F
  track width height [] = new_mouse_state width height
  track width height (moved dx dy ∷ earlier) = update_position (track width height earlier) dx dy
  track width height (button b pressed ∷ earlier) =
      set_button (track width height earlier) b pressed

  -- Neither below 0 nor above the size.
  abbrev pub IsWithin : F → F → Type 0
  IsWithin size p = (float.below p float.origin ≡ false) × (float.below size p ≡ false)

  -- The last thing that was said of a button, and false at the start.
  abbrev pub last_said : ℕ → List Movement → Bool
  last_said b [] = false
  last_said b (moved dx dy ∷ earlier) = last_said b earlier
  last_said b (button c pressed ∷ earlier) =
      let before = last_said b earlier in if c == b then pressed else before

  module _ (irreflexive : (p : F) → float.below p p ≡ false) where
    clamp-IsWithin :
        (size p : F) → float.below size float.origin ≡ false → IsWithin size (clamp size p)
    unfolding clamp
    clamp-IsWithin size p h = ground (arith, h, irreflexive size, irreflexive float.origin)

    module _ (width height : F) (half_width : IsWithin width (float.half width))
        (half_height : IsWithin height (float.half height))
        (width_nonneg : float.below width float.origin ≡ false)
        (height_nonneg : float.below height float.origin ≡ false) where
      track-size :
          (ms : List Movement)
          → ((track width height ms).screen_width ≡ width)
            × ((track width height ms).screen_height ≡ height)
      unfolding track new_mouse_state update_position set_button
      track-size [] = (refl, refl)
      track-size (moved dx dy ∷ earlier) = track-size earlier
      track-size (button b pressed ∷ earlier) = ground (arith, track-size earlier)

      -- Whatever was moved and pressed, the mouse is neither left of the screen nor right of it,
      -- above it nor below it, and the left button is as it was last said to be: if no number is
      -- below itself, and if the size of the screen is not below 0 nor below its half, nor the half
      -- below 0.
      pub track-IsWithin :
          (ms : List Movement)
          → IsWithin width (track width height ms).x
            × IsWithin height (track width height ms).y
            × ((track width height ms).left_button ≡ last_said btn_left ms)
      unfolding track new_mouse_state update_position set_button
      track-IsWithin [] = (half_width, half_height, refl)
      track-IsWithin (moved dx dy ∷ earlier) =
          let m = track width height earlier in
          let (size_x, size_y) = track-size earlier in
          let (in_x, in_y, left) = track-IsWithin earlier in
          (
            rw size_x (clamp-IsWithin width (float.plus m.x dx) width_nonneg),
            rw size_y (clamp-IsWithin height (float.plus m.y dy) height_nonneg),
            left,
          )
      track-IsWithin (button b pressed ∷ earlier) = ground (arith, track-IsWithin earlier)
