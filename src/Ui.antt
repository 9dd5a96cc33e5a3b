-- ===== src/Ui.antt =====
-- The graphical interface: internal/ui/orb.go here, menu.go and hud.go in the child modules.
--
-- Floating-point numbers are a parameter, with the operations that the code uses, and so is the
-- distance of two points. A number that is not below another one need not be above or equal: it may
-- be no number.
pub mod Menu
pub mod Clicks
pub mod Hud
pub mod Drawing
use crom_spirit_iso.Prelude.{ℕ, Bool, true, false, not, ◌&&◌, List, [], ◌∷◌, if◌then◌else◌}

-- float32, and `math.Min` and `math.Max` through float64; `decimal n k` is the literal n / 10 ^ k.
pub record Float (F : Type 0) : Type 0 where
  pub decimal : ℕ → ℕ → F
  pub plus : F → F → F
  pub minus : F → F → F
  pub below : F → F → Bool
  pub at_most : F → F → Bool
  pub smaller : F → F → F
  pub larger : F → F → F

pub record Vector (F : Type 0) : Type 0 where
  pub x : F
  pub y : F

pub record Orb (F : Type 0) : Type 0 where
  pub position : Vector F
  pub radius : F
  pub hover : Bool
  pub pressed : Bool
  pub pulse_phase : F
  pub glow_intensity : F

module _ {F : Type 0} (float : Float F) (distance : Vector F → Vector F → F) where
  unfoldable pub new_orb : F → F → F → Orb F
  new_orb x y radius = record {
    position = record { x = x; y = y };
    radius = radius;
    hover = false;
    pressed = false;
    pulse_phase = float.decimal 0 0;
    glow_intensity = float.decimal 3 1;
  }

  abbrev pub is_over : Orb F → Vector F → Bool
  is_over o mouse = float.at_most (distance mouse o.position) o.radius

  -- The orb's next state, and whether it was clicked.
  unfoldable pub update : Orb F → Vector F → Bool → Orb F × Bool
  update o mouse click =
      let hover = is_over o mouse in
      let pressed = hover && click in
      (
        record o {
          hover = hover;
          pressed = pressed;
          pulse_phase = float.plus o.pulse_phase (float.decimal 5 2);
          glow_intensity =
              if hover
              then float.smaller (float.plus o.glow_intensity (float.decimal 1 1))
                  (float.decimal 10 1)
              else float.larger (float.minus o.glow_intensity (float.decimal 5 2))
                  (float.decimal 3 1);
        },
        o.pressed && not pressed && hover,
      )

  -- The orb after some updates, the last one first.
  unfoldable pub orb_after : Orb F → List (Vector F × Bool) → Orb F
  orb_after o [] = o
  orb_after o ((mouse, click) ∷ earlier) = (update (orb_after o earlier) mouse click).0
