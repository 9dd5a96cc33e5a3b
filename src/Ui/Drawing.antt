-- ===== src/Ui/Drawing.antt =====
-- What internal/ui/orb.go, menu.go and hud.go draw, as the list of their calls of raylib.
--
-- The width of a text, the time of day, the sine and the conversions of floating-point numbers are
-- parameters. An int32 is its 32 bits.
use crom_spirit_iso.Prelude.{
  ℕ, ◌+◌, ◌-◌, ◌/◌, ◌%◌, ◌^◌, Bool, Option, none, some, List, [], ◌∷◌, ◌++◌, ltb, ◌==◌,
  if◌then◌else◌, length, ite,
}
use crom_spirit_iso.Prelude.Text.{Bytes, bytes, Bytes_discrete}
use crom_spirit_iso.Ui.{Float, Vector, Orb}
use crom_spirit_iso.Ui.Menu.{MenuItem, RadialMenu, item_position}
use crom_spirit_iso.Ui.Hud.{Hud, info_text}

pub record Color : Type 0 where
  pub red : ℕ
  pub green : ℕ
  pub blue : ℕ
  pub alpha : ℕ

abbrev color : ℕ → ℕ → ℕ → ℕ → Color
color r g b a = record { red = r; green = g; blue = b; alpha = a }

pub data Drawing (F : Type 0) : Type 0 where
  rectangle : ℕ → ℕ → ℕ → ℕ → Color → Drawing F
  text : Bytes → ℕ → ℕ → ℕ → Color → Drawing F
  stroke : Vector F → Vector F → F → Color → Drawing F
  circle : Vector F → F → Color → Drawing F

-- The sum, the difference and the half of int32.
abbrev pub add_32 : ℕ → ℕ → ℕ
add_32 a b = (a + b) % 2 ^ 32

abbrev pub sub_32 : ℕ → ℕ → ℕ
sub_32 a b = (a + (2 ^ 32 - b)) % 2 ^ 32

abbrev pub half_32 : ℕ → ℕ
half_32 a = if ltb a (2 ^ 31) then a / 2 else (2 ^ 32 - (2 ^ 32 - a) / 2) % 2 ^ 32

abbrev nodus_color : Bytes → Color
nodus_color status =
    ite (Bytes_discrete status (bytes "Offline")) (color 255 100 100 255) (color 100 255 150 255)

-- The width of a text of a size.
module _ {F : Type 0} (measure_text : Bytes → ℕ → ℕ) where
  unfoldable pub draw_hud : Hud → Bytes → List (Drawing F)
  draw_hud h clock =
      let info = info_text h in
      let x = sub_32 (sub_32 h.screen_width (measure_text info 16)) 15 in
      rectangle 0 0 h.screen_width 40 (color 15 15 30 230)
      ∷ rectangle 0 40 h.screen_width 1 (color 80 80 120 150)
      ∷ text (bytes "Crom-OS Spirit") 15 10 20 (color 200 200 255 255)
      ∷ text info x 12 16 (nodus_color h.nodus_status)
      ∷ text clock (half_32 (sub_32 h.screen_width (measure_text clock 18))) 11 18
          (color 255 255 255 255)
      ∷ []

  module _ (float : Float F) (times : F → F → F) (to_uint8 : F → ℕ) where
    -- The sine of the orb's phase is a parameter.
    unfoldable pub draw_orb : (F → F) → Orb F → List (Drawing F)
    draw_orb sine o =
        let whole : ℕ → F = λ n. float.decimal n 0 in
        let pulse = times (sine o.pulse_phase) (whole 5) in
        let shift = times o.radius (float.decimal 3 1) in
        let core = if o.hover then color 120 80 255 255 else color 80 40 200 255 in
        circle o.position (float.plus (float.plus o.radius (whole 15)) pulse)
          (color 100 50 255 (to_uint8 (times (whole 100) o.glow_intensity)))
        ∷ circle o.position (float.plus o.radius (whole 8))
            (color 80 40 200 (to_uint8 (times (whole 150) o.glow_intensity)))
        ∷ circle o.position o.radius core
        ∷ circle (record { x = float.minus o.position.x shift; y = float.minus o.position.y shift })
            (times o.radius (float.decimal 25 2)) (color 255 255 255 120)
        ∷ []

    module _ (to_int32 : F → ℕ) (direction : ℕ → ℕ → Vector F) (distance : Vector F → Vector F → F)
        (m : RadialMenu F) where
      abbrev position : ℕ → Vector F
      position = item_position float times direction distance m

      abbrev alpha : ℕ → ℕ
      alpha n = to_uint8 (times (float.decimal n 0) m.open_amount)

      abbrev is_hovered : Option ℕ → ℕ → Bool
      is_hovered none i = Bool.false
      is_hovered (some j) i = i == j

      -- The loops over the items, from the `i`-th on.
      unfoldable pub draw_lines : ℕ → List MenuItem → List (Drawing F)
      draw_lines i [] = []
      draw_lines i (it ∷ items) =
          stroke m.center (position i) (float.decimal 2 0) (color 80 80 120 (alpha 150))
          ∷ draw_lines (i + 1) items

      abbrev bubble_color : ℕ → Color
      bubble_color i =
          if is_hovered m.hovered_item i
          then color 80 80 140 (alpha 255)
          else color 50 50 80 (alpha 220)

      unfoldable pub draw_bubbles : ℕ → List MenuItem → List (Drawing F)
      draw_bubbles i [] = []
      draw_bubbles i (it ∷ items) =
          let p = position i in
          circle p (float.decimal 28 0) (bubble_color i)
          ∷ text it.label (sub_32 (to_int32 p.x) (half_32 (measure_text it.label 14)))
              (add_32 (to_int32 p.y) 35) 14 (color 200 200 255 (alpha 255))
          ∷ draw_bubbles (i + 1) items

      unfoldable pub draw_menu : List (Drawing F)
      unfolding draw_lines draw_bubbles
      draw_menu =
          if float.at_most m.open_amount (float.decimal 0 0)
          then []
          else if length m.items == 0
          then []
          else draw_lines 0 m.items ++ draw_bubbles 0 m.items
