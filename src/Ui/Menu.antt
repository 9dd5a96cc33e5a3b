-- ===== src/Ui/Menu.antt =====
-- The radial menu: internal/ui/menu.go.
pub mod Animation
pub mod Commands
use crom_spirit_iso.Prelude.{
  ℕ, zero, suc, ◌+◌, ◌<◌, ◌≡◌, refl, Bool, true, false, not, ◌&&◌, Option, none, some, List, [],
  ◌∷◌, if◌then◌else◌, length, get_elem?,
}
use crom_spirit_iso.Prelude.Text.{Bytes, bytes}
use crom_spirit_iso.Ui.{Float, Vector}

pub record MenuItem : Type 0 where
  pub label : Bytes
  pub icon : Bytes
  pub command : Bytes

-- `hovered_item` is none for -1.
pub record RadialMenu (F : Type 0) : Type 0 where
  pub center : Vector F
  pub radius : F
  pub items : List MenuItem
  pub open_amount : F
  pub is_open : Bool
  pub hovered_item : Option ℕ

abbrev pub item : Bytes → Bytes → MenuItem
item label command = record { label = label; icon = []; command = command }

abbrev pub default_menu_items : List MenuItem
default_menu_items =
    item (bytes "Windows") (bytes "@windows")
    ∷ item (bytes "Terminal") (bytes "@terminal")
    ∷ item (bytes "Nodus") (bytes "@nodus")
    ∷ item (bytes "Settings") (bytes "@settings")
    ∷ []

pub data Event (F : Type 0) : Type 0 where
  toggled : Vector F → Event F
  updated : Vector F → Bool → Event F

module _ {F : Type 0} (float : Float F) where
  abbrev pub closed_amount : F
  closed_amount = float.decimal 0 0

  abbrev pub full_amount : F
  full_amount = float.decimal 10 1

  abbrev pub increment : F
  increment = float.decimal 15 2

  unfoldable pub new_radial_menu : List MenuItem → F → RadialMenu F
  new_radial_menu items radius = record {
    center = record { x = closed_amount; y = closed_amount };
    radius = radius;
    items = items;
    open_amount = closed_amount;
    is_open = false;
    hovered_item = none;
  }

  unfoldable pub toggle : RadialMenu F → Vector F → RadialMenu F
  toggle m center = record m { is_open = not m.is_open; center = center }

  abbrev raised : F → F
  raised a = let b = float.plus a increment in if float.below full_amount b then full_amount else b

  abbrev lowered : F → F
  lowered a =
      let b = float.minus a increment in if float.below b closed_amount then closed_amount else b

  unfoldable pub animate : RadialMenu F → RadialMenu F
  animate m =
      if m.is_open && float.below m.open_amount full_amount
      then record m { open_amount = raised m.open_amount }
      else if not m.is_open && float.below closed_amount m.open_amount
      then record m { open_amount = lowered m.open_amount }
      else m

  -- The product, the cosine and the sine of the angle index * 2 * pi / number - pi / 2 and the distance
  -- of two points are parameters.
  module _ (times : F → F → F) (direction : ℕ → ℕ → Vector F)
      (distance : Vector F → Vector F → F) where
    unfoldable pub item_position : RadialMenu F → ℕ → Vector F
    item_position m index =
        let effective_radius = times m.radius m.open_amount in
        let d = direction index (length m.items) in
        record {
          x = float.plus m.center.x (times d.x effective_radius);
          y = float.plus m.center.y (times d.y effective_radius);
        }

    abbrev pub is_near : RadialMenu F → Vector F → ℕ → Bool
    is_near m mouse i = float.at_most (distance mouse (item_position m i)) (float.decimal 30 0)

    -- The loop over the items from the `i`-th on: the item that is hovered, and the command.
    unfoldable pub hover_loop :
        RadialMenu F → Vector F → Bool → ℕ → List MenuItem → Option ℕ → Option ℕ × Bytes
    hover_loop m mouse click i [] hovered = (hovered, [])
    hover_loop m mouse click i (it ∷ items) hovered =
        let later = hover_loop m mouse click (i + 1) items in
        if is_near m mouse i
        then if click then (some i, it.command) else later (some i)
        else later hovered

    -- The menu's next state and the command, which is empty if there is none; `click` tells whether
    -- the left button is pressed.
    unfoldable pub update_menu : RadialMenu F → Vector F → Bool → RadialMenu F × Bytes
    unfolding animate
    update_menu m mouse click =
        let m = animate m in
        let (hovered, command) = hover_loop m mouse click 0 m.items none in
        if float.at_most full_amount m.open_amount
        then (record m { hovered_item = hovered }, command)
        else (record m { hovered_item = none }, [])

    -- A new menu after some events, the last one first.
    unfoldable pub reached : List MenuItem → F → List (Event F) → RadialMenu F
    unfolding new_radial_menu toggle update_menu
    reached items radius [] = new_radial_menu items radius
    reached items radius (toggled center ∷ earlier) = toggle (reached items radius earlier) center
    reached items radius (updated mouse click ∷ earlier) =
        (update_menu (reached items radius earlier) mouse click).0
