-- ===== src/Tests/UiTests.antt =====
-- The orb and the menu of internal/ui, on whole numbers of hundredths in place of floats.
use crom_spirit_iso.Prelude.{
  ℕ, ◌+◌, ◌-◌, ◌*◌, ◌/◌, ◌^◌, ◌≡◌, ◌≢◌, refl, Bool, true, false, List, [], ◌∷◌, none, some, ltb,
  leb, min, arith, length, if◌then◌else◌,
}
use crom_spirit_iso.Prelude.Text.{Bytes, bytes}
use crom_spirit_iso.Ui.{Float, Vector, Orb, new_orb, update, orb_after}
use crom_spirit_iso.Prelude.Strings.{has_prefix, leading, space_width, split_from}
use crom_spirit_iso.Prelude.Numbers.{decimal, decimal_from}
use crom_spirit_iso.Ui.Drawing.{draw_menu, draw_lines, draw_bubbles, half_32, sub_32}
use crom_spirit_iso.Ui.Hud
use crom_spirit_iso.Ui.Hud.{Hud, new_hud, total_of, get_total_memory, check_nodus_status, info_text}
use crom_spirit_iso.Ui.Menu.{
  RadialMenu, default_menu_items, Event, toggled, updated, new_radial_menu, toggle, animate,
  item_position, hover_loop, update_menu, reached, full_amount,
}
use crom_spirit_iso.Ui.Menu.Animation
use crom_spirit_iso.Ui.Menu.Animation.{IsAmount, IsBelow}
use crom_spirit_iso.Ui.Menu.Commands
use crom_spirit_iso.Ui.Menu.Commands.{IsChosen}

program : Unit {0}
unfolding new_orb update orb_after new_radial_menu toggle animate item_position hover_loop
    update_menu reached
program = tt

hud_program : Unit {0}
unfolding decimal decimal_from has_prefix leading space_width split_from total_of get_total_memory
    check_nodus_status new_hud Hud.update info_text
hud_program = tt

abbrev hundredths : Float ℕ
hundredths = record {
  decimal = λ n k. n * 100 / 10 ^ k;
  plus = λ a b. a + b;
  minus = λ a b. a - b;
  below = ltb;
  at_most = leb;
  smaller = min;
  larger = λ a b. if ltb a b then b else a;
}

abbrev at : ℕ → ℕ → Vector ℕ
at x y = record { x = x; y = y }

abbrev distance : Vector ℕ → Vector ℕ → ℕ
distance p q = (p.x - q.x) + (q.x - p.x) + (p.y - q.y) + (q.y - p.y)

abbrev orb : Orb ℕ
orb = new_orb hundredths distance 5000 5000 1000

-- The button goes down over the orb and comes up over it.
abbrev pressed : List (Vector ℕ × Bool)
pressed = (at 5100 5000, true) ∷ []

clicked :
    (update hundredths distance (orb_after hundredths distance orb pressed) (at 5000 5100) false).1
    ≡ true
unfolding program
clicked = refl

-- The items stand in a row to the right of the center.
abbrev times : ℕ → ℕ → ℕ
times a b = a * b / 100

abbrev direction : ℕ → ℕ → Vector ℕ
direction index number = at (index * 100) 0

-- A menu of radius 100 that is opened at (0, 0) and updated six times.
abbrev idle : Event ℕ
idle = updated (at 90000 0) false

abbrev opening : List (Event ℕ)
opening = idle ∷ idle ∷ idle ∷ idle ∷ idle ∷ idle ∷ toggled (at 0 0) ∷ []

abbrev menu : RadialMenu ℕ
menu = reached hundredths times direction distance default_menu_items 10000 opening

-- The seventh update opens it fully, with the mouse near the second item and the button pressed.
has_command : (update_menu hundredths times direction distance menu (at 10000 100) true).1 ≢ []
unfolding program
has_command e = absurd (cc)

update_menu-IsChosen_example :
    let (after, command) =
      update_menu hundredths times direction distance menu (at 10000 100) true in
    (true ≡ true)
    × (leb (full_amount hundredths) after.open_amount ≡ true)
    × IsChosen hundredths times direction distance
        (animate hundredths menu)
        (at 10000 100)
        0
        after.items
        (after.hovered_item, command)
update_menu-IsChosen_example =
    Commands.update_menu-IsChosen hundredths times direction distance menu (at 10000 100) true
      has_command

irreflexive : (a : ℕ) → ltb a a ≡ false
irreflexive a = ground arith

nonneg : (a : ℕ) → ltb a 0 ≡ false → ltb (a + 15) 0 ≡ false
nonneg a h = ground arith

at_most_full : (a : ℕ) → ltb 100 a ≡ false → ltb 100 (a - 15) ≡ false
at_most_full a h = ground (arith, h)

reached-IsAmount_example :
    (menu.items ≡ default_menu_items)
    × IsAmount hundredths menu.open_amount
    × IsBelow (length default_menu_items) menu.hovered_item
reached-IsAmount_example =
    Animation.reached-IsAmount hundredths irreflexive refl nonneg at_most_full times direction
      distance default_menu_items 10000 opening

-- A file with 16 GB, read a second after the start and not read again half a second later.
abbrev meminfo : Bytes
meminfo = bytes "MemFree:   5 kB\nMemTotal:       16384000 kB\nCached: 1 kB\n"

abbrev seen : Hud
seen = Hud.update (new_hud 1920 1080) 1000000000 5000000 (some meminfo) false true

bar :
    info_text (Hud.update seen 1500000000 9 none true true)
    ≡ bytes "RAM: 4/16000MB | Nodus: Mounted"
unfolding hud_program
bar = refl

abbrev measure : Bytes → ℕ → ℕ
measure s size = length s * 10

-- The open menu has a line, a bubble and a label for each item.
drawn : length (draw_menu measure hundredths times (λ a. a) (λ a. a) direction distance menu) ≡ 12
unfolding program draw_menu draw_lines draw_bubbles
drawn = refl

half_of_minus_25 : half_32 (sub_32 25 50) ≡ sub_32 0 12
half_of_minus_25 = refl
