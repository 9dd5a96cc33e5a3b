-- ===== src/Nexus/Frames.antt =====
-- The loop of cmd/nexus/main.go: what is on the screen after its frames.
use crom_spirit_iso.Prelude.{
  ℕ, zero, suc, ◌*◌, ◌≤◌, ◌<◌, ◌≡◌, refl, Bool, true, false, ◌&&◌, ◌∙◌, ap, if◌then◌else◌, arith,
}
use crom_spirit_iso.Nexus.{
  NexusApp, UiState, bubble, dashboard, terminal, sub_ℕ, accent, bg, frame, run,
}
use crom_spirit_iso.Nexus.Painting.{pixel, Shows}
use crom_spirit_iso.Nexus.Screens.{terminal_picture, render_terminal-Shows}
use crom_spirit_iso.Nexus.Dashboard.{
  dashboard_picture, inside, on_any_border, render_dashboard-Shows,
}
use crom_spirit_iso.Nexus.Bubble.{in_disc, offset, render_bubble-Paints}

abbrev pub bubble_picture : ℕ → ℕ → ℕ → ℕ → ℕ → ℕ
bubble_picture width height i j old =
    if in_disc (offset (sub_ℕ width 80) i) (offset (sub_ℕ height 80) j) then accent else old

-- What a state shows on a screen of a size, at a place with an old color.
abbrev pub picture : UiState → ℕ → ℕ → ℕ → ℕ → ℕ → ℕ
picture bubble = bubble_picture
picture dashboard = dashboard_picture
picture terminal = terminal_picture

frame-Shows :
    (state : UiState) (app : NexusApp)
    → app.width * app.height * 4 ≤ app.fb_len
    → Shows (picture state app.width app.height) app (frame state app)
unfolding frame
frame-Shows bubble app room =
    let p = render_bubble-Paints app room in
    record {
      same_width = p.same_width;
      same_height = p.same_height;
      same_len = p.same_len;
      shown = p.painted;
    }
frame-Shows dashboard app room = render_dashboard-Shows app room
frame-Shows terminal app room = render_terminal-Shows app room

two_layers :
    (b c : Bool) (x y old : ℕ)
    → (if b then x else if c then y else if b then x else if c then y else old)
      ≡ (if b then x else if c then y else old)
two_layers true c x y old = refl
two_layers false true x y old = refl
two_layers false false x y old = refl

-- Drawn twice, a picture is as drawn once.
picture_again :
    (state : UiState) (w h i j old : ℕ)
    → picture state w h i j (picture state w h i j old) ≡ picture state w h i j old
picture_again bubble w h i j old = ground arith
picture_again dashboard w h i j old =
    two_layers (on_any_border w h i j) (inside w i && inside h j) accent bg old
picture_again terminal w h i j old = refl

-- On a buffer that has all pixels of the screen, after any number of frames but none each pixel of the
-- screen is as the state's picture has it: the disc, the window with its border, or the four tiles,
-- drawn over what was there before the first frame.
pub pixel-run :
    (n : ℕ) (state : UiState) (app : NexusApp) (i j : ℕ)
    → app.width * app.height * 4 ≤ app.fb_len
    → i < app.width
    → j < app.height
    → pixel (run state (suc n) app) i j ≡ picture state app.width app.height i j (pixel app i j)
unfolding run
pixel-run zero state app i j room hi hj = (frame-Shows state app room).shown i j hi hj
pixel-run (suc n) state app i j room hi hj =
    let f = frame-Shows state app room in
    let app' = frame state app in
    let later =
      pixel-run n state app' i j (rw (f.same_width, f.same_height, f.same_len) room)
        (rw (f.same_width) hi) (rw (f.same_height) hj) in
    later
    ∙ ap (λ w. picture state w app'.height i j (pixel app' i j)) f.same_width
    ∙ ap (λ h. picture state app.width h i j (pixel app' i j)) f.same_height
    ∙ ap (picture state app.width app.height i j) (f.shown i j hi hj)
    ∙ picture_again state app.width app.height i j (pixel app i j)
