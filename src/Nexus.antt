-- ===== src/Nexus.antt =====
-- The frame buffer of cmd/nexus/main.go: pixels, rectangles and the screens made of them.
--
-- A pixel is a word of four bytes at an offset that is a multiple of four, so the buffer is a
-- function of the word's number; `fb_len` is its length in bytes. Coordinates are integers that do
-- not come near 2 ^ 63.
pub mod Painting
pub mod Screens
pub mod Dashboard
pub mod Bubble
pub mod Frames
pub mod TextMode
pub mod Device
use crom_spirit_iso.Prelude.{
  ℕ, zero, suc, ◌+◌, ◌-◌, ◌*◌, ◌/◌, Bool, true, false, ◌||◌, ltb, leb, ◌==◌, if◌then◌else◌,
}

-- `negsuc n` is -(n + 1).
pub data ℤ : Type 0 where
  pos : ℕ → ℤ
  negsuc : ℕ → ℤ

pub data UiState : Type 0 where
  bubble dashboard terminal : UiState

pub record NexusApp : Type 0 where
  pub width : ℕ
  pub height : ℕ
  pub fb_len : ℕ
  pub fb_data : ℕ → ℕ

-- The store through the address of `fbData[offset]`.
abbrev pub store : NexusApp → ℕ → ℕ → NexusApp
store app offset color = record app {
  fb_data = λ i. if i == offset / 4 then color else app.fb_data i;
}

unfoldable pub set_pixel : NexusApp → ℤ → ℤ → ℕ → NexusApp
set_pixel app (negsuc x) y color = app
set_pixel app (pos x) (negsuc y) color = app
set_pixel app (pos x) (pos y) color =
    let offset = (y * app.width + x) * 4 in
    if leb app.width x || leb app.height y
    then app
    else if ltb app.fb_len (offset + 4)
    then app
    else store app offset color

abbrev pub next : ℤ → ℤ
next (pos n) = pos (n + 1)
next (negsuc zero) = pos 0
next (negsuc (suc n)) = negsuc n

-- The loop on `dx`; `x` is `x+dx`, and the number is that of the rounds left.
unfoldable pub fill_row : NexusApp → ℤ → ℤ → ℕ → ℕ → NexusApp
fill_row app x y zero color = app
fill_row app x y (suc w) color = fill_row (set_pixel app x y color) (next x) y w color

-- The loop on `dy`.
unfoldable pub fill_rows : NexusApp → ℤ → ℤ → ℕ → ℕ → ℕ → NexusApp
fill_rows app x y w zero color = app
fill_rows app x y w (suc h) color = fill_rows (fill_row app x y w color) x (next y) w h color

-- A negative size has no rounds.
abbrev pub rounds : ℤ → ℕ
rounds (pos n) = n
rounds (negsuc n) = 0

unfoldable pub fill_rect : NexusApp → ℤ → ℤ → ℤ → ℤ → ℕ → NexusApp
fill_rect app x y w h color = fill_rows app x y (rounds w) (rounds h) color

-- a - b
abbrev pub sub_ℕ : ℕ → ℕ → ℤ
sub_ℕ a b = if leb b a then pos (a - b) else negsuc (b - a - 1)

abbrev pub accent : ℕ
accent = 0xFF00AAFF

abbrev pub bg : ℕ
bg = 0xE0202030

-- A round of the loop that draws the border of the dashboard.
unfoldable pub border : NexusApp → ℕ → NexusApp
border app i =
    let w = sub_ℕ app.width 200 in
    let h = sub_ℕ app.height 200 in
    let a1 = fill_rect app (pos (100 + i)) (pos 100) (pos 1) h accent in
    let a2 = fill_rect a1 (sub_ℕ app.width (100 + i)) (pos 100) (pos 1) h accent in
    let a3 = fill_rect a2 (pos 100) (pos (100 + i)) w (pos 1) accent in
    fill_rect a3 (pos 100) (sub_ℕ app.height (100 + i)) w (pos 1) accent

unfoldable pub render_dashboard : NexusApp → NexusApp
render_dashboard app =
    let w = sub_ℕ app.width 200 in
    let h = sub_ℕ app.height 200 in
    let a = fill_rect app (pos 100) (pos 100) w h bg in border (border (border a 0) 1) 2

abbrev pub pos_part : ℤ → ℕ
pos_part (pos n) = n
pos_part (negsuc n) = 0

abbrev pub neg_part : ℤ → ℕ
neg_part (pos n) = 0
neg_part (negsuc n) = suc n

infixl 65 ◌+ℤ◌
unfoldable pub ◌+ℤ◌ : ℤ → ℤ → ℤ
a +ℤ b = sub_ℕ (pos_part a + pos_part b) (neg_part a + neg_part b)

-- `d*d`
unfoldable pub square : ℤ → ℕ
square (pos n) = n * n
square (negsuc n) = (n + 1) * (n + 1)

-- The body of the two loops of `renderBubble`.
unfoldable pub dot : ℤ → ℤ → NexusApp → ℤ → ℤ → NexusApp
dot cx cy app dx dy =
    if leb (square dx + square dy) (30 * 30)
    then set_pixel app (cx +ℤ dx) (cy +ℤ dy) accent
    else app

-- The loop on `dx`, by the rounds left.
unfoldable pub dot_row : ℤ → ℤ → NexusApp → ℤ → ℤ → ℕ → NexusApp
dot_row cx cy app dx dy zero = app
dot_row cx cy app dx dy (suc n) = dot_row cx cy (dot cx cy app dx dy) (next dx) dy n

-- The loop on `dy`.
unfoldable pub dot_rows : ℤ → ℤ → NexusApp → ℤ → ℕ → NexusApp
dot_rows cx cy app dy zero = app
dot_rows cx cy app dy (suc n) = dot_rows cx cy (dot_row cx cy app (negsuc 29) dy 61) (next dy) n

-- Both loops run from -30 to 30.
unfoldable pub render_bubble : NexusApp → NexusApp
render_bubble app = dot_rows (sub_ℕ app.width 80) (sub_ℕ app.height 80) app (negsuc 29) 61

-- The screen's background and its four tiles.
unfoldable pub render_terminal : NexusApp → NexusApp
render_terminal app =
    let half_w = app.width / 2 in
    let half_h = app.height / 2 in
    let w = sub_ℕ half_w 2 in
    let h = sub_ℕ half_h 2 in
    let tile : ℕ = 0xFF151525 in
    let a0 = fill_rect app (pos 0) (pos 0) (pos app.width) (pos app.height) 0xFF101020 in
    let a1 = fill_rect a0 (pos 0) (pos 0) w h tile in
    let a2 = fill_rect a1 (pos (half_w + 2)) (pos 0) w h tile in
    let a3 = fill_rect a2 (pos 0) (pos (half_h + 2)) w h tile in
    fill_rect a3 (pos (half_w + 2)) (pos (half_h + 2)) w h tile

-- The body of the loop of `run`. `handleInput` does nothing.
unfoldable pub frame : UiState → NexusApp → NexusApp
frame bubble app = render_bubble app
frame dashboard app = render_dashboard app
frame terminal app = render_terminal app

-- The loop of `run` after a number of rounds. Nothing in it changes `running` or `state`.
unfoldable pub run : UiState → ℕ → NexusApp → NexusApp
run state zero app = app
run state (suc rounds_left) app = run state rounds_left (frame state app)
