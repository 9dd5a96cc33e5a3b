-- ===== src/Nexus/Screens.antt =====
-- The screens of cmd/nexus/main.go, pixel by pixel.
use crom_spirit_iso.Prelude.{
  ℕ, ◌+◌, ◌-◌, ◌*◌, ◌/◌, ◌≤◌, Bool, ◌&&◌, ◌||◌, ◌≡◌, refl, ◌∙◌, ltb, leb, if◌then◌else◌, arith,
}
use crom_spirit_iso.Nexus.{pos, NexusApp, fill_rect, render_terminal, sub_ℕ, rounds}
use crom_spirit_iso.Nexus.Painting.{
  covers, Paints, Shows, Paints-then, fill_rect-Paints, room_after,
}

rounds-sub : (a b : ℕ) → rounds (sub_ℕ a b) ≡ a - b
rounds-sub a b = ground arith

-- Whether a coordinate is in one of two tiles, on both sides of a gap of four pixels in the middle.
abbrev pub in_tile : ℕ → ℕ → Bool
in_tile half c = ltb c (half - 2) || (leb (half + 2) c && ltb c (half + 2 + (half - 2)))

four_tiles :
    (half_w half_h i j : ℕ)
    → (in_tile half_w i && in_tile half_h j) ≡ (
        (((covers (pos 0) (rounds (sub_ℕ half_w 2)) i && covers (pos 0) (rounds (sub_ℕ half_h 2)) j)
            || (covers (pos (half_w + 2)) (rounds (sub_ℕ half_w 2)) i
                && covers (pos 0) (rounds (sub_ℕ half_h 2)) j))
          || (covers (pos 0) (rounds (sub_ℕ half_w 2)) i
              && covers (pos (half_h + 2)) (rounds (sub_ℕ half_h 2)) j))
        || (covers (pos (half_w + 2)) (rounds (sub_ℕ half_w 2)) i
            && covers (pos (half_h + 2)) (rounds (sub_ℕ half_h 2)) j))
four_tiles half_w half_h i j = ground (arith, rounds-sub half_w 2, rounds-sub half_h 2)

-- The terminal screen, which does not depend on what was there before.
abbrev pub terminal_picture : ℕ → ℕ → ℕ → ℕ → ℕ → ℕ
terminal_picture width height i j old =
    if in_tile (width / 2) i && in_tile (height / 2) j then 0xFF151525 else 0xFF101020

-- Each pixel of the terminal screen has the color of a tile if both of its coordinates are in a tile,
-- and the background's else, if the buffer has all pixels of the screen.
pub render_terminal-Shows :
    (app : NexusApp)
    → app.width * app.height * 4 ≤ app.fb_len
    → Shows (terminal_picture app.width app.height) app (render_terminal app)
unfolding render_terminal
render_terminal-Shows app room =
    let half_w = app.width / 2 in
    let half_h = app.height / 2 in
    let w = sub_ℕ half_w 2 in
    let h = sub_ℕ half_h 2 in
    let tile : ℕ = 0xFF151525 in
    let p0 =
      fill_rect-Paints 0xFF101020 app (pos 0) (pos 0) (pos app.width) (pos app.height) room in
    let a0 = fill_rect app (pos 0) (pos 0) (pos app.width) (pos app.height) 0xFF101020 in
    let r0 = room_after 0xFF101020 p0 room in
    let p1 = fill_rect-Paints tile a0 (pos 0) (pos 0) w h r0 in
    let a1 = fill_rect a0 (pos 0) (pos 0) w h tile in
    let r1 = room_after tile p1 r0 in
    let p2 = fill_rect-Paints tile a1 (pos (half_w + 2)) (pos 0) w h r1 in
    let a2 = fill_rect a1 (pos (half_w + 2)) (pos 0) w h tile in
    let r2 = room_after tile p2 r1 in
    let p3 = fill_rect-Paints tile a2 (pos 0) (pos (half_h + 2)) w h r2 in
    let a3 = fill_rect a2 (pos 0) (pos (half_h + 2)) w h tile in
    let r3 = room_after tile p3 r2 in
    let p4 = fill_rect-Paints tile a3 (pos (half_w + 2)) (pos (half_h + 2)) w h r3 in
    let p12 = Paints-then tile (λ i j. refl) p1 p2 in
    let p123 = Paints-then tile (λ i j. refl) p12 p3 in
    let tiles : Paints (λ i j. in_tile half_w i && in_tile half_h j) tile a0 (render_terminal app) =
      Paints-then tile (λ i j. four_tiles half_w half_h i j) p123 p4 in
    record {
      same_width = tiles.same_width ∙ p0.same_width;
      same_height = tiles.same_height ∙ p0.same_height;
      same_len = tiles.same_len ∙ p0.same_len;
      shown = λ i j hi hj.
          tiles.painted i j (rw (p0.same_width) hi) (rw (p0.same_height) hj)
          ∙ ground (arith, p0.painted i j hi hj);
    }
