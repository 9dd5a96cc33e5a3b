-- ===== src/Nexus/Dashboard.antt =====
-- The dashboard of cmd/nexus/main.go, pixel by pixel.
use crom_spirit_iso.Prelude.{
  ℕ, ◌+◌, ◌*◌, ◌≤◌, Bool, ◌&&◌, ◌||◌, ◌≡◌, refl, ◌∙◌, ap, subst, ltb, leb, ◌==◌, if◌then◌else◌,
  arith,
}
use crom_spirit_iso.Nexus.{
  pos, NexusApp, fill_rect, sub_ℕ, rounds, accent, bg, border, render_dashboard,
}
use crom_spirit_iso.Nexus.Painting.{
  pixel, covers, Paints, Shows, Paints-then, fill_rect-Paints, room_after,
}

-- Whether a coordinate is inside a margin of 100 pixels on both sides.
abbrev pub inside : ℕ → ℕ → Bool
inside size c = leb 100 c && ltb (c + 100) size

-- Whether a coordinate is on one of the two lines of a round of the border.
abbrev pub on_line : ℕ → ℕ → ℕ → Bool
on_line size r c = c == 100 + r || c + (100 + r) == size

-- The pixels of a round of the border.
abbrev pub on_border : ℕ → ℕ → ℕ → ℕ → ℕ → Bool
on_border width height r i j =
    (on_line width r i && inside height j) || (inside width i && on_line height r j)

covers-one : (size r c : ℕ) → covers (sub_ℕ size (100 + r)) 1 c ≡ (c + (100 + r) == size)
covers-one size r c = ground arith

covers-margin : (size c : ℕ) → covers (pos 100) (rounds (sub_ℕ size 200)) c ≡ inside size c
covers-margin size c = ground arith

covers-near : (r c : ℕ) → covers (pos (100 + r)) 1 c ≡ (c == 100 + r)
covers-near r c = ground arith

margins :
    (width height i j : ℕ)
    → (covers (pos 100) (rounds (sub_ℕ width 200)) i
        && covers (pos 100) (rounds (sub_ℕ height 200)) j)
      ≡ (inside width i && inside height j)
margins width height i j = rw (covers-margin width i, covers-margin height j) refl

four_lines :
    (width height r i j : ℕ)
    → on_border width height r i j ≡ (
        (((covers (pos (100 + r)) 1 i && covers (pos 100) (rounds (sub_ℕ height 200)) j)
            || (covers (sub_ℕ width (100 + r)) 1 i
                && covers (pos 100) (rounds (sub_ℕ height 200)) j))
          || (covers (pos 100) (rounds (sub_ℕ width 200)) i && covers (pos (100 + r)) 1 j))
        || (covers (pos 100) (rounds (sub_ℕ width 200)) i && covers (sub_ℕ height (100 + r)) 1 j))
four_lines width height r i j =
    rw
      (
        covers-near r i,
        covers-near r j,
        covers-one width r i,
        covers-one height r j,
        covers-margin width i,
        covers-margin height j,
      )
      (ground arith)

border-Paints :
    (app : NexusApp) (r : ℕ)
    → app.width * app.height * 4 ≤ app.fb_len
    → Paints (on_border app.width app.height r) accent app (border app r)
unfolding border
border-Paints app r room =
    let w = sub_ℕ app.width 200 in
    let h = sub_ℕ app.height 200 in
    let p1 = fill_rect-Paints accent app (pos (100 + r)) (pos 100) (pos 1) h room in
    let a1 = fill_rect app (pos (100 + r)) (pos 100) (pos 1) h accent in
    let r1 = room_after accent p1 room in
    let p2 = fill_rect-Paints accent a1 (sub_ℕ app.width (100 + r)) (pos 100) (pos 1) h r1 in
    let a2 = fill_rect a1 (sub_ℕ app.width (100 + r)) (pos 100) (pos 1) h accent in
    let r2 = room_after accent p2 r1 in
    let p3 = fill_rect-Paints accent a2 (pos 100) (pos (100 + r)) w (pos 1) r2 in
    let a3 = fill_rect a2 (pos 100) (pos (100 + r)) w (pos 1) accent in
    let r3 = room_after accent p3 r2 in
    let p4 = fill_rect-Paints accent a3 (pos 100) (sub_ℕ app.height (100 + r)) w (pos 1) r3 in
    let p12 = Paints-then accent (λ i j. refl) p1 p2 in
    let p123 = Paints-then accent (λ i j. refl) p12 p3 in
    Paints-then accent (λ i j. four_lines app.width app.height r i j) p123 p4

-- The same, for a screen of a known size.
sized_border-Paints :
    (app : NexusApp) (r width height : ℕ)
    → app.width ≡ width
    → app.height ≡ height
    → app.width * app.height * 4 ≤ app.fb_len
    → Paints (on_border width height r) accent app (border app r)
sized_border-Paints app r width height ew eh room =
    subst (λ w. Paints (on_border w height r) accent app (border app r)) ew
      (subst (λ h. Paints (on_border app.width h r) accent app (border app r)) eh
        (border-Paints app r room))

-- The pixels of the border's three rounds.
abbrev pub on_any_border : ℕ → ℕ → ℕ → ℕ → Bool
on_any_border width height i j =
    on_border width height 0 i j || on_border width height 1 i j || on_border width height 2 i j

abbrev pub dashboard_picture : ℕ → ℕ → ℕ → ℕ → ℕ → ℕ
dashboard_picture width height i j old =
    if on_any_border width height i j
    then accent
    else if inside width i && inside height j
    then bg
    else old

-- On a buffer that has all pixels of the screen, each pixel of the dashboard has the border's color if
-- it is on one of the three lines along one of the four sides of the window, the background's if it is
-- elsewhere in the window, and is unchanged outside.
pub render_dashboard-Shows :
    (app : NexusApp)
    → app.width * app.height * 4 ≤ app.fb_len
    → Shows (dashboard_picture app.width app.height) app (render_dashboard app)
unfolding render_dashboard
render_dashboard-Shows app room =
    let w = sub_ℕ app.width 200 in
    let h = sub_ℕ app.height 200 in
    let p = fill_rect-Paints bg app (pos 100) (pos 100) w h room in
    let a = fill_rect app (pos 100) (pos 100) w h bg in
    let ra = room_after bg p room in
    let sw = p.same_width in
    let sh = p.same_height in
    let p0 = sized_border-Paints a 0 app.width app.height sw sh ra in
    let r0 = room_after accent p0 ra in
    let sw0 = p0.same_width ∙ sw in
    let sh0 = p0.same_height ∙ sh in
    let p1 = sized_border-Paints (border a 0) 1 app.width app.height sw0 sh0 r0 in
    let r1 = room_after accent p1 r0 in
    let p2 =
      sized_border-Paints (border (border a 0) 1) 2 app.width app.height (p1.same_width ∙ sw0)
        (p1.same_height ∙ sh0) r1 in
    let p01 = Paints-then accent (λ x y. refl) p0 p1 in
    let all = Paints-then accent (λ x y. refl) p01 p2 in
    record {
      same_width = all.same_width ∙ sw;
      same_height = all.same_height ∙ sh;
      same_len = all.same_len ∙ p.same_len;
      shown = λ i j hi hj.
          all.painted i j (rw sw hi) (rw sh hj)
          ∙ ap (λ c. if on_any_border app.width app.height i j then accent else c)
              (p.painted i j hi hj
                ∙ ap (λ b. if b then bg else pixel app i j) (margins app.width app.height i j));
    }
