-- ===== src/Nexus/Bubble.antt =====
-- The bubble of cmd/nexus/main.go, pixel by pixel.
use crom_spirit_iso.Prelude.{
  ℕ, zero, suc, ◌+◌, ◌*◌, ◌≤◌, Bool, true, false, ◌&&◌, ◌||◌, ◌≡◌, refl, ◌∙◌, ap, ltb, leb, ◌==◌,
  arith, Bool-cases, inl, inr, leb→le,
}
use crom_spirit_iso.Nexus.{
  ℤ, pos, negsuc, pos_part, neg_part, ◌+ℤ◌, square, NexusApp, next, sub_ℕ, accent, dot, dot_row,
  dot_rows, render_bubble,
}
use crom_spirit_iso.Nexus.Painting.{covers, Paints, Paints-then, set_pixel-Paints, room_after}

-- i - c
abbrev pub offset : ℤ → ℕ → ℤ
offset c i = sub_ℕ (i + neg_part c) (pos_part c)

abbrev pub same : ℤ → ℤ → Bool
same a b = pos_part a + neg_part b == pos_part b + neg_part a

-- Whether o is among the n integers from d on.
abbrev span : ℤ → ℕ → ℤ → Bool
span d n o =
    leb (pos_part d + neg_part o) (pos_part o + neg_part d)
    && ltb (pos_part o + neg_part d) (pos_part d + n + neg_part o)

-- Whether a place is in the disc of radius 30.
abbrev pub in_disc : ℤ → ℤ → Bool
in_disc a b = leb (square a + square b) 900

covers-sum : (c d : ℤ) (i : ℕ) → covers (c +ℤ d) 1 i ≡ same d (offset c i)
unfolding ◌+ℤ◌
covers-sum (pos c) (pos d) i = ground arith
covers-sum (pos c) (negsuc d) i = ground arith
covers-sum (negsuc c) (pos d) i = ground arith
covers-sum (negsuc c) (negsuc d) i = ground arith

eq_of_same : (a b : ℤ) → same a b ≡ true → a ≡ b
eq_of_same (pos a) (pos b) h = ground arith
eq_of_same (pos a) (negsuc b) h = absurd (ground arith)
eq_of_same (negsuc a) (pos b) h = absurd (ground arith)
eq_of_same (negsuc a) (negsuc b) h = ground arith

span-suc : (d o : ℤ) (n : ℕ) → span d (suc n) o ≡ (same d o || span (next d) n o)
span-suc (pos d) o n = ground arith
span-suc (negsuc zero) o n = ground arith
span-suc (negsuc (suc d)) o n = ground arith

span-zero : (d o : ℤ) → span d 0 o ≡ false
span-zero d o = ground arith

-- A number whose square is at most 900 is from -30 to 30.
span_of_square : (o : ℤ) → square o ≤ 900 → span (negsuc 29) 61 o ≡ true
unfolding square
span_of_square (pos n) h = let small : n ≤ 30 = grind arith in ground arith
span_of_square (negsuc n) h = let small : n + 1 ≤ 30 = grind arith in ground arith

module _ (cx cy : ℤ) where
  abbrev disc : ℕ → ℕ → Bool
  disc i j = in_disc (offset cx i) (offset cy j)

  -- The dot is drawn where its own place is, if that is in the disc.
  same_place :
      (dx dy a b : ℤ)
      → ((same dx a && same dy b) && in_disc a b) ≡ (in_disc dx dy && (same dx a && same dy b))
  same_place dx dy a b = elim (Bool-cases (same dx a)) [
    | inl x ↦ elim (Bool-cases (same dy b)) [
      | inl y ↦
          let ex = eq_of_same dx a x in
          let ey = eq_of_same dy b y in rw (x, y, ex, ey) (ground arith)
      | inr y ↦ rw (x, y) (ground arith)
    ]
    | inr x ↦ rw x (ground arith)
  ]

  unpainted :
      (app : NexusApp) (P : ℕ → ℕ → Bool) → ((i j : ℕ) → P i j ≡ false) → Paints P accent app app
  unpainted app P nowhere = record {
    same_width = refl;
    same_height = refl;
    same_len = refl;
    painted = λ i j hi hj. ground (arith, nowhere i j);
  }

  Paints-eq :
      {P Q : ℕ → ℕ → Bool} {a b : NexusApp}
      → ((i j : ℕ) → Q i j ≡ P i j)
      → Paints P accent a b
      → Paints Q accent a b
  Paints-eq {P} {Q} {a} {b} e p = record {
    same_width = p.same_width;
    same_height = p.same_height;
    same_len = p.same_len;
    painted = λ i j hi hj. ground (arith, e i j, p.painted i j hi hj);
  }

  covers_equal :
      (dx dy : ℤ) (i j : ℕ)
      → (same dx (offset cx i) && same dy (offset cy j))
        ≡ (covers (cx +ℤ dx) 1 i && covers (cy +ℤ dy) 1 j)
  covers_equal dx dy i j = rw (covers-sum cx dx i, covers-sum cy dy j) refl

  dot-Paints :
      (app : NexusApp) (dx dy : ℤ)
      → app.width * app.height * 4 ≤ app.fb_len
      → Paints
          (λ i j. (same dx (offset cx i) && same dy (offset cy j)) && disc i j)
          accent
          app
          (dot cx cy app dx dy)
  unfolding dot
  dot-Paints app dx dy room = elim (Bool-cases (in_disc dx dy)) [
    | inl drawn ↦ rw drawn (
        Paints-eq
          (λ i j.
            same_place dx dy (offset cx i) (offset cy j)
            ∙ ap (λ b. b && (same dx (offset cx i) && same dy (offset cy j))) drawn
            ∙ covers_equal dx dy i j)
          (set_pixel-Paints accent app (cx +ℤ dx) (cy +ℤ dy) room))
    | inr not_drawn ↦ rw not_drawn (
        unpainted app (λ i j. (same dx (offset cx i) && same dy (offset cy j)) && disc i j)
          (λ i j.
            same_place dx dy (offset cx i) (offset cy j)
            ∙ ap (λ b. b && (same dx (offset cx i) && same dy (offset cy j))) not_drawn))
  ]

  dot_row-Paints :
      (n : ℕ) (app : NexusApp) (dx dy : ℤ)
      → app.width * app.height * 4 ≤ app.fb_len
      → Paints
          (λ i j. (span dx n (offset cx i) && same dy (offset cy j)) && disc i j)
          accent
          app
          (dot_row cx cy app dx dy n)
  unfolding dot_row
  dot_row-Paints zero app dx dy room =
      unpainted app (λ i j. (span dx 0 (offset cx i) && same dy (offset cy j)) && disc i j)
        (λ i j. rw (span-zero dx (offset cx i)) refl)
  dot_row-Paints (suc n) app dx dy room =
      let first = dot-Paints app dx dy room in
      Paints-then accent (λ i j. rw (span-suc dx (offset cx i) n) (ground arith)) first
        (dot_row-Paints n (dot cx cy app dx dy) (next dx) dy (room_after accent first room))

  dot_rows-Paints :
      (n : ℕ) (app : NexusApp) (dy : ℤ)
      → app.width * app.height * 4 ≤ app.fb_len
      → Paints
          (λ i j. (span (negsuc 29) 61 (offset cx i) && span dy n (offset cy j)) && disc i j)
          accent
          app
          (dot_rows cx cy app dy n)
  unfolding dot_rows
  dot_rows-Paints zero app dy room =
      unpainted app
        (λ i j. (span (negsuc 29) 61 (offset cx i) && span dy 0 (offset cy j)) && disc i j)
        (λ i j. rw (span-zero dy (offset cy j)) (ground arith))
  dot_rows-Paints (suc n) app dy room =
      let first = dot_row-Paints 61 app (negsuc 29) dy room in
      Paints-then accent (λ i j. rw (span-suc dy (offset cy j) n) (ground arith)) first
        (dot_rows-Paints n (dot_row cx cy app (negsuc 29) dy 61) (next dy)
          (room_after accent first room))

disc_spans :
    (a b : ℤ) → in_disc a b ≡ ((span (negsuc 29) 61 a && span (negsuc 29) 61 b) && in_disc a b)
disc_spans a b = elim (Bool-cases (in_disc a b)) [
  | inl inside ↦
      let small : square a + square b ≤ 900 = leb→le (square a + square b) 900 inside in
      let left : span (negsuc 29) 61 a ≡ true = span_of_square a (omega (arith, small)) in
      let up : span (negsuc 29) 61 b ≡ true = span_of_square b (omega (arith, small)) in
      rw (inside, left, up) refl
  | inr outside ↦ rw outside (ground arith)
]

-- On a buffer that has all pixels of the screen, `renderBubble` paints exactly the pixels of the screen
-- that are at a distance of at most 30 from the one 80 pixels left of and above its lower right corner.
pub render_bubble-Paints :
    (app : NexusApp)
    → app.width * app.height * 4 ≤ app.fb_len
    → Paints
        (λ i j. in_disc (offset (sub_ℕ app.width 80) i) (offset (sub_ℕ app.height 80) j))
        accent
        app
        (render_bubble app)
unfolding render_bubble
render_bubble-Paints app room =
    let cx = sub_ℕ app.width 80 in
    let cy = sub_ℕ app.height 80 in
    Paints-eq cx cy (λ i j. disc_spans (offset cx i) (offset cy j))
      (dot_rows-Paints cx cy 61 app (negsuc 29) room)
