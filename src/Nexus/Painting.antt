-- ===== src/Nexus/Painting.antt =====
-- Which pixels the functions of cmd/nexus/main.go paint.
use crom_spirit_iso.Prelude.{
  ℕ, zero, suc, ◌+◌, ◌*◌, ◌/◌, ◌≤◌, ◌<◌, Bool, false, ◌&&◌, ◌||◌, ◌≡◌, refl, ◌∙◌, ap, ltb, leb,
  ◌==◌, if◌then◌else◌, arith,
}
use crom_spirit_iso.Nexus.{
  ℤ, pos, negsuc, NexusApp, store, set_pixel, next, fill_row, fill_rows, rounds, fill_rect,
}

abbrev pub pixel : NexusApp → ℕ → ℕ → ℕ
pixel app i j = app.fb_data (j * app.width + i)

-- Whether i is among the n numbers from x on.
abbrev pub covers : ℤ → ℕ → ℕ → Bool
covers (pos x) n i = leb x i && ltb i (x + n)
covers (negsuc x) n i = ltb (i + x + 1) n

row-lt : (w i j x y : ℕ) → i < w → j < y → j * w + i < y * w + x
row-lt w i j x y hi hj = grind arith

-- What a function does to the screen: it paints the pixels of a test, and leaves its size.
pub record Paints (P : ℕ → ℕ → Bool) (color : ℕ) (app after : NexusApp) : Type 0 where
  pub same_width : after.width ≡ app.width
  pub same_height : after.height ≡ app.height
  pub same_len : after.fb_len ≡ app.fb_len
  pub painted :
      (i j : ℕ)
      → i < app.width
      → j < app.height
      → pixel after i j ≡ (if P i j then color else pixel app i j)

-- What a screen looks like after a function, given each pixel's color before; the size stays.
pub record Shows (picture : ℕ → ℕ → ℕ → ℕ) (app after : NexusApp) : Type 0 where
  pub same_width : after.width ≡ app.width
  pub same_height : after.height ≡ app.height
  pub same_len : after.fb_len ≡ app.fb_len
  pub shown :
      (i j : ℕ) → i < app.width → j < app.height → pixel after i j ≡ picture i j (pixel app i j)

index-fits : (w h x y len : ℕ) → x < w → y < h → w * h * 4 ≤ len → (y * w + x) * 4 + 4 ≤ len
index-fits w h x y len hx hy room =
    let last : y * w + x < w * h = grind arith in omega (arith, last)

same_word : (w i j x y : ℕ) → i < w → x < w → (j * w + i == y * w + x) ≡ ((i == x) && (j == y))
same_word w i j x y hi hx = ground (arith, row-lt w i j x y hi, row-lt w x y i j hx)

-- The pixel of a screen that a store changes.
pixel-store :
    (app : NexusApp) (x y i j color : ℕ)
    → x < app.width
    → i < app.width
    → pixel (store app ((y * app.width + x) * 4) color) i j
      ≡ (if (i == x) && (j == y) then color else pixel app i j)
pixel-store app x y i j color hx hi =
    let word : (y * app.width + x) * 4 / 4 ≡ y * app.width + x = omega arith in
    ap (λ k. if j * app.width + i == k then color else pixel app i j) word
    ∙ ap (λ b. if b then color else pixel app i j) (same_word app.width i j x y hi hx)

module _ (color : ℕ) where
  pub set_pixel-Paints :
      (app : NexusApp) (x y : ℤ)
      → app.width * app.height * 4 ≤ app.fb_len
      → Paints (λ i j. covers x 1 i && covers y 1 j) color app (set_pixel app x y color)
  unfolding set_pixel
  set_pixel-Paints app (negsuc x) y room = record {
    same_width = refl;
    same_height = refl;
    same_len = refl;
    painted = λ i j hi hj. ground arith;
  }
  set_pixel-Paints app (pos x) (negsuc y) room = record {
    same_width = refl;
    same_height = refl;
    same_len = refl;
    painted = λ i j hi hj. ground arith;
  }
  set_pixel-Paints app (pos x) (pos y) room = record {
    same_width = ground arith;
    same_height = ground arith;
    same_len = ground arith;
    painted = λ i j hi hj.
        ground
          (arith, pixel-store app x y i j color, index-fits app.width app.height x y app.fb_len);
  }

  pub Paints-then :
      {P Q R : ℕ → ℕ → Bool} {a b c : NexusApp}
      → ((i j : ℕ) → R i j ≡ (P i j || Q i j))
      → Paints P color a b
      → Paints Q color b c
      → Paints R color a c
  Paints-then {P} {Q} {R} {a} {b} {c} either p q = record {
    same_width = q.same_width ∙ p.same_width;
    same_height = q.same_height ∙ p.same_height;
    same_len = q.same_len ∙ p.same_len;
    painted = λ i j hi hj. ground (
      arith,
      either i j,
      p.painted i j hi hj,
      q.painted i j (rw (p.same_width) hi) (rw (p.same_height) hj),
    );
  }

  covers-suc : (x : ℤ) (n i : ℕ) → covers x (suc n) i ≡ (covers x 1 i || covers (next x) n i)
  covers-suc (pos x) n i = ground arith
  covers-suc (negsuc zero) n i = ground arith
  covers-suc (negsuc (suc x)) n i = ground arith

  covers-zero : (x : ℤ) (i : ℕ) → covers x 0 i ≡ false
  covers-zero (pos x) i = ground arith
  covers-zero (negsuc x) i = ground arith

  pub room_after :
      {P : ℕ → ℕ → Bool} {a b : NexusApp}
      → Paints P color a b
      → a.width * a.height * 4 ≤ a.fb_len
      → b.width * b.height * 4 ≤ b.fb_len
  room_after p room = rw (p.same_width, p.same_height, p.same_len) room

  fill_row-Paints :
      (w : ℕ) (app : NexusApp) (x y : ℤ)
      → app.width * app.height * 4 ≤ app.fb_len
      → Paints (λ i j. covers x w i && covers y 1 j) color app (fill_row app x y w color)
  unfolding fill_row
  fill_row-Paints zero app x y room = record {
    same_width = refl;
    same_height = refl;
    same_len = refl;
    painted = λ i j hi hj. ground (arith, covers-zero x i);
  }
  fill_row-Paints (suc w) app x y room =
      let first = set_pixel-Paints app x y room in
      Paints-then (λ i j. ground (arith, covers-suc x w i)) first
        (fill_row-Paints w (set_pixel app x y color) (next x) y (room_after first room))

  fill_rows-Paints :
      (h : ℕ) (app : NexusApp) (x y : ℤ) (w : ℕ)
      → app.width * app.height * 4 ≤ app.fb_len
      → Paints (λ i j. covers x w i && covers y h j) color app (fill_rows app x y w h color)
  unfolding fill_rows
  fill_rows-Paints zero app x y w room = record {
    same_width = refl;
    same_height = refl;
    same_len = refl;
    painted = λ i j hi hj. ground (arith, covers-zero y j);
  }
  fill_rows-Paints (suc h) app x y w room =
      let first = fill_row-Paints w app x y room in
      Paints-then (λ i j. ground (arith, covers-suc y h j)) first
        (fill_rows-Paints h (fill_row app x y w color) x (next y) w (room_after first room))

  -- On a buffer that has all pixels of the screen, `fillRect` paints exactly the pixels of the
  -- screen that lie in the rectangle, and no others, also if it begins outside of the screen or has
  -- a negative size.
  pub fill_rect-Paints :
      (app : NexusApp) (x y w h : ℤ)
      → app.width * app.height * 4 ≤ app.fb_len
      → Paints
          (λ i j. covers x (rounds w) i && covers y (rounds h) j)
          color
          app
          (fill_rect app x y w h color)
  unfolding fill_rect
  fill_rect-Paints app x y w h room = fill_rows-Paints (rounds h) app x y (rounds w) room

-- A word that does not end within the buffer is never written.
module _ (i : ℕ) where
  set_pixel-beyond :
      (app : NexusApp) (x y : ℤ) (color : ℕ)
      → app.fb_len < i * 4 + 4
      → ((set_pixel app x y color).fb_data i ≡ app.fb_data i)
        × ((set_pixel app x y color).fb_len ≡ app.fb_len)
  unfolding set_pixel
  set_pixel-beyond app (negsuc x) y color h = (refl, refl)
  set_pixel-beyond app (pos x) (negsuc y) color h = (refl, refl)
  set_pixel-beyond app (pos x) (pos y) color h = (ground arith, ground arith)

  fill_row-beyond :
      (w : ℕ) (app : NexusApp) (x y : ℤ) (color : ℕ)
      → app.fb_len < i * 4 + 4
      → ((fill_row app x y w color).fb_data i ≡ app.fb_data i)
        × ((fill_row app x y w color).fb_len ≡ app.fb_len)
  unfolding fill_row
  fill_row-beyond zero app x y color h = (refl, refl)
  fill_row-beyond (suc w) app x y color h =
      let first = set_pixel-beyond app x y color h in
      let later = fill_row-beyond w (set_pixel app x y color) (next x) y color (rw (first.1) h) in
      (later.0 ∙ first.0, later.1 ∙ first.1)

  fill_rows-beyond :
      (n : ℕ) (app : NexusApp) (x y : ℤ) (w color : ℕ)
      → app.fb_len < i * 4 + 4
      → (fill_rows app x y w n color).fb_data i ≡ app.fb_data i
  unfolding fill_rows
  fill_rows-beyond zero app x y w color h = refl
  fill_rows-beyond (suc n) app x y w color h =
      let first = fill_row-beyond w app x y color h in
      fill_rows-beyond n (fill_row app x y w color) x (next y) w color (rw (first.1) h) ∙ first.0

  -- Whatever the length of the buffer, `fillRect` writes no word that is not wholly within it.
  pub fill_rect-beyond :
      (app : NexusApp) (x y w h : ℤ) (color : ℕ)
      → app.fb_len < i * 4 + 4
      → (fill_rect app x y w h color).fb_data i ≡ app.fb_data i
  unfolding fill_rect
  fill_rect-beyond app x y w h color = fill_rows-beyond (rounds h) app x y (rounds w) color
