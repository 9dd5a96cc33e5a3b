-- ===== src/Ui/Clicks.antt =====
-- When the orb says that it was clicked, and how bright it glows: internal/ui/orb.go.
use crom_spirit_iso.Prelude.{◌≡◌, refl, Bool, true, false, not, ◌&&◌, List, [], ◌∷◌}
use crom_spirit_iso.Ui.{Float, Vector, Orb, is_over, update, orb_after}

released :
    (was over click : Bool) → (was && not (over && click) && over) ≡ (was && not click && over)
released false over click = refl
released true false false = refl
released true false true = refl
released true true false = refl
released true true true = refl

module _ {F : Type 0} (float : Float F) (distance : Vector F → Vector F → F) where
  -- The button was down over the orb at the latest update.
  abbrev pub held_over : Orb F → List (Vector F × Bool) → Bool
  held_over o [] = false
  held_over o ((mouse, click) ∷ earlier) = is_over float distance o mouse && click

  orb_after-place :
      (o : Orb F)
      → (us : List (Vector F × Bool))
      → ((orb_after float distance o us).position ≡ o.position)
        × ((orb_after float distance o us).radius ≡ o.radius)
  unfolding orb_after update
  orb_after-place o [] = (refl, refl)
  orb_after-place o ((mouse, click) ∷ earlier) = orb_after-place o earlier

  orb_after-pressed :
      (o : Orb F)
      → (us : List (Vector F × Bool)) → o.pressed ≡ false
      → (orb_after float distance o us).pressed ≡ held_over o us
  unfolding orb_after update
  orb_after-pressed o [] h = h
  orb_after-pressed o ((mouse, click) ∷ earlier) h =
      let (place, radius) = orb_after-place o earlier in rw (place, radius) refl

  -- An orb that starts unpressed is clicked at an update exactly if the button was down over it at the
  -- update before and is now up, the mouse still being over the place where the orb started.
  update-clicked :
      (o : Orb F)
      → (us : List (Vector F × Bool)) → (mouse : Vector F) → (click : Bool) → o.pressed ≡ false
      → (update float distance (orb_after float distance o us) mouse click).1
        ≡ (held_over o us && not click && is_over float distance o mouse)
  unfolding update
  update-clicked o us mouse click h =
      let (place, radius) = orb_after-place o us in
      rw (orb_after-pressed o us h, place, radius)
        (released (held_over o us) (is_over float distance o mouse) click)
