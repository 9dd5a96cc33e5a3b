-- ===== src/Ui/Menu/Animation.antt =====
-- How far the radial menu is open, whatever happens: internal/ui/menu.go.
use crom_spirit_iso.Prelude.{
  ℕ, ◌+◌, ◌<◌, ◌≡◌, refl, ◌∙◌, ap, subst, Bool, true, false, Option, none, some, List, [], ◌∷◌,
  length, arith, Bool-cases, inl, inr,
}
use crom_spirit_iso.Ui.{Float, Vector}
use crom_spirit_iso.Ui.Menu.{
  MenuItem, RadialMenu, full_amount, closed_amount, increment, new_radial_menu, toggle, animate,
  is_near, hover_loop, update_menu, Event, toggled, updated, reached,
}

-- An item of a list of that length, or none.
abbrev pub IsBelow : ℕ → Option ℕ → Type 0
IsBelow n none = Unit
IsBelow n (some i) = i < n

module _ {F : Type 0} (float : Float F) where
  -- Neither below 0 nor above 1.
  abbrev pub IsAmount : F → Type 0
  IsAmount a =
      (float.below a (closed_amount float) ≡ false) × (float.below (full_amount float) a ≡ false)

  animate-items : (m : RadialMenu F) → (animate float m).items ≡ m.items
  unfolding animate
  animate-items m = ground arith

  module _ (irreflexive : (a : F) → float.below a a ≡ false)
      (ordered : float.below (full_amount float) (closed_amount float) ≡ false)
      (plus_nonneg : (a : F)
        → float.below a (closed_amount float) ≡ false
        → float.below (float.plus a (increment float)) (closed_amount float) ≡ false)
      (minus_le : (a : F)
        → float.below (full_amount float) a ≡ false
        → float.below (full_amount float) (float.minus a (increment float)) ≡ false) where
    animate-IsAmount :
        (m : RadialMenu F) → IsAmount m.open_amount → IsAmount (animate float m).open_amount
    unfolding animate
    animate-IsAmount m (low, high) = ground (
      arith,
      low,
      high,
      ordered,
      irreflexive (full_amount float),
      irreflexive (closed_amount float),
      plus_nonneg m.open_amount,
      minus_le m.open_amount,
    )

    module _ (times : F → F → F) (direction : ℕ → ℕ → Vector F)
        (distance : Vector F → Vector F → F) where
      hover_loop-IsBelow :
          (m : RadialMenu F)
          → (mouse : Vector F) → (click : Bool) → (i n : ℕ) → (items : List MenuItem)
          → (hovered : Option ℕ) → i + length items ≡ n
          → IsBelow n hovered
          → IsBelow n (hover_loop float times direction distance m mouse click i items hovered).0
      unfolding hover_loop
      hover_loop-IsBelow m mouse click i n [] hovered e h = h
      hover_loop-IsBelow m mouse true i n (it ∷ items) hovered e h =
          let this : i < n = omega arith in
          let far = hover_loop-IsBelow m mouse true (i + 1) n items hovered (omega arith) h in
          elim (Bool-cases (is_near float times direction distance m mouse i)) [
            | inl here ↦ rw (here, hover_loop) this
            | inr away ↦ rw (away, hover_loop) far
          ]
      hover_loop-IsBelow m mouse false i n (it ∷ items) hovered e h =
          let this : i < n = omega arith in
          let far = hover_loop-IsBelow m mouse false (i + 1) n items hovered (omega arith) h in
          let near = hover_loop-IsBelow m mouse false (i + 1) n items (some i) (omega arith) this in
          elim (Bool-cases (is_near float times direction distance m mouse i)) [
            | inl here ↦ rw (here, hover_loop) near
            | inr away ↦ rw (away, hover_loop) far
          ]

      update_menu-IsBelow :
          (m : RadialMenu F)
          → (mouse : Vector F) → (click : Bool)
          → IsBelow
              (length m.items)
              (update_menu float times direction distance m mouse click).0.hovered_item
      unfolding update_menu
      update_menu-IsBelow m mouse click =
          let a = animate float m in
          let below : IsBelow (length m.items)
              (hover_loop float times direction distance a mouse click 0 a.items none).0 =
            hover_loop-IsBelow a mouse click 0 (length m.items) a.items none
              (omega (arith, ap length (animate-items m))) tt in
          elim (Bool-cases (float.at_most (full_amount float) a.open_amount)) [
            | inl full ↦ rw (full, update_menu) below
            | inr partly ↦ rw (partly, update_menu) tt
          ]

      update_menu-items :
          (m : RadialMenu F)
          → (mouse : Vector F) → (click : Bool)
          → let after = (update_menu float times direction distance m mouse click).0 in
            (after.items ≡ m.items) × (after.open_amount ≡ (animate float m).open_amount)
      unfolding update_menu animate
      update_menu-items m mouse click = ground arith

      -- However often it is toggled and updated, the menu keeps its items, is never less than closed
      -- nor more than fully open, and hovers over none of its items or over one that it has: if no
      -- number is below itself, 1 is not below 0, the increment added to a number not below 0 is not
      -- below 0, and 1 is not below a number that it was not below with the increment taken off.
      pub reached-IsAmount :
          (items : List MenuItem)
          → (radius : F) → (es : List (Event F))
          → let m = reached float times direction distance items radius es in
            (m.items ≡ items) × IsAmount m.open_amount × IsBelow (length items) m.hovered_item
      unfolding reached new_radial_menu toggle
      reached-IsAmount items radius [] = (refl, (irreflexive (closed_amount float), ordered), tt)
      reached-IsAmount items radius (toggled center ∷ earlier) =
          reached-IsAmount items radius earlier
      reached-IsAmount items radius (updated mouse click ∷ earlier) =
          let m = reached float times direction distance items radius earlier in
          let (same, amount, hovers) = reached-IsAmount items radius earlier in
          let (kept, animated) = update_menu-items m mouse click in
          let hovered = (update_menu float times direction distance m mouse click).0.hovered_item in
          (
            kept ∙ same,
            rw animated (animate-IsAmount m amount),
            subst (λ l. IsBelow (length l) hovered) same (update_menu-IsBelow m mouse click),
          )
