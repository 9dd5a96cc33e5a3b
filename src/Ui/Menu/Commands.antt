-- ===== src/Ui/Menu/Commands.antt =====
-- Which command the radial menu returns: internal/ui/menu.go.
use crom_spirit_iso.Prelude.{
  ℕ, zero, suc, ◌+◌, ◌<◌, ◌≡◌, ◌≢◌, refl, ◌∙◌, ap, subst, Bool, true, false, Option, none, some,
  List, [], ◌∷◌, get_elem?, arith, Bool-cases, inl, inr, ◌⊎◌,
}
use crom_spirit_iso.Prelude.Text.{Bytes}
use crom_spirit_iso.Ui.{Float, Vector}
use crom_spirit_iso.Ui.Menu.{
  MenuItem, RadialMenu, full_amount, animate, is_near, hover_loop, update_menu,
}

module _ {F : Type 0} (float : Float F) (times : F → F → F) (direction : ℕ → ℕ → Vector F)
    (distance : Vector F → Vector F → F) where
  -- The first item from the `i`-th on that the mouse is near to.
  abbrev pub IsChosen : RadialMenu F → Vector F → ℕ → List MenuItem → Option ℕ × Bytes → Type 0
  IsChosen m mouse i items (hovered, command) =
      (j : ℕ) × (it : MenuItem) × (get_elem? items j ≡ some it)
      × (hovered ≡ some (i + j))
      × (command ≡ it.command)
      × (is_near float times direction distance m mouse (i + j) ≡ true)
      × ((k : ℕ) → k < j → is_near float times direction distance m mouse (i + k) ≡ false)

  module _ (m : RadialMenu F) (mouse : Vector F) where
    hover_loop-unclicked :
        (i : ℕ)
        → (items : List MenuItem) → (hovered : Option ℕ)
        → (hover_loop float times direction distance m mouse false i items hovered).1 ≡ []
    unfolding hover_loop
    hover_loop-unclicked i [] hovered = refl
    hover_loop-unclicked i (it ∷ items) hovered = ground (
      arith,
      hover_loop-unclicked (i + 1) items hovered,
      hover_loop-unclicked (i + 1) items (some i),
    )

    abbrev near : ℕ → Bool
    near = is_near float times direction distance m mouse

    abbrev IsResult : ℕ → List MenuItem → Option ℕ × Bytes → Type 0
    IsResult i items r = (r.1 ≡ []) ⊎ IsChosen m mouse i items r

    far_before :
        (i j : ℕ)
        → near i ≡ false
        → ((k : ℕ) → k < j → near (i + 1 + k) ≡ false)
        → (k : ℕ) → k < suc j
        → near (i + k) ≡ false
    far_before i j far before zero h = subst (λ n. near n ≡ false) (omega arith) far
    far_before i j far before (suc k) h =
        subst (λ n. near n ≡ false) (omega arith) (before k (omega arith))

    -- An item further on is chosen, for the one in front is too far.
    IsResult-cons :
        (i : ℕ)
        → (it : MenuItem) → (items : List MenuItem) → (r : Option ℕ × Bytes) → near i ≡ false
        → IsResult (i + 1) items r
        → IsResult i (it ∷ items) r
    IsResult-cons i it items r far (inl empty) = inl empty
    IsResult-cons i it items r far (inr (j, jt, e, hovered, command, here, before)) =
        let next : (k : ℕ) → i + 1 + k ≡ i + suc k = λ k. omega arith in
        inr (
          suc j,
          jt,
          e,
          hovered ∙ ap some (next j),
          command,
          subst (λ n. near n ≡ true) (next j) here,
          far_before i j far before,
        )

    hover_loop-clicked :
        (i : ℕ)
        → (items : List MenuItem) → (hovered : Option ℕ)
        → IsResult i items (hover_loop float times direction distance m mouse true i items hovered)
    unfolding hover_loop
    hover_loop-clicked i [] hovered = inl refl
    hover_loop-clicked i (it ∷ items) hovered = elim (Bool-cases (near i)) [
      | inl here ↦
          let here' : near (i + 0) ≡ true = subst (λ n. near n ≡ true) (omega arith) here in
          let found =
            hover_loop float times direction distance m mouse true i (it ∷ items) hovered in
          let e : (some i, it.command) ≡ found = rw (here, hover_loop) refl in
          subst (IsResult i (it ∷ items)) e (
            inr (
              0,
              it,
              refl,
              ap some {x = i} (omega arith),
              refl,
              here',
              λ k h. absurd (omega arith),
            ))
      | inr far ↦
          let r = hover_loop float times direction distance m mouse true (i + 1) items hovered in
          let found =
            hover_loop float times direction distance m mouse true i (it ∷ items) hovered in
          let e : r ≡ found = rw (far, hover_loop) refl in
          subst (IsResult i (it ∷ items)) e
            (IsResult-cons i it items r far (hover_loop-clicked (i + 1) items hovered))
    ]

  hover_loop-IsChosen :
      (m : RadialMenu F)
      → (mouse : Vector F) → (click : Bool)
      → let r = hover_loop float times direction distance m mouse click 0 m.items none in
        r.1 ≢ [] → (click ≡ true) × IsChosen m mouse 0 m.items r
  hover_loop-IsChosen m mouse false h = absurd (h (hover_loop-unclicked m mouse 0 m.items none))
  hover_loop-IsChosen m mouse true h = elim (hover_loop-clicked m mouse 0 m.items none) [
    | inl empty ↦ absurd (h empty)
    | inr chosen ↦ (refl, chosen)
  ]

  -- The conditions for a command, on the menu that an update leaves.
  abbrev IsJustified : RadialMenu F → Vector F → Bool → RadialMenu F × Bytes → Type 0
  IsJustified m mouse click (after, command) =
      command ≢ []
      → (click ≡ true)
        × (float.at_most (full_amount float) after.open_amount ≡ true)
        × IsChosen (animate float m) mouse 0 after.items (after.hovered_item, command)

  update_menu-IsJustified :
      (m : RadialMenu F)
      → (mouse : Vector F) → (click : Bool)
      → IsJustified m mouse click (update_menu float times direction distance m mouse click)
  unfolding update_menu
  update_menu-IsJustified m mouse click =
      let a = animate float m in
      let (hovered, command) =
        hover_loop float times direction distance a mouse click 0 a.items none in
      elim (Bool-cases (float.at_most (full_amount float) a.open_amount)) [
        | inl full ↦
            let e : (record a { hovered_item = hovered }, command)
                ≡ update_menu float times direction distance m mouse click =
              rw (full, update_menu) refl in
            subst (IsJustified m mouse click) e (λ h.
              let (clicked, chosen) = hover_loop-IsChosen a mouse click h in
              (clicked, full, chosen))
        | inr partly ↦
            let e : (record a { hovered_item = none }, [])
                ≡ update_menu float times direction distance m mouse click =
              rw (partly, update_menu) refl in
            subst (IsJustified m mouse click) e (λ h. absurd (h refl))
      ]

  -- A command that the menu returns is that of the first item that the mouse is near to, which is the
  -- hovered one then, and it is returned only if the button is pressed and the menu is fully open.
  pub update_menu-IsChosen :
      (m : RadialMenu F)
      → (mouse : Vector F) → (click : Bool)
      → (update_menu float times direction distance m mouse click).1 ≢ []
      → let (after, command) = update_menu float times direction distance m mouse click in
        (click ≡ true)
        × (float.at_most (full_amount float) after.open_amount ≡ true)
        × IsChosen (animate float m) mouse 0 after.items (after.hovered_item, command)
  update_menu-IsChosen = update_menu-IsJustified
