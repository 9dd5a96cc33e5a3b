-- ===== src/Prelude/Splits.antt =====
-- Texts that are split at a byte.
use Prim.Native.Nat.{ℕ}
use mathlib.Core.Path.{◌≡◌, ap, sym, ◌∙◌}
use mathlib.Core.Bool.{false}
use mathlib.Core.List.{[], ◌∷◌, ◌++◌, append-nil, append_assoc}
use crom_spirit_iso.Prelude.Tests.{◌==◌, ==_refl}
use crom_spirit_iso.Prelude.Lists.{All}
use crom_spirit_iso.Prelude.Text.{Bytes}
use crom_spirit_iso.Prelude.Strings.{split_from, split_2_from}

-- A text without a byte.
abbrev pub IsFree : ℕ → Bytes → Type 0
IsFree sep = All (λ b. (b == sep) ≡ false)

pub split_from-append :
    (sep : ℕ) (part t s : Bytes)
    → IsFree sep t
    → split_from sep part (t ++ sep ∷ s) ≡ (part ++ t) ∷ split_from sep [] s
unfolding split_from
split_from-append sep part [] s h =
    rw (==_refl sep) (ap (λ p. p ∷ split_from sep [] s) (sym (append-nil part)))
split_from-append sep part (b ∷ t) s h = rw (h.0) (
    split_from-append sep (part ++ b ∷ []) t s h.1
    ∙ ap (λ p. p ∷ split_from sep [] s) (append_assoc part (b ∷ []) t))

pub split_from-whole :
    (sep : ℕ) (part t : Bytes) → IsFree sep t → split_from sep part t ≡ (part ++ t) ∷ []
unfolding split_from
split_from-whole sep part [] h = ap (λ p. p ∷ []) (sym (append-nil part))
split_from-whole sep part (b ∷ t) h =
    rw (h.0) (
      split_from-whole sep (part ++ b ∷ []) t h.1 ∙ ap (λ p. p ∷ []) (append_assoc part (b ∷ []) t))

pub IsFree-append : (sep : ℕ) (s t : Bytes) → IsFree sep s → IsFree sep t → IsFree sep (s ++ t)
IsFree-append sep [] t h h' = h'
IsFree-append sep (b ∷ s) t h h' = (h.0, IsFree-append sep s t h.1 h')

pub split_2_from-append :
    (sep : ℕ) (part t s : Bytes)
    → IsFree sep t
    → split_2_from sep part (t ++ sep ∷ s) ≡ (part ++ t) ∷ s ∷ []
unfolding split_2_from
split_2_from-append sep part [] s h =
    rw (==_refl sep) (ap (λ p. p ∷ s ∷ []) (sym (append-nil part)))
split_2_from-append sep part (b ∷ t) s h = rw (h.0) (
    split_2_from-append sep (part ++ b ∷ []) t s h.1
    ∙ ap (λ p. p ∷ s ∷ []) (append_assoc part (b ∷ []) t))
