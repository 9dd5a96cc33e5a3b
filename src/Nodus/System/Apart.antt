-- ===== src/Nodus/System/Apart.antt =====
-- Files of a node of internal/nodus with different names have their bytes apart.
use crom_spirit_iso.Prelude.{
  ℕ, Option, none, some, List, [], ◌∷◌, ◌++◌, ◌≡◌, ◌≢◌, refl, ◌∙◌, sym, ap, subst, get_elem?,
  Option-cases, inl, inr, arith, length,
}
use crom_spirit_iso.Prelude.Text.{Bytes}
use crom_spirit_iso.Nodus.Slice.{Slice}
use crom_spirit_iso.Nodus.Cache.{Key}
use crom_spirit_iso.Nodus.Node.{contents}
use crom_spirit_iso.Nodus.Fuse.{File}
use crom_spirit_iso.Nodus.System.{System, Event, step, reached}
use crom_spirit_iso.Nodus.System.Grows.{IsOwn}
use crom_spirit_iso.Nodus.System.Moves.{
  IsSound, Moves, file_inside, step-Moves, written_to, or_name, written_to-WritesOnly,
}
use crom_spirit_iso.Nodus.System.Sound.{reached-IsSound_if}

-- A slice of a file of this name in a later state, with the bytes that it had.
abbrev pub Stays : Key → Slice → System → System → Type 0
Stays k t s s' =
    (h : IsSound s') × IsOwn s'.node h.own k t
    × (contents s'.node.arrays t ≡ contents s.node.arrays t)

-- Some name is another one, if the one that is written to is not it.
or_name_other : (k : Key) (o : Option Key) → o ≢ some k → k ≢ or_name (0 ∷ k) o
or_name_other k none h = λ e. omega (arith, ap length e)
or_name_other k (some j) h = λ e. h (ap some (sym e))

abbrev pub written_if : Option System → Event → Option Key
written_if none e = none
written_if (some s) e = written_to s e

module _ (sha256 : Bytes → Bytes) (limit : ℕ) where
  pub step-Stays :
      (s s' : System) (h : IsSound s) (e : Event) (k : Key) (t : Slice)
      → IsOwn s.node h.own k t
      → written_to s e ≢ some k
      → step sha256 limit s e ≡ some s'
      → Stays k t s s'
  step-Stays s s' h e k t inside spared at =
      let w = or_name (0 ∷ k) (written_to s e) in
      let (own', g, files) =
        subst (Moves w s h.own) at
          (step-Moves w s h sha256 limit e (written_to-WritesOnly (0 ∷ k) s e)) in
      (
        record { own = own'; node_sound = g.sound; files_inside = files },
        g.kept k t inside,
        g.same k t inside (or_name_other k (written_to s e) spared),
      )

  -- None of the later events writes to a file of this name.
  abbrev pub Spares : Key → List Event → List Event → Type 0
  Spares k [] es = Unit
  Spares k (e ∷ es') es =
      (written_if (reached sha256 limit (es' ++ es)) e ≢ some k) × Spares k es' es

  reached-Stays :
      (es' es : List Event) (s s' : System) (h : IsSound s) (k : Key) (t : Slice)
      → reached sha256 limit es ≡ some s
      → IsOwn s.node h.own k t
      → Spares k es' es
      → reached sha256 limit (es' ++ es) ≡ some s'
      → Stays k t s s'
  unfolding reached
  reached-Stays [] es s s' h k t at inside spares at' =
      let same : s ≡ s' = cc in subst (Stays k t s) same (h, inside, refl)
  reached-Stays (e ∷ es') es s s' h k t at inside spares at' =
      elim (Option-cases (reached sha256 limit (es' ++ es))) [
        | inl gone ↦ let none_left = rw gone at at' in absurd (cc)
        | inr (r, at_r) ↦
            let (h_r, inside_r, same_r) = reached-Stays es' es s r h k t at inside spares.1 at_r in
            let (h', inside', same') =
              step-Stays r s' h_r e k t inside_r
                (λ there. spares.0 (ap (λ o. written_if o e) at_r ∙ there)) (rw at_r at at') in
            (h', inside', same' ∙ same_r)
      ]

  -- The bytes of an open file's slice stay as they are as long as no file of its name is written to,
  -- whatever else happens: a write to a file of another name, a lookup, a change of size, a stream or
  -- a broadcast of any name.
  pub contents-apart :
      (es' es : List Event) (s s' : System) (j : ℕ) (g : File)
      → reached sha256 limit es ≡ some s
      → get_elem? s.files j ≡ some g
      → Spares g.name es' es
      → reached sha256 limit (es' ++ es) ≡ some s'
      → contents s'.node.arrays g.view ≡ contents s.node.arrays g.view
  contents-apart es' es s s' j g at there spares at' =
      let h = reached-IsSound_if sha256 limit es s at in
      let inside = file_inside s.node h.own s.files j g h.files_inside there in
      (reached-Stays es' es s s' h g.name g.view at inside spares at').2
