-- ===== src/Nodus/Cluster/Untouched.antt =====
-- The memory of one of several nodes of internal/nodus, while none of its own writes changes a file.
use crom_spirit_iso.Prelude.{
  ℕ, Option, none, some, List, [], ◌∷◌, ◌++◌, ◌≡◌, ◌≢◌, refl, ◌∙◌, sym, ap, subst, ite, get_elem?,
  Option-cases, inl, inr,
}
use crom_spirit_iso.Prelude.Text.{Bytes, Bytes_discrete}
use crom_spirit_iso.Nodus.Slice.{Slice}
use crom_spirit_iso.Nodus.Cache.{Key}
use crom_spirit_iso.Nodus.Node.{PeerId}
use crom_spirit_iso.Nodus.System.{System, Event}
use crom_spirit_iso.Nodus.System
use crom_spirit_iso.Nodus.System.Grows.{IsOwn}
use crom_spirit_iso.Nodus.System.Moves.{IsSound, written_to}
use crom_spirit_iso.Nodus.System.Apart
use crom_spirit_iso.Nodus.System.Apart.{Stays, written_if}
use crom_spirit_iso.Nodus.Cluster
use crom_spirit_iso.Nodus.Cluster.{
  Cluster, Message, waiting, on_way, gone, at, goes, delivered, lost, update, stream_bytes, arrival,
  streamed_if, stepped, handed_over, step, reached,
}
use crom_spirit_iso.Nodus.Cluster.Delivery.{streamed_if-systems}

-- The name of the file that a node writes to in an event, if it does.
abbrev pub written_at : PeerId → Cluster → Cluster.Event → Option Key
written_at p c (at r e) = ite (Bytes_discrete r p) (written_if (c.systems r) e) none
written_at p c _ = none

one_system : {s s' : System} → ◌≡◌ {A = Option System} (some s) (some s') → s ≡ s'
one_system e = cc

module _ (sha256 : Bytes → Bytes) (limit : ℕ) (p : PeerId) (k : Key) where
  -- In none of the later events the node writes to a file of this name.
  abbrev pub SparesAt : List Cluster.Event → List Cluster.Event → Type 0
  SparesAt [] es = Unit
  SparesAt (e ∷ es') es =
      (written_at p (reached sha256 limit (es' ++ es)) e ≢ some k) × SparesAt es' es

  module _ (t : Slice) (s s' : System) (h : IsSound s) (inside : IsOwn s.node h.own k t) where
    same-Stays : s ≡ s' → Stays k t s s'
    same-Stays e = subst (Stays k t s) e (h, inside, refl)

    stepped-Stays :
        (o : Option System) (e : Event)
        → o ≡ some s
        → written_if o e ≢ some k
        → stepped sha256 limit o e ≡ some s'
        → Stays k t s s'
    stepped-Stays none e is_s spared moved = absurd (cc)
    stepped-Stays (some r) e is_s spared moved =
        let same : r ≡ s = cc in
        Apart.step-Stays sha256 limit s s' h e k t inside
          (λ there. spared (ap (λ q. written_to q e) same ∙ there))
          (ap (λ q. System.step sha256 limit q e) (sym same) ∙ moved)

    -- One node, p or another one, is changed by an event.
    update-Stays :
        (q : PeerId) (e : Event) (f : PeerId → Option System)
        → f p ≡ some s
        → ite (Bytes_discrete q p) (written_if (f q) e) none ≢ some k
        → update q (stepped sha256 limit (f q) e) f p ≡ some s'
        → Stays k t s s'
    update-Stays q e f runs =
        elim (Bytes_discrete q p)
          as (λ d.
            ite d (written_if (f q) e) none ≢ some k
            → ite d (stepped sha256 limit (f q) e) (f p) ≡ some s'
            → Stays k t s s') [
              | yes same ↦ λ spared moved. stepped-Stays (f q) e (ap f same ∙ runs) spared moved
              | no other ↦ λ spared moved. same-Stays (one_system (sym runs ∙ moved))
            ]

    unwritten : (o : Option System) (i : ℕ) (b : Bytes) → written_if o (arrival i b) ≡ none
    unwritten none i b = refl
    unwritten (some r) i b = refl

    delivered-spares :
        (q : PeerId) (o : Option System) (i : ℕ) (b : Bytes)
        → ite (Bytes_discrete q p) (written_if o (arrival i b)) none ≢ some k
    delivered-spares q o i b =
        elim (Bytes_discrete q p) as (λ d. ite d (written_if o (arrival i b)) none ≢ some k) [
          | yes same ↦ λ e. let bad = sym (unwritten o i b) ∙ e in absurd (cc)
          | no other ↦ λ e. absurd (cc)
        ]

    handed_over-Stays :
        (c : Cluster) (i n : ℕ) (m : Option Message)
        → c.systems p ≡ some s
        → (handed_over sha256 limit c i n m).systems p ≡ some s'
        → Stays k t s s'
    handed_over-Stays c i n none runs moved = same-Stays (one_system (sym runs ∙ moved))
    handed_over-Stays c i n (some gone) runs moved = same-Stays (one_system (sym runs ∙ moved))
    handed_over-Stays c i n (some (waiting q r name u)) runs moved =
        same-Stays (one_system (sym runs ∙ moved))
    handed_over-Stays c i n (some (on_way q parts)) runs moved =
        update-Stays q (arrival n (stream_bytes parts)) c.systems runs
          (delivered-spares q (c.systems q) n (stream_bytes parts)) moved

    step-Stays :
        (c : Cluster) (e : Cluster.Event)
        → c.systems p ≡ some s
        → written_at p c e ≢ some k
        → (step sha256 limit c e).systems p ≡ some s'
        → Stays k t s s'
    unfolding step
    step-Stays c (at q e) runs spared moved = update-Stays q e c.systems runs spared moved
    step-Stays c (goes i opens) runs spared moved = same-Stays (
        one_system
          (sym runs ∙ sym (streamed_if-systems c i opens p (get_elem? c.pending i)) ∙ moved))
    step-Stays c (delivered i n) runs spared moved =
        handed_over-Stays c i n (get_elem? c.pending i) runs moved
    step-Stays c (lost i) runs spared moved = same-Stays (one_system (sym runs ∙ moved))

  update-none :
      (q : PeerId) (e : Event) (f : PeerId → Option System)
      → f p ≡ none
      → update q (stepped sha256 limit (f q) e) f p ≡ none
  update-none q e f ended =
      elim (Bytes_discrete q p) as (λ d. ite d (stepped sha256 limit (f q) e) (f p) ≡ none) [
        | yes same ↦ ap (λ o. stepped sha256 limit o e) (ap f same ∙ ended)
        | no other ↦ ended
      ]

  handed_over-none :
      (c : Cluster) (i n : ℕ) (m : Option Message)
      → c.systems p ≡ none
      → (handed_over sha256 limit c i n m).systems p ≡ none
  handed_over-none c i n none ended = ended
  handed_over-none c i n (some gone) ended = ended
  handed_over-none c i n (some (waiting q r name u)) ended = ended
  handed_over-none c i n (some (on_way q parts)) ended =
      update-none q (arrival n (stream_bytes parts)) c.systems ended

  -- A node whose process has ended stays so.
  step-none :
      (c : Cluster) (e : Cluster.Event)
      → c.systems p ≡ none
      → (step sha256 limit c e).systems p ≡ none
  unfolding step
  step-none c (at q e) ended = update-none q e c.systems ended
  step-none c (goes i opens) ended = streamed_if-systems c i opens p (get_elem? c.pending i) ∙ ended
  step-none c (delivered i n) ended = handed_over-none c i n (get_elem? c.pending i) ended
  step-none c (lost i) ended = ended

  -- What a file's slice has at the node stays as it was.
  pub reached-Stays :
      (es' es : List Cluster.Event) (t : Slice) (s s' : System) (h : IsSound s)
      → (reached sha256 limit es).systems p ≡ some s
      → IsOwn s.node h.own k t
      → SparesAt es' es
      → (reached sha256 limit (es' ++ es)).systems p ≡ some s'
      → Stays k t s s'
  unfolding reached
  reached-Stays [] es t s s' h runs inside spares moved =
      same-Stays t s s' h inside (one_system (sym runs ∙ moved))
  reached-Stays (e ∷ es') es t s s' h runs inside spares moved =
      let c = reached sha256 limit (es' ++ es) in
      elim (Option-cases (c.systems p)) [
        | inl ended ↦ let still = sym (step-none c e ended) ∙ moved in absurd (cc)
        | inr (r, runs_r) ↦
            let (h_r, inside_r, same_r) =
              reached-Stays es' es t s r h runs inside spares.1 runs_r in
            let (h', inside', same') = step-Stays t r s' h_r inside_r c e runs_r spares.0 moved in
            (h', inside', same' ∙ same_r)
      ]
