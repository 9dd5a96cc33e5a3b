-- ===== src/Nodus/Cluster/Pending.antt =====
-- Which messages of the nodes of internal/nodus are on the way.
use crom_spirit_iso.Prelude.{
  ℕ, ◌≡◌, ◌≢◌, ◌∙◌, Bool, false, Option, none, some, List, [], ◌∷◌, ◌++◌, ◌==◌, arith, get_elem?,
  All, get_elem?-append_left, get_elem?-set_ne,
}
use crom_spirit_iso.Prelude.Text.{Bytes}
use crom_spirit_iso.Nodus.Cluster.{
  Cluster, Message, waiting, on_way, gone, Event, at, goes, delivered, lost, streamed, streamed_if,
  handed_over, sent_if, step, reached,
}

-- The event is of the message: its stream is written, it arrives, or it is lost.
abbrev pub takes : ℕ → Event → Bool
takes i (at p e) = false
takes i (goes j opens) = j == i
takes i (delivered j k) = j == i
takes i (lost j) = j == i

-- None of the events is of the message.
abbrev pub Leaves : ℕ → List Event → Type 0
Leaves i = All (λ e. takes i e ≡ false)

streamed_if-pending :
    (c : Cluster) (i j : ℕ) (opens : Bool) (at_i : Option Message) (m : Message)
    → i ≢ j
    → get_elem? c.pending j ≡ some m
    → get_elem? (streamed_if c i opens at_i).pending j ≡ some m
streamed_if-pending c i j opens none m h e = e
streamed_if-pending c i j opens (some gone) m h e = e
streamed_if-pending c i j opens (some (on_way q parts)) m h e = e
streamed_if-pending c i j opens (some (waiting p q name t)) m h e =
    get_elem?-set_ne c.pending i j (streamed (c.systems p) opens q name t) h ∙ e

module _ (sha256 : Bytes → Bytes) (limit : ℕ) where
  handed_over-pending :
      (c : Cluster) (i j k : ℕ) (at_i : Option Message) (m : Message)
      → i ≢ j
      → get_elem? c.pending j ≡ some m
      → get_elem? (handed_over sha256 limit c i k at_i).pending j ≡ some m
  handed_over-pending c i j k none m h e = e
  handed_over-pending c i j k (some gone) m h e = e
  handed_over-pending c i j k (some (waiting p q name t)) m h e = e
  handed_over-pending c i j k (some (on_way q parts)) m h e =
      get_elem?-set_ne c.pending i j gone h ∙ e

  step-pending :
      (c : Cluster) (e : Event) (i : ℕ) (m : Message)
      → takes i e ≡ false
      → get_elem? c.pending i ≡ some m
      → get_elem? (step sha256 limit c e).pending i ≡ some m
  unfolding step
  step-pending c (at p e) i m h there =
      get_elem?-append_left c.pending (sent_if sha256 limit p (c.systems p) e) i m there
  step-pending c (goes j opens) i m h there =
      streamed_if-pending c j i opens (get_elem? c.pending j) m (ground (arith, h)) there
  step-pending c (delivered j k) i m h there =
      handed_over-pending c j i k (get_elem? c.pending j) m (ground (arith, h)) there
  step-pending c (lost j) i m h there =
      get_elem?-set_ne c.pending j i gone (ground (arith, h)) ∙ there

  -- A message stays as it is until its stream is written, it arrives, or it is lost.
  pub reached-pending :
      (es' es : List Event) (i : ℕ) (m : Message)
      → Leaves i es'
      → get_elem? (reached sha256 limit es).pending i ≡ some m
      → get_elem? (reached sha256 limit (es' ++ es)).pending i ≡ some m
  unfolding reached
  reached-pending [] es i m h there = there
  reached-pending (e ∷ es') es i m h there =
      step-pending (reached sha256 limit (es' ++ es)) e i m h.0
        (reached-pending es' es i m h.1 there)
