-- ===== src/Nodus/Cluster/Delivery.antt =====
-- What a node of internal/nodus has after a message of another one has arrived.
use crom_spirit_iso.Prelude.{
  ℕ, Bool, ◌≤◌, ◌<◌, ◌≡◌, refl, ◌∙◌, ap, subst, sym, Option, none, some, List, [], ◌∷◌, ◌++◌, arith,
  min, ite, if_pos, length, get_elem?, sign_bit, take-length-append, drop-length-append,
}
use mathlib.Core.List.{append-nil}
use crom_spirit_iso.Prelude.Text.{Bytes, Bytes_discrete}
use crom_spirit_iso.Nodus.Cache.{Key}
use crom_spirit_iso.Nodus.Node.{PeerId, Exchange, broadcast_header, file_parts}
use crom_spirit_iso.Nodus.Node.Parse.{IsWord}
use crom_spirit_iso.Nodus.Node.Transfer.{stored, handle_file_broadcast-send}
use crom_spirit_iso.Nodus.Fuse.{lookup}
use crom_spirit_iso.Nodus.Fuse.Handles.{looked_up}
use crom_spirit_iso.Nodus.Fuse.Found.{looked_up-stored}
use crom_spirit_iso.Nodus.System
use crom_spirit_iso.Nodus.System.{System, broadcast, after_broadcast}
use crom_spirit_iso.Nodus.System.Sound
use crom_spirit_iso.Nodus.System.Moves.{IsSound}
use crom_spirit_iso.Nodus.System.Sound.{IsSoundIfAny, started-IsSound}
use crom_spirit_iso.Nodus.Cluster.{
  Cluster, Message, waiting, on_way, gone, Event, at, goes, delivered, streamed_if, lost, update,
  stream_bytes, arrival, stepped, handed_over, step, reached,
}

pub update_self : {A : Type 0} (p : PeerId) (a : A) (f : PeerId → A) → update p a f p ≡ a
update_self p a f = if_pos (Bytes_discrete p p) refl a (f p)

-- Writing a stream changes no node.
pub streamed_if-systems :
    (c : Cluster) (i : ℕ) (opens : Bool) (p : PeerId) (m : Option Message)
    → (streamed_if c i opens m).systems p ≡ c.systems p
streamed_if-systems c i opens p none = refl
streamed_if-systems c i opens p (some gone) = refl
streamed_if-systems c i opens p (some (on_way q parts)) = refl
streamed_if-systems c i opens p (some (waiting r q name t)) = refl

module _ (sha256 : Bytes → Bytes) (limit : ℕ) where
  stepped-IsSound :
      (o : Option System) (e : System.Event)
      → IsSoundIfAny o
      → IsSoundIfAny (stepped sha256 limit o e)
  stepped-IsSound none e h = tt
  stepped-IsSound (some s) e h = Sound.step-IsSound s h sha256 limit e

  update-IsSound :
      (p q : PeerId) (o : Option System) (f : PeerId → Option System)
      → IsSoundIfAny o
      → IsSoundIfAny (f q)
      → IsSoundIfAny (update p o f q)
  update-IsSound p q o f h h' = elim (Bytes_discrete p q) as (λ d. IsSoundIfAny (ite d o (f q))) [
    | yes e ↦ h
    | no ne ↦ h'
  ]

  handed_over-IsSound :
      (c : Cluster) (i k : ℕ) (m : Option Message)
      → ((p : PeerId) → IsSoundIfAny (c.systems p))
      → (p : PeerId) → IsSoundIfAny ((handed_over sha256 limit c i k m).systems p)
  handed_over-IsSound c i k none h p = h p
  handed_over-IsSound c i k (some gone) h p = h p
  handed_over-IsSound c i k (some (waiting r q name t)) h p = h p
  handed_over-IsSound c i k (some (on_way q parts)) h p =
      let e = arrival k (stream_bytes parts) in
      update-IsSound q p (stepped sha256 limit (c.systems q) e) c.systems
        (stepped-IsSound (c.systems q) e (h q)) (h p)

  step-IsSound :
      (c : Cluster) (e : Event)
      → ((p : PeerId) → IsSoundIfAny (c.systems p))
      → (p : PeerId) → IsSoundIfAny ((step sha256 limit c e).systems p)
  unfolding step
  step-IsSound c (at q e) h p =
      update-IsSound q p (stepped sha256 limit (c.systems q) e) c.systems
        (stepped-IsSound (c.systems q) e (h q)) (h p)
  step-IsSound c (goes i opens) h p =
      subst IsSoundIfAny (sym (streamed_if-systems c i opens p (get_elem? c.pending i))) (h p)
  step-IsSound c (delivered i k) h p = handed_over-IsSound c i k (get_elem? c.pending i) h p
  step-IsSound c (lost i) h p = h p

  -- Whatever happened to the nodes and their messages, each node that still runs is sound.
  pub reached-IsSound :
      (es : List Event) (p : PeerId) → IsSoundIfAny ((reached sha256 limit es).systems p)
  unfolding reached
  reached-IsSound [] p = started-IsSound
  reached-IsSound (e ∷ earlier) p =
      step-IsSound (reached sha256 limit earlier) e (reached-IsSound earlier) p

  -- What a lookup at a node finds, and nothing at one that does not run.
  abbrev pub found_at :
      (PeerId → Bytes → Exchange) → List PeerId → Key → Option System → Option Bytes
  found_at exchange peers name none = none
  found_at exchange peers name (some s) = looked_up (lookup sha256 exchange peers s.node name)

  -- The length of what announces a file.
  abbrev pub header_length : Key → Bytes → ℕ
  header_length name content = length (broadcast_header name (length content))

  arrival-file_parts :
      (name : Key) (content : Bytes)
      → header_length name content ≤ 1024
      → arrival (header_length name content) (stream_bytes (file_parts name content))
        ≡ broadcast (some (broadcast_header name (length content))) content
  arrival-file_parts name content fits =
      let header = broadcast_header name (length content) in
      let whole : min (length header) 1024 ≡ length header = omega arith in
      rw whole (
        rw
          (
            take-length-append header (content ++ []),
            drop-length-append header (content ++ []),
            append-nil content,
          )
          refl)

  received :
      (s : System) (x : ℕ) (t content : Bytes)
      → IsWord (x ∷ t)
      → length content < sign_bit
      → length content ≤ limit
      → System.step sha256 limit s
          (broadcast (some (broadcast_header (x ∷ t) (length content))) content)
        ≡ some (record s { node = stored s.node (x ∷ t) content })
  unfolding System.step
  received s x t content word small fits =
      ap (after_broadcast s) (handle_file_broadcast-send limit s.node x t content word small fits)

  handed_over-systems :
      (c : Cluster) (i k : ℕ) (q : PeerId) (parts : List Bytes) (s : System)
      → c.systems q ≡ some s
      → (handed_over sha256 limit c i k (some (on_way q parts))).systems q
        ≡ stepped sha256 limit (some s) (arrival k (stream_bytes parts))
  handed_over-systems c i k q parts s runs =
      update_self q (stepped sha256 limit (c.systems q) (arrival k (stream_bytes parts))) c.systems
      ∙ ap (λ o. stepped sha256 limit o (arrival k (stream_bytes parts))) runs

  -- A message that is on the way to a node that runs, and whose first read returns just what
  -- announces the file, is stored whole.
  pub stored-delivered :
      (c : Cluster) (i : ℕ) (q : PeerId) (s : System) (x : ℕ) (t content : Bytes)
      → get_elem? c.pending i ≡ some (on_way q (file_parts (x ∷ t) content))
      → c.systems q ≡ some s
      → IsWord (x ∷ t)
      → length content < sign_bit
      → length content ≤ limit
      → header_length (x ∷ t) content ≤ 1024
      → (step sha256 limit c (delivered i (header_length (x ∷ t) content))).systems q
        ≡ some (record s { node = stored s.node (x ∷ t) content })
  unfolding step
  stored-delivered c i q s x t content there runs word small fits short =
      let k = header_length (x ∷ t) content in
      let parts = file_parts (x ∷ t) content in
      ap (λ m. (handed_over sha256 limit c i k m).systems q) there
      ∙ handed_over-systems c i k q parts s runs
      ∙ ap (stepped sha256 limit (some s)) (arrival-file_parts (x ∷ t) content short)
      ∙ received s x t content word small fits

  -- The node then finds the file's bytes, whatever its peers have.
  pub found_at-stored :
      (s : System) (o : Option System) (name : Key) (content : Bytes)
      (exchange : PeerId → Bytes → Exchange) (peers : List PeerId)
      → IsSound s
      → o ≡ some (record s { node = stored s.node name content })
      → found_at exchange peers name o ≡ some content
  found_at-stored s o name content exchange peers h e =
      ap (found_at exchange peers name) e
      ∙ looked_up-stored sha256 exchange peers s.node name content (h.node_sound).valid
