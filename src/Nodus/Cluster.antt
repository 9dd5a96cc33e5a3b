-- ===== src/Nodus/Cluster.antt =====
-- Several nodes of internal/nodus that send one another their files: what `BroadcastFile` and
-- `sendFileToPeer` put on the way, and what `handleFileBroadcast` makes of it.
--
-- Each node is a system of System.antt, or none once one of its handlers has panicked: what such a
-- node does further is not modelled. Each message goes by a goroutine of its own, which opens a stream
-- or cannot, and reads the file's slice when it runs: until then a later write in place changes what
-- it sends. Messages arrive in any order, or not at all. Of the bytes of a message, the first `Read`
-- returns some number, at most 1024. What else a node is asked by its peers, and what they answer it,
-- is free.
pub mod Pending
pub mod Delivery
pub mod Untouched
pub mod Replicas
use crom_spirit_iso.Prelude.{
  ℕ, Bool, ◌++◌, Option, none, some, List, [], ◌∷◌, map, min, ite, get_elem?, set, take, drop,
}
use crom_spirit_iso.Prelude.Text.{Bytes, Bytes_discrete}
use crom_spirit_iso.Nodus.Slice.{Slice}
use crom_spirit_iso.Nodus.Node.{Node, contents, PeerId, broadcast_file, send_file}
use crom_spirit_iso.Nodus.Fuse.{File, write}
use crom_spirit_iso.Nodus.System
use crom_spirit_iso.Nodus.System.{System, started, written, broadcast}

-- `waiting p q name s`: the goroutine of `p` that sends `q` the file of the slice `s` has not written
-- its stream yet. `on_way q parts`: the writes on a stream to `q`. `gone`: arrived, or lost.
pub data Message : Type 0 where
  waiting : PeerId → PeerId → Bytes → Slice → Message
  on_way : PeerId → List Bytes → Message
  gone : Message

pub record Cluster : Type 0 where
  pub systems : PeerId → Option System
  pub pending : List Message

abbrev pub initial : Cluster
initial = record { systems = λ p. some started; pending = [] }

-- `goes i opens`: the goroutine of the message runs, and can open a stream or not. `delivered i k`:
-- the first `Read` of the message returns `k` bytes, or 1024 if `k` is more.
pub data Event : Type 0 where
  at : PeerId → System.Event → Event
  goes : ℕ → Bool → Event
  delivered : ℕ → ℕ → Event
  lost : ℕ → Event

abbrev pub update : {A : Type 0} → PeerId → A → (PeerId → A) → PeerId → A
update p a f q = ite (Bytes_discrete p q) a (f q)

abbrev pub stream_bytes : List Bytes → Bytes
stream_bytes [] = []
stream_bytes (s ∷ ss) = s ++ stream_bytes ss

-- The first `Read` of a message of `k` bytes or more, and what it leaves.
abbrev pub arrival : ℕ → Bytes → System.Event
arrival k stream = broadcast (some (take (min k 1024) stream)) (drop (min k 1024) stream)

abbrev pub waiting_for : PeerId → PeerId × Bytes × Slice → Message
waiting_for p (q, name, t) = waiting p q name t

-- The goroutines of the broadcast that a write starts, with the peers that it finds connected.
abbrev pub messages_of :
    PeerId → List PeerId → Option (Node × File × ℕ × (Bytes × Slice)) → List Message
messages_of p peers none = []
messages_of p peers (some r) = map (waiting_for p) (broadcast_file peers r.3.0 r.3.1)

abbrev pub message_to : PeerId → Option (List Bytes) → Message
message_to q none = gone
message_to q (some parts) = on_way q parts

-- What the goroutine writes, from the memory as it is then.
abbrev pub streamed : Option System → Bool → PeerId → Bytes → Slice → Message
streamed none opens q name t = gone
streamed (some s) opens q name t = message_to q (send_file opens name (contents s.node.arrays t))

abbrev pub streamed_if : Cluster → ℕ → Bool → Option Message → Cluster
streamed_if c i opens (some (waiting p q name t)) = record c {
  pending = set c.pending i (streamed (c.systems p) opens q name t);
}
streamed_if c i opens _ = c

module _ (sha256 : Bytes → Bytes) (limit : ℕ) where
  abbrev pub sent_on : PeerId → System → List PeerId → ℕ → Bytes → Option File → List Message
  sent_on p s peers offset b none = []
  sent_on p s peers offset b (some f) = messages_of p peers (write limit s.node f offset b)

  -- What a node sends: only `Write` calls `BroadcastFile`.
  unfoldable pub sent : PeerId → System → System.Event → List Message
  sent p s (written peers i offset b) = sent_on p s peers offset b (get_elem? s.files i)
  sent p s _ = []

  abbrev pub sent_if : PeerId → Option System → System.Event → List Message
  sent_if p none e = []
  sent_if p (some s) e = sent p s e

  abbrev pub stepped : Option System → System.Event → Option System
  stepped none e = none
  stepped (some s) e = System.step sha256 limit s e

  -- A message reaches its peer, where `handleFileBroadcast` runs, and is gone.
  abbrev pub handed_over : Cluster → ℕ → ℕ → Option Message → Cluster
  handed_over c i k (some (on_way q parts)) = record {
    systems = update q (stepped (c.systems q) (arrival k (stream_bytes parts))) c.systems;
    pending = set c.pending i gone;
  }
  handed_over c i k _ = c

  unfoldable pub step : Cluster → Event → Cluster
  unfolding sent
  step c (at p e) = record {
    systems = update p (stepped (c.systems p) e) c.systems;
    pending = c.pending ++ sent_if p (c.systems p) e;
  }
  step c (goes i opens) = streamed_if c i opens (get_elem? c.pending i)
  step c (delivered i k) = handed_over c i k (get_elem? c.pending i)
  step c (lost i) = record c { pending = set c.pending i gone }

  -- What any events lead to, the last one first.
  unfoldable pub reached : List Event → Cluster
  reached [] = initial
  reached (e ∷ earlier) = step (reached earlier) e
