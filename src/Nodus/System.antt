-- ===== src/Nodus/System.antt =====
-- A node of internal/nodus in use: the file system's requests (fuse.go), the peers' streams (node.go)
-- and new peers (discovery.go), in any order.
--
-- `files` are the files that the kernel has open. A request names an open file by its place; one that
-- names none does nothing. `none` is a panic of a handler; what may follow one, where the library that
-- called the handler recovers, is not modelled.
pub mod Grows
pub mod Handlers
pub mod Streams
pub mod Moves
pub mod Sound
pub mod Apart
pub mod Writes
use crom_spirit_iso.Prelude.{ℕ, Bool, Option, none, some, List, [], ◌∷◌, get_elem?, set}
use crom_spirit_iso.Prelude.Text.{Bytes}
use crom_spirit_iso.Nodus.Cache.{Key}
use crom_spirit_iso.Nodus.Slice.{Slice}
use crom_spirit_iso.Nodus.Node.{
  Node, new_node, PeerId, AddrInfo, Exchange, Served, file, nothing, panicked, handle_file_request,
  handle_file_broadcast, connect_to_peer,
}
use crom_spirit_iso.Nodus.Fuse.{File, lookup, create, remove, read_all, write, flush, setattr}

pub record System : Type 0 where
  pub node : Node
  pub files : List File

abbrev pub started : System
started = record { node = new_node; files = [] }

-- A request carries what the peers have to do with it: who is connected, what they answer, and the
-- bytes that a stream's reads return.
pub data Event : Type 0 where
  looked_up : (PeerId → Bytes → Exchange) → List PeerId → Key → Event
  listed : Event
  created removed : Key → Event
  read : ℕ → Event
  written : List PeerId → ℕ → ℕ → Bytes → Event
  flushed : ℕ → Event
  resized : ℕ → Option ℕ → Event
  requested : Option Bytes → Event
  broadcast : Option Bytes → Bytes → Event
  connected : Bool → PeerId → AddrInfo → Event

-- A file that a lookup found is opened.
abbrev pub opened : Node × Option File → System → System
opened (n, none) s = record s { node = n }
opened (n, some f) s = record { node = n; files = f ∷ s.files }

-- A request on an open file replaces it, as the source changes it in place.
abbrev pub after_change : System → ℕ → Option (Node × File) → Option System
after_change s i none = none
after_change s i (some (n, f)) = some (record { node = n; files = set s.files i f })

abbrev pub with_file : System → ℕ → Option File → (File → Option (Node × File)) → Option System
with_file s i none act = some s
with_file s i (some f) act = after_change s i (act f)

abbrev pub on_file : System → ℕ → (File → Option (Node × File)) → Option System
on_file s i = with_file s i (get_elem? s.files i)

abbrev pub written_file : Option (Node × File × ℕ × (Bytes × Slice)) → Option (Node × File)
written_file none = none
written_file (some r) = some (r.0, r.1)

-- The panic of a stream's handler.
abbrev pub after_request : System → Node × Served → Option System
after_request s (n, panicked) = none
after_request s (n, _) = some (record s { node = n })

abbrev pub after_broadcast : System → Option Node → Option System
after_broadcast s none = none
after_broadcast s (some n) = some (record s { node = n })

module _ (sha256 : Bytes → Bytes) (limit : ℕ) where
  unfoldable pub step : System → Event → Option System
  step s (looked_up exchange peers name) =
      some (opened (lookup sha256 exchange peers s.node name) s)
  step s listed = some s
  step s (created name) =
      let (n, f) = create sha256 s.node name in some (record { node = n; files = f ∷ s.files })
  step s (removed name) = some (record s { node = (remove s.node name).0 })
  step s (read i) = on_file s i (λ f. let r = read_all s.node f in some (r.0, r.1))
  step s (written peers i offset b) =
      on_file s i (λ f. written_file (write limit s.node f offset b))
  step s (flushed i) = on_file s i (λ f. some (flush s.node f, f))
  step s (resized i size) = on_file s i (λ f. setattr limit s.node f size)
  step s (requested chunk) = after_request s (handle_file_request s.node chunk)
  step s (broadcast chunk stream) =
      after_broadcast s (handle_file_broadcast limit s.node chunk stream)
  step s (connected up peer addrs) = some (record s { node = connect_to_peer s.node up peer addrs })

  -- What any events lead to, the last one first.
  unfoldable pub reached : List Event → Option System
  reached [] = some started
  reached (e ∷ earlier) = elim (reached earlier) [ none ↦ none | some s ↦ step s e ]
