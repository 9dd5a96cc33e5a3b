-- ===== src/Nodus/System/Streams.antt =====
-- What a peer's stream and a new peer do to a node of internal/nodus whose cache is valid and holds
-- only slices of allocated arrays: it stays so, unless the handler panics.
use crom_spirit_iso.Prelude.{
  ℕ, refl, ltb, Bool, true, false, Option, none, some, [], ◌∷◌, Bool-cases, inl, inr, length, take,
}
use crom_spirit_iso.Prelude.Text.{Bytes}
use crom_spirit_iso.Nodus.Cache.{Key}
use crom_spirit_iso.Nodus.Node.{
  Node, PeerId, AddrInfo, handle_file_request, handle_file_broadcast, receive_file, read_full,
  connect_to_peer,
}
use crom_spirit_iso.Nodus.Node.Scan.{Size, of_bytes, below_zero, parse_header}
use crom_spirit_iso.Nodus.System.Grows.{Owner, IsSoundNode, Grows-refl, get-Grows}
use crom_spirit_iso.Nodus.System.Handlers.{GrowsBy, stored-Yields}

abbrev pub GrowsTo : Key → Node → Owner → Option Node → Type 0
GrowsTo w n own none = Unit
GrowsTo w n own (some n') = GrowsBy w n own n'

module _ (limit : ℕ) (w : Key) (n : Node) (own : Owner) (h : IsSoundNode n own) where
  pub handle_file_request-Grows :
      (chunk : Option Bytes) → GrowsBy w n own (handle_file_request n chunk).0
  unfolding handle_file_request
  handle_file_request-Grows none = (own, Grows-refl w n own h)
  handle_file_request-Grows (some []) = (own, Grows-refl w n own h)
  handle_file_request-Grows (some (b ∷ s)) = (own, get-Grows w n own (take (length s) (b ∷ s)) h)

  receive_file-Grows :
      (k : Key) (size : Size) (stream : Bytes)
      → GrowsTo w n own (receive_file limit n k size stream)
  unfolding receive_file
  receive_file-Grows k below_zero stream = tt
  receive_file-Grows k (of_bytes size) stream = elim (Bool-cases (ltb limit size)) [
    | inl panic ↦ rw panic tt
    | inr fine ↦
        let (own', g, inside) = stored-Yields w n own k (read_full size stream) h in
        rw fine (own', g)
  ]

  pub handle_file_broadcast-Grows :
      (chunk : Option Bytes) (stream : Bytes)
      → GrowsTo w n own (handle_file_broadcast limit n chunk stream)
  unfolding handle_file_broadcast
  handle_file_broadcast-Grows none stream = (own, Grows-refl w n own h)
  handle_file_broadcast-Grows (some chunk) stream =
      let header = parse_header chunk in receive_file-Grows header.filename header.size stream

  pub connect_to_peer-Grows :
      (up : Bool) (peer : PeerId) (addrs : AddrInfo)
      → GrowsBy w n own (connect_to_peer n up peer addrs)
  unfolding connect_to_peer
  connect_to_peer-Grows true peer addrs = (
    own,
    record {
      kept = λ k t i. i;
      same = λ k t i other. refl;
      sound = record { valid = h.valid; cached = h.cached };
    },
  )
  connect_to_peer-Grows false peer addrs = (own, Grows-refl w n own h)
