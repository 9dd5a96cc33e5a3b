-- ===== src/Nodus/Node.antt =====
-- The peer-to-peer node: internal/nodus/node.go, and the peers of internal/nodus/discovery.go.
--
-- The host and its streams (libp2p) are parameters or arguments: what a stream answers to what was
-- written on it, and the bytes that one `Read` returns. `arrays` is the memory of the backing
-- arrays of slices, and `fresh_array` the next one to allocate.
pub mod Scan
pub mod Parse
pub mod Transfer
use crom_spirit_iso.Prelude.{
  ℕ, zero, suc, ◌+◌, ◌-◌, ◌*◌, Bool, true, false, Option, none, some, List, [], ◌∷◌, ◌++◌, map, ltb,
  ◌==◌, if◌then◌else◌, length, take, replicate,
}
use crom_spirit_iso.Prelude.Dict.{insert}
use crom_spirit_iso.Prelude.Numbers.{decimal}
use crom_spirit_iso.Prelude.Text.{Bytes, Bytes_discrete, bytes}
use crom_spirit_iso.Nodus.Slice.{Slice, Blob}
use crom_spirit_iso.Nodus.Cache
use crom_spirit_iso.Nodus.Cache.{Key, Cache}
use Scan.{Size, of_bytes, below_zero, parse_header}

abbrev pub PeerId : Type 0
PeerId = Bytes

abbrev pub AddrInfo : Type 0
AddrInfo = List Bytes

pub record Node : Type 0 where
  pub cache : Cache
  pub peers : List (PeerId × AddrInfo)
  pub arrays : ℕ → Bytes
  pub fresh_array : ℕ

-- The bytes of a slice.
abbrev pub contents : (ℕ → Bytes) → Slice → Bytes
contents arrays s = take s.len (arrays s.addr)

-- A new backing array with these bytes, and the slice of all of it.
abbrev pub allocate : Node → Bytes → Node × Slice
allocate n b = (
  record n {
    arrays = λ i. if i == n.fresh_array then b else n.arrays i;
    fresh_array = n.fresh_array + 1;
  },
  record { addr = n.fresh_array; len = length b },
)

-- 256 MB.
abbrev pub cache_capacity : ℕ
cache_capacity = 256 * 1024 * 1024

unfoldable pub new_node : Node
new_node = record {
  cache = Cache.new_cache cache_capacity;
  peers = [];
  arrays = λ i. [];
  fresh_array = 0;
}

-- What a request on a new stream ends with: no stream, a failed write, a failed read, or all bytes
-- up to the end of the stream.
pub data Exchange : Type 0 where
  no_stream no_write no_read : Exchange
  all_read : Bytes → Exchange

abbrev exchanged : Exchange → Option Bytes
exchanged (all_read b) = some b
exchanged _ = none

module _ (exchange : PeerId → Bytes → Exchange) where
  -- The name is sent with a newline; `none` is an error.
  unfoldable pub request_file_from_peer : PeerId → Bytes → Option Bytes
  request_file_from_peer peer filename = exchanged (exchange peer (filename ++ bytes "\n"))

  -- The loop of `RequestFile`: the first answer that is not empty.
  unfoldable pub try_peers : List PeerId → Bytes → Option Bytes
  try_peers [] filename = none
  try_peers (p ∷ ps) filename = elim (request_file_from_peer p filename) [
    | some (b ∷ s) ↦ some (b ∷ s)
    | _ ↦ try_peers ps filename
  ]

  -- Without connected peers the loop has no round, so both errors of the source are `none`.
  unfoldable pub request_file : List PeerId → Bytes → Option Bytes
  request_file connected filename =
      if length connected == 0 then none else try_peers connected filename

-- What a handler writes on its stream: nothing, a file, or a panic.
pub data Served : Type 0 where
  nothing : Served
  file : Bytes → Served
  panicked : Served

abbrev pub served : Node → Blob → Served
served n none = nothing
served n (some s) = file (contents n.arrays s)

-- On what one `Read` of at most 1024 bytes returned; `buf[:nBytes-1]` panics on no bytes.
unfoldable pub handle_file_request : Node → Option Bytes → Node × Served
handle_file_request n none = (n, nothing)
handle_file_request n (some []) = (n, panicked)
handle_file_request n (some (b ∷ s)) =
    let (cache', data') = Cache.get n.cache (take (length s) (b ∷ s)) in
    (record n { cache = cache' }, served n data')

-- The two writes of `sendFileToPeer`.
unfoldable pub broadcast_header : Bytes → ℕ → Bytes
broadcast_header filename size = filename ++ bytes "\n" ++ decimal size ++ bytes "\n"

abbrev pub file_parts : Bytes → Bytes → List Bytes
file_parts filename content = broadcast_header filename (length content) ∷ content ∷ []

-- The goroutine that sends a file to a peer: what it writes on the stream, if it could be opened.
unfoldable pub send_file : Bool → Bytes → Bytes → Option (List Bytes)
send_file false filename content = none
send_file true filename content = some (file_parts filename content)

-- The goroutines that it starts, one for each connected peer, with the slice that they will read.
unfoldable pub broadcast_file : List PeerId → Bytes → Slice → List (PeerId × Bytes × Slice)
broadcast_file connected filename s = map (λ p. (p, filename, s)) connected

-- `io.ReadFull` into a new buffer of `size` zero bytes, its error ignored.
abbrev pub read_full : ℕ → Bytes → Bytes
read_full size stream = take size stream ++ replicate (size - length stream) 0

-- `make([]byte, size)`, the read and `Put`; `none` is the panic of `make`, which allocates at most
-- `limit` bytes.
unfoldable pub receive_file : ℕ → Node → Bytes → Size → Bytes → Option Node
receive_file limit n filename below_zero stream = none
receive_file limit n filename (of_bytes size) stream =
    let (n', s) = allocate n (read_full size stream) in
    if ltb limit size
    then none
    else some (record n' { cache = Cache.put n.cache filename (some s) })

-- On what the first `Read` of at most 1024 bytes returned, and what is left on the stream after it.
unfoldable pub handle_file_broadcast : ℕ → Node → Option Bytes → Bytes → Option Node
handle_file_broadcast limit n none stream = some n
handle_file_broadcast limit n (some chunk) stream =
    let header = parse_header chunk in receive_file limit n header.filename header.size stream

-- A peer that was found or asked for, once the connection stands: `HandlePeerFound`,
-- `ConnectToPeer`.
unfoldable pub connect_to_peer : Node → Bool → PeerId → AddrInfo → Node
connect_to_peer n connected peer addrs =
    if connected then record n { peers = insert Bytes_discrete peer addrs n.peers } else n
