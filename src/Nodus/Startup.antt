-- ===== src/Nodus/Startup.antt =====
-- How a node starts and ends, and how its file system is mounted: `NewNode` and `Close` of
-- internal/nodus/node.go, `MountFUSE`, `Unmount`, `Root` and the attributes of
-- internal/nodus/fuse.go.
--
-- What libp2p, the DHT, the operating system and FUSE reply are parameters: none, or the text of an
-- error. An operation returns with the calls that it makes, in their order; one that opens something
-- is listed only if it does.
pub mod Leaks
use crom_spirit_iso.Prelude.{ℕ, ◌+◌, ◌^◌, Option, none, some, List, [], ◌∷◌, ◌++◌}
use crom_spirit_iso.Prelude.Text.{Bytes, bytes}
use crom_spirit_iso.Nodus.Node.{Node, new_node}
use crom_spirit_iso.Nodus.Fuse.{File, attr_size}

pub data HostOption : Type 0 where
  listen_addr_strings : List Bytes → HostOption
  nat_service relay hole_punching : HostOption

pub data MountOption : Type 0 where
  fs_name subtype volume_name : Bytes → MountOption
  local_volume allow_other : MountOption

pub data StreamHandler : Type 0 where
  handle_file_request handle_file_broadcast : StreamHandler

pub data Call : Type 0 where
  host_opened : List HostOption → Call
  dht_opened bootstrapped dht_closed host_closed : Call
  handler_set : Bytes → StreamHandler → Call
  directory_made unmounted : Bytes → Call
  connected : Bytes → List MountOption → Call
  -- By a goroutine.
  served : Call

pub data Result {ℓ} (A : Type ℓ) : Type ℓ where
  error : Bytes → Result A
  ok : A → Result A

abbrev pub protocol_file_request : Bytes
protocol_file_request = bytes "/spirit/nodus/file/1.0.0"

abbrev pub protocol_file_broadcast : Bytes
protocol_file_broadcast = bytes "/spirit/nodus/broadcast/1.0.0"

abbrev pub host_options : List HostOption
host_options =
    listen_addr_strings (bytes "/ip4/0.0.0.0/tcp/4001" ∷ bytes "/ip4/0.0.0.0/udp/4001/quic-v1" ∷ [])
    ∷ nat_service
    ∷ relay
    ∷ hole_punching
    ∷ []

-- The errors of the host, of the DHT and of its bootstrap, which are tried in this order. The host
-- is closed if a later one fails.
unfoldable pub start_node : Option Bytes → Option Bytes → Option Bytes → Result Node × List Call
start_node (some err) dht bootstrap = (error (bytes "failed to create host: " ++ err), [])
start_node none (some err) bootstrap =
    (error (bytes "failed to create DHT: " ++ err), host_opened host_options ∷ host_closed ∷ [])
start_node none none (some err) = (
  error (bytes "failed to bootstrap DHT: " ++ err),
  host_opened host_options ∷ dht_opened ∷ bootstrapped ∷ host_closed ∷ [],
)
start_node none none none = (
  ok new_node,
  host_opened host_options
      ∷ dht_opened
      ∷ bootstrapped
      ∷ handler_set protocol_file_request handle_file_request
      ∷ handler_set protocol_file_broadcast handle_file_broadcast
      ∷ [],
)

-- The error is that of the host.
unfoldable pub close_node : Option Bytes → Option Bytes × List Call
close_node host = (host, dht_closed ∷ host_closed ∷ [])

pub record NodusFs : Type 0 where
  pub mount_point : Bytes

abbrev pub mount_options : List MountOption
mount_options =
    fs_name (bytes "nodus")
    ∷ subtype (bytes "spiritfs")
    ∷ local_volume
    ∷ volume_name (bytes "Nodus P2P")
    ∷ allow_other
    ∷ []

-- The errors of making the directory, of connecting, and of the mount once the connection is ready.
unfoldable pub mount_fuse :
    Bytes → Option Bytes → Option Bytes → Option Bytes → Result NodusFs × List Call
mount_fuse point (some err) mount ready =
    (error (bytes "failed to create mount point: " ++ err), [])
mount_fuse point none (some err) ready =
    (error (bytes "fuse mount failed: " ++ err), directory_made point ∷ [])
mount_fuse point none none (some err) =
    (error err, directory_made point ∷ connected point mount_options ∷ served ∷ [])
mount_fuse point none none none = (
  ok (record { mount_point = point }),
  directory_made point ∷ connected point mount_options ∷ served ∷ [],
)

-- What the goroutine prints.
unfoldable pub serve_report : Option Bytes → List Bytes
serve_report none = []
serve_report (some err) = (bytes "❌ FUSE serve error: " ++ err ++ bytes "\n") ∷ []

unfoldable pub unmount : NodusFs → Option Bytes → Option Bytes × List Call
unmount fs err = (err, unmounted fs.mount_point ∷ [])

pub record Dir : Type 0 where
  pub path : Bytes
  pub inode : ℕ

abbrev pub root : Dir
root = record { path = bytes "/"; inode = 1 }

-- Without the times.
pub record Attr : Type 0 where
  pub inode : ℕ
  pub mode : ℕ
  pub size : ℕ

-- `os.ModeDir | 0755`; the size is left as it was, which is 0.
unfoldable pub dir_attr : Dir → Attr
dir_attr d = record { inode = d.inode; mode = 2 ^ 31 + 493; size = 0 }

-- `0644`
unfoldable pub file_attr : File → Attr
file_attr f = record { inode = f.inode; mode = 420; size = attr_size f }
