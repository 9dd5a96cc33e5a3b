-- ===== src/Nodus/Discovery.antt =====
-- How a node meets its peers: internal/nodus/discovery.go.
--
-- libp2p is a parameter: the error of a connection, or none; what an address is parsed to; the short
-- form of a peer's name; and what starting mDNS replies. The operations return what they print.
pub mod Peers
use crom_spirit_iso.Prelude.{
  ℕ, Bool, true, false, not, is_some, Option, none, some, List, [], ◌∷◌, ◌++◌,
}
use crom_spirit_iso.Prelude.Numbers.{decimal}
use crom_spirit_iso.Prelude.Text.{Bytes, bytes, warning_sign}
use crom_spirit_iso.Nodus.Node.{Node, PeerId, AddrInfo, connect_to_peer}
use crom_spirit_iso.Nodus.Startup.{Result, error, ok}

abbrev pub discovery_service_tag : Bytes
discovery_service_tag = bytes "spirit-nodus"

abbrev pub connection_line : Bytes → Option Bytes → Bytes
connection_line name none = bytes "✅ Connected to " ++ name ++ bytes "\n"
connection_line name (some err) =
    warning_sign ++ bytes "  Failed to connect to " ++ name ++ bytes ": " ++ err ++ bytes "\n"

unfoldable pub handle_peer_found :
    (PeerId → Bytes) → Node → PeerId → AddrInfo → Option Bytes → Node × List Bytes
handle_peer_found short_string n id addrs err = (
  connect_to_peer n (not (is_some err)) id addrs,
  (bytes "📡 Discovered peer: " ++ short_string id ++ bytes "\n")
      ∷ connection_line (short_string id) err
      ∷ [],
)

-- The report of the start of mDNS.
abbrev pub mdns_line : Option Bytes → Bytes
mdns_line none = bytes "📡 mDNS discovery started (LAN)\n"
mdns_line (some err) = warning_sign ++ bytes "  mDNS service failed: " ++ err ++ bytes "\n"

-- What a round of the loop receives: the end of the context, or a tick, with the number of connected
-- peers then.
pub data Received : Type 0 where
  done : Received
  ticked : ℕ → Received

-- What the loop prints, and whether it has returned.
unfoldable pub report_loop : List Received → List Bytes × Bool
report_loop [] = ([], false)
report_loop (done ∷ later) = ([], true)
report_loop (ticked peers ∷ later) =
    let (lines, returned) = report_loop later in
    ((bytes "📊 Connected peers: " ++ decimal peers ++ bytes "\n") ∷ lines, returned)

unfoldable pub start_discovery : Option Bytes → List Received → List Bytes × Bool
start_discovery mdns received =
    let (lines, returned) = report_loop received in (mdns_line mdns ∷ lines, returned)

abbrev pub connect_known : Node → PeerId → AddrInfo → Option Bytes → Node × Option Bytes
connect_known n id addrs none = (connect_to_peer n true id addrs, none)
connect_known n id addrs (some err) = (n, some (bytes "connection failed: " ++ err))

abbrev pub connect_parsed : Node → Result (PeerId × AddrInfo) → Option Bytes → Node × Option Bytes
connect_parsed n (error invalid) err = (n, some (bytes "invalid address: " ++ invalid))
connect_parsed n (ok (id, addrs)) err = connect_known n id addrs err

-- With the error that is returned; `err` is that of the connection, if it comes to it.
unfoldable pub connect_to_address :
    (Bytes → Result (PeerId × AddrInfo)) → Node → Bytes → Option Bytes → Node × Option Bytes
connect_to_address parse n addr err = connect_parsed n (parse addr) err
