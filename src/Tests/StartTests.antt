-- ===== src/Tests/StartTests.antt =====
-- A node of internal/nodus that starts, and one that does not, and the peers that a node meets.
use crom_spirit_iso.Prelude.{
  ◌≡◌, refl, false, not, ◌&&◌, is_some, Option, none, some, List, [], ◌∷◌, ◌++◌, ite,
}
use crom_spirit_iso.Prelude.Text.{Bytes, Bytes_discrete, bytes}
use crom_spirit_iso.Nodus.Node.{PeerId, AddrInfo}
use crom_spirit_iso.Nodus.Startup.{Result, error, ok, start_node, close_node}
use crom_spirit_iso.Nodus.Startup.Leaks
use crom_spirit_iso.Nodus.Startup.Leaks.{is_ok, has_host, has_dht}
use crom_spirit_iso.Nodus.Discovery.Peers
use crom_spirit_iso.Nodus.Discovery.Peers.{Meeting, found, asked, met, last_connection, Knows}

abbrev timeout : Option Bytes
timeout = some (bytes "timeout")

-- The bootstrap fails.
start_node-leaks_example :
    let (r, calls) = start_node none none timeout in
    let closing = (close_node none).1 in
    (has_host false calls ≡ is_ok r)
    × (has_dht false calls ≡ not (is_some {A = Bytes} none) && not (is_some {A = Bytes} none))
    × (is_ok r
        ≡ not (is_some {A = Bytes} none) && not (is_some {A = Bytes} none) && not (is_some timeout))
    × (has_host false (calls ++ closing) ≡ false)
    × (has_dht false (calls ++ closing) ≡ false)
start_node-leaks_example = Leaks.start_node-leaks none none timeout none

abbrev p : PeerId
p = bytes "p"

abbrev first_address : AddrInfo
first_address = bytes "/ip4/10.0.0.1" ∷ []

abbrev second_address : AddrInfo
second_address = bytes "/ip4/10.0.0.2" ∷ []

abbrev short : PeerId → Bytes
short q = q

abbrev parse : Bytes → Result (PeerId × AddrInfo)
parse addr =
    ite (Bytes_discrete addr (bytes "/ip4/10.0.0.2/p2p/p")) (ok (p, second_address))
      (error (bytes "invalid"))

-- The peer is found, asked for at another address, and found again but not reached.
abbrev meetings : List Meeting
meetings =
    found p first_address timeout
    ∷ asked (bytes "p") none
    ∷ asked (bytes "/ip4/10.0.0.2/p2p/p") none
    ∷ found p first_address none
    ∷ []

last_address : last_connection parse p meetings ≡ some second_address
unfolding Bytes_discrete
last_address = refl

met-Knows_example : Knows (met parse short meetings) p (last_connection parse p meetings)
met-Knows_example = Peers.met-Knows parse short meetings p
