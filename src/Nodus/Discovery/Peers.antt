-- ===== src/Nodus/Discovery/Peers.antt =====
-- Which peers a node of internal/nodus knows, and what its discovery reports.
use crom_spirit_iso.Prelude.{
  ℕ, ◌≡◌, refl, ◌∙◌, ap, not, Bool, true, false, Option, none, some, List, [], ◌∷◌, ◌++◌, ite, map,
  is_some,
}
use crom_spirit_iso.Prelude.Dict.{lookup, Distinct, lookup-insert, insert-Distinct}
use crom_spirit_iso.Prelude.Numbers.{decimal}
use crom_spirit_iso.Prelude.Text.{Bytes, Bytes_discrete, bytes}
use crom_spirit_iso.Nodus.Node.{Node, PeerId, AddrInfo, connect_to_peer, new_node}
use crom_spirit_iso.Nodus.Startup.{Result, error, ok}
use crom_spirit_iso.Nodus.Discovery.{
  handle_peer_found, connect_known, connect_parsed, connect_to_address, Received, done, ticked,
  report_loop,
}

-- `found` is a call of `HandlePeerFound`, `asked` one of `ConnectToPeer`; each with the error of its
-- connection, or none.
pub data Meeting : Type 0 where
  found : PeerId → AddrInfo → Option Bytes → Meeting
  asked : Bytes → Option Bytes → Meeting

abbrev pub address_if : PeerId → AddrInfo → Option Bytes → Option (PeerId × AddrInfo)
address_if id addrs none = some (id, addrs)
address_if id addrs (some err) = none

abbrev pub or_earlier : PeerId → Option (PeerId × AddrInfo) → Option AddrInfo → Option AddrInfo
or_earlier p none earlier = earlier
or_earlier p (some (id, addrs)) earlier = ite (Bytes_discrete id p) (some addrs) earlier

abbrev pub Knows : Node → PeerId → Option AddrInfo → Type 0
Knows n p known = (lookup Bytes_discrete p n.peers ≡ known) × Distinct Bytes_discrete n.peers

connected-Knows :
    (n : Node) (p id : PeerId) (addrs : AddrInfo) (err : Option Bytes) (known : Option AddrInfo)
    → Knows n p known
    → Knows
        (connect_to_peer n (not (is_some err)) id addrs)
        p
        (or_earlier p (address_if id addrs err) known)
unfolding connect_to_peer
connected-Knows n p id addrs (some err) known h = h
connected-Knows n p id addrs none known (h, d) = (
  lookup-insert Bytes_discrete id p addrs n.peers ∙ ap (ite (Bytes_discrete id p) (some addrs)) h,
  insert-Distinct Bytes_discrete id addrs n.peers d,
)

known-Knows :
    (n : Node) (p id : PeerId) (addrs : AddrInfo) (err : Option Bytes) (known : Option AddrInfo)
    → Knows n p known
    → Knows (connect_known n id addrs err).0 p (or_earlier p (address_if id addrs err) known)
known-Knows n p id addrs none known h = connected-Knows n p id addrs none known h
known-Knows n p id addrs (some err) known h = h

abbrev pub parsed_connection :
    Result (PeerId × AddrInfo) → Option Bytes → Option (PeerId × AddrInfo)
parsed_connection (error invalid) err = none
parsed_connection (ok (id, addrs)) err = address_if id addrs err

parsed-Knows :
    (n : Node) (p : PeerId) (r : Result (PeerId × AddrInfo)) (err : Option Bytes)
    (known : Option AddrInfo)
    → Knows n p known
    → Knows (connect_parsed n r err).0 p (or_earlier p (parsed_connection r err) known)
parsed-Knows n p (error invalid) err known h = h
parsed-Knows n p (ok (id, addrs)) err known h = known-Knows n p id addrs err known h

module _ (parse : Bytes → Result (PeerId × AddrInfo)) where
  -- The peer that a meeting connects to, if it does.
  abbrev pub connection : Meeting → Option (PeerId × AddrInfo)
  connection (found id addrs err) = address_if id addrs err
  connection (asked addr err) = parsed_connection (parse addr) err

  -- The addresses by which a peer was last connected to.
  abbrev pub last_connection : PeerId → List Meeting → Option AddrInfo
  last_connection p [] = none
  last_connection p (m ∷ earlier) = or_earlier p (connection m) (last_connection p earlier)

  module _ (short_string : PeerId → Bytes) where
    -- The last meeting first.
    unfoldable pub met : List Meeting → Node
    met [] = new_node
    met (found id addrs err ∷ earlier) =
        (handle_peer_found short_string (met earlier) id addrs err).0
    met (asked addr err ∷ earlier) = (connect_to_address parse (met earlier) addr err).0

    -- After any peers found and any addresses asked for, a node knows each peer that it was connected
    -- to, once, with the addresses of the last connection that stood, and no other peer.
    pub met-Knows :
        (meetings : List Meeting) (p : PeerId) → Knows (met meetings) p (last_connection p meetings)
    unfolding met new_node lookup handle_peer_found connect_to_address
    met-Knows [] p = (refl, tt)
    met-Knows (found id addrs err ∷ earlier) p =
        connected-Knows (met earlier) p id addrs err (last_connection p earlier)
          (met-Knows earlier p)
    met-Knows (asked addr err ∷ earlier) p =
        parsed-Knows (met earlier) p (parse addr) err (last_connection p earlier)
          (met-Knows earlier p)

-- The counts that are reported before the context ends.
abbrev counts_before : List Received → List ℕ
counts_before [] = []
counts_before (done ∷ later) = []
counts_before (ticked peers ∷ later) = peers ∷ counts_before later

abbrev ends : List Received → Bool
ends [] = false
ends (done ∷ later) = true
ends (ticked peers ∷ later) = ends later

-- The loop reports each tick before the context's end, nothing after it, and returns only then.
report_loop_lem :
    (received : List Received)
    → (report_loop received).0
        ≡ map (λ k. bytes "📊 Connected peers: " ++ decimal k ++ bytes "\n") (counts_before received)
      × ((report_loop received).1 ≡ ends received)
unfolding report_loop
report_loop_lem [] = (refl, refl)
report_loop_lem (done ∷ later) = (refl, refl)
report_loop_lem (ticked peers ∷ later) =
    let (lines, returns) = report_loop_lem later in
    (ap (λ l. (bytes "📊 Connected peers: " ++ decimal peers ++ bytes "\n") ∷ l) lines, returns)
