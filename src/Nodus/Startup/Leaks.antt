-- ===== src/Nodus/Startup/Leaks.antt =====
-- What the start and the end of a node of internal/nodus leave open.
use crom_spirit_iso.Prelude.{
  ◌≡◌, refl, Bool, true, false, not, ◌&&◌, Option, none, some, List, [], ◌∷◌, ◌++◌, is_some,
}
use crom_spirit_iso.Prelude.Text.{Bytes}
use crom_spirit_iso.Nodus.Startup.{
  Call, host_opened, host_closed, dht_opened, dht_closed, connected, unmounted, Result, error, ok,
  start_node, close_node, mount_fuse,
}

abbrev pub is_ok {ℓ} : {A : Type ℓ} → Result A → Bool
is_ok (error err) = false
is_ok (ok a) = true

-- Whether the host is open after some calls.
abbrev pub has_host : Bool → List Call → Bool
has_host o [] = o
has_host o (host_opened options ∷ calls) = has_host true calls
has_host o (host_closed ∷ calls) = has_host false calls
has_host o (_ ∷ calls) = has_host o calls

abbrev pub has_dht : Bool → List Call → Bool
has_dht o [] = o
has_dht o (dht_opened ∷ calls) = has_dht true calls
has_dht o (dht_closed ∷ calls) = has_dht false calls
has_dht o (_ ∷ calls) = has_dht o calls

-- A start that fails leaves no host open; it leaves the DHT open exactly if only the bootstrap failed.
-- A node that was started and then closed leaves neither open, whatever the host replies.
pub start_node-leaks :
    (host dht bootstrap reply : Option Bytes)
    → let (r, calls) = start_node host dht bootstrap in
      let closing = (close_node reply).1 in
      (has_host false calls ≡ is_ok r)
      × (has_dht false calls ≡ not (is_some host) && not (is_some dht))
      × (is_ok r ≡ not (is_some host) && not (is_some dht) && not (is_some bootstrap))
      × (has_host false (calls ++ closing) ≡ false)
      × (has_dht false (calls ++ closing) ≡ false)
unfolding start_node close_node
start_node-leaks (some err) dht bootstrap reply = (refl, refl, refl, refl, refl)
start_node-leaks none (some err) bootstrap reply = (refl, refl, refl, refl, refl)
start_node-leaks none none (some err) reply = (refl, refl, refl, refl, refl)
start_node-leaks none none none reply = (refl, refl, refl, refl, refl)

-- Whether a connection to the kernel is open.
abbrev has_connection : Bool → List Call → Bool
has_connection o [] = o
has_connection o (connected point options ∷ calls) = has_connection true calls
has_connection o (unmounted point ∷ calls) = has_connection false calls
has_connection o (_ ∷ calls) = has_connection o calls

-- A mount that fails once it is connected leaves the connection open.
mount_fuse-leaks :
    (point : Bytes) (mkdir mount ready : Option Bytes)
    → let (r, calls) = mount_fuse point mkdir mount ready in
      (has_connection false calls ≡ not (is_some mkdir) && not (is_some mount))
      × (is_ok r ≡ not (is_some mkdir) && not (is_some mount) && not (is_some ready))
unfolding mount_fuse
mount_fuse-leaks point (some err) mount ready = (refl, refl)
mount_fuse-leaks point none (some err) ready = (refl, refl)
mount_fuse-leaks point none none (some err) = (refl, refl)
mount_fuse-leaks point none none none = (refl, refl)
