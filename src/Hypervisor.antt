-- ===== src/Hypervisor.antt =====
-- The manager of virtual machines: internal/hypervisor/libvirt.go and the operations of
-- internal/hypervisor/vm.go.
--
-- libvirt is a parameter: what it replies to each call. An operation returns its reply with the
-- calls that it makes, in order. The mutex is held for the whole of an operation.
pub mod Vm
pub mod Address
pub mod Calls
use crom_spirit_iso.Prelude.{
  ℕ, ◌+◌, Bool, true, false, Option, none, some, List, [], ◌∷◌, ◌++◌, ltb, if◌then◌else◌, length,
  take,
}
use crom_spirit_iso.Prelude.Text.{Bytes, bytes}
use Vm.{WindowsVmConfig, generate_vm_xml}

-- libvirt's states of a domain, of which it names these.
pub data DomainState : Type 0 where
  nostate running blocked paused shutdown shutoff crashed pmsuspended : DomainState

unfoldable pub state_to_string : DomainState → Bytes
state_to_string running = bytes "running"
state_to_string paused = bytes "paused"
state_to_string shutdown = bytes "shutdown"
state_to_string shutoff = bytes "off"
state_to_string crashed = bytes "crashed"
state_to_string _ = bytes "unknown"

-- A domain that libvirt lists; `none` is an error.
pub record Domain : Type 0 where
  pub name : Option Bytes
  pub uuid : Option Bytes
  pub state : Option DomainState

pub record Libvirt : Type 0 where
  pub connects : Bytes → Bool
  pub capabilities : Option Bytes
  pub defines : Bytes → Bool
  pub domains : Option (List Domain)
  pub finds : Bytes → Bool
  pub creates : Bytes → Bool
  pub shuts_down : Bytes → Bool
  pub destroys : Bytes → Bool
  pub state_of : Bytes → Option DomainState

-- The calls that use a domain, by its place among those that the operation has obtained; `obtained`
-- is its coming from a lookup or a list.
pub data Call : Type 0 where
  obtained created shut_down destroyed queried freed : ℕ → Call

pub data Failure : Type 0 where
  vm_not_found start_failed destroy_failed state_failed list_failed define_failed : Failure

pub data Result {ℓ} (A : Type ℓ) : Type ℓ where
  ok : A → Result A
  err : Failure → Result A

pub record VmInfo : Type 0 where
  pub name : Bytes
  pub uuid : Bytes
  pub state : Bytes

-- The loop of `Connect`: the first of the addresses that connects.
unfoldable pub first_uri : Libvirt → List Bytes → Option Bytes
first_uri lv [] = none
first_uri lv (uri ∷ uris) =
    let later = first_uri lv uris in if lv.connects uri then some uri else later

abbrev pub uris : List Bytes
uris = bytes "qemu:///system" ∷ bytes "qemu:///session" ∷ []

-- The address of the manager that `Connect` returns.
unfoldable pub connect : Libvirt → Option Bytes
connect lv = first_uri lv uris

-- `Close`: whether there is a connection, and the error of closing it.
unfoldable pub close_manager : Bool → Option Bytes → Option Bytes
close_manager connected error = if connected then error else none

abbrev summary : Option Bytes → Bytes
summary none = bytes "unknown"
summary (some caps) = if ltb 100 (length caps) then take 100 caps ++ bytes "..." else caps

unfoldable pub capabilities : Libvirt → Bytes
capabilities lv = summary lv.capabilities

-- What go-libvirt returns beside an error: an empty text, and no state.
abbrev or_empty : Option Bytes → Bytes
or_empty none = []
or_empty (some s) = s

abbrev or_nostate : Option DomainState → DomainState
or_nostate none = nostate
or_nostate (some s) = s

abbrev pub vm_info : Domain → VmInfo
vm_info d = record {
  name = or_empty d.name;
  uuid = or_empty d.uuid;
  state = state_to_string (or_nostate d.state);
}

-- `ListAllDomains` returns them all, from the `i`-th on.
unfoldable pub obtain_all : ℕ → List Domain → List Call
obtain_all i [] = []
obtain_all i (d ∷ ds) = obtained i ∷ obtain_all (i + 1) ds

-- The loop of `ListVMs`.
unfoldable pub list_domains : ℕ → List Domain → List VmInfo × List Call
list_domains i [] = ([], [])
list_domains i (d ∷ ds) =
    let (vms, calls) = list_domains (i + 1) ds in (vm_info d ∷ vms, queried i ∷ freed i ∷ calls)

abbrev pub listed : Option (List Domain) → Result (List VmInfo) × List Call
listed none = (err list_failed, [])
listed (some ds) = let (vms, calls) = list_domains 0 ds in (ok vms, obtain_all 0 ds ++ calls)

unfoldable pub list_vms : Libvirt → Result (List VmInfo) × List Call
list_vms lv = listed lv.domains

unfoldable pub create_windows_vm : Libvirt → WindowsVmConfig → Result (Unit {0})
create_windows_vm lv cfg = if lv.defines (generate_vm_xml cfg) then ok tt else err define_failed

unfoldable pub start_vm : Libvirt → Bytes → Result (Unit {0}) × List Call
start_vm lv name =
    if lv.finds name
    then (
      if lv.creates name then ok tt else err start_failed,
      obtained 0 ∷ created 0 ∷ freed 0 ∷ [],
    )
    else (err vm_not_found, [])

unfoldable pub stop_vm : Libvirt → Bytes → Result (Unit {0}) × List Call
stop_vm lv name =
    if lv.finds name
    then if lv.shuts_down name then (ok tt, obtained 0 ∷ shut_down 0 ∷ freed 0 ∷ []) else (
      if lv.destroys name then ok tt else err destroy_failed,
      obtained 0 ∷ shut_down 0 ∷ destroyed 0 ∷ freed 0 ∷ [],
    )
    else (err vm_not_found, [])

abbrev state_reply : Option DomainState → Result Bytes
state_reply none = err state_failed
state_reply (some s) = ok (state_to_string s)

unfoldable pub get_vm_state : Libvirt → Bytes → Result Bytes × List Call
get_vm_state lv name =
    if lv.finds name
    then (state_reply (lv.state_of name), obtained 0 ∷ queried 0 ∷ freed 0 ∷ [])
    else (err vm_not_found, [])
