-- ===== src/Tests/HypervisorTests.antt =====
-- The manager of internal/hypervisor with a libvirt that lists two domains.
use crom_spirit_iso.Prelude.{◌≡◌, refl, true, false, List, [], ◌∷◌, ◌++◌, none, some, ite}
use crom_spirit_iso.Prelude.Text.{Bytes, bytes, Bytes_discrete}
use crom_spirit_iso.Hypervisor.{
  Libvirt, Domain, running, obtained, shut_down, destroyed, freed, ok, connect, first_uri, stop_vm,
}
use crom_spirit_iso.Hypervisor.Vm.{hostdev, host_dev_xml}
use crom_spirit_iso.Hypervisor.Address
use crom_spirit_iso.Hypervisor.Calls
use crom_spirit_iso.Hypervisor.Calls.{Operation, list, start, stop, query, is_balanced, all_calls}

program : Unit {0}
unfolding connect first_uri stop_vm Bytes_discrete
program = tt

abbrev win : Bytes
win = bytes "win"

abbrev domain : Domain
domain = record { name = some win; uuid = none; state = some running }

-- It connects to the session only, and does not shut down.
abbrev libvirt : Libvirt
libvirt = record {
  connects = λ uri. ite (Bytes_discrete uri (bytes "qemu:///session")) true false;
  capabilities = none;
  defines = λ xml. true;
  domains = some (domain ∷ domain ∷ []);
  finds = λ name. ite (Bytes_discrete name win) true false;
  creates = λ name. true;
  shuts_down = λ name. false;
  destroys = λ name. true;
  state_of = λ name. some running;
}

connected : connect libvirt ≡ some (bytes "qemu:///session")
unfolding program
connected = refl

stopped : stop_vm libvirt win ≡ (ok tt, obtained 0 ∷ shut_down 0 ∷ destroyed 0 ∷ freed 0 ∷ [])
unfolding program
stopped = refl

abbrev operations : List (Libvirt × Operation)
operations = (libvirt, start win) ∷ (libvirt, list) ∷ (libvirt, stop win) ∷ []

is_balanced-all_calls_example : is_balanced [] (all_calls operations) ≡ true
is_balanced-all_calls_example = Calls.is_balanced-all_calls operations

host_dev_xml-address_example :
    host_dev_xml (bytes "0000" ++ b':' ∷ (bytes "01" ++ b':' ∷ (bytes "00" ++ b'.' ∷ bytes "0")))
    ≡ hostdev (bytes "0000") (bytes "01") (bytes "00") (bytes "0")
host_dev_xml-address_example =
    Address.host_dev_xml-address (bytes "0000") (bytes "01") (bytes "00") (bytes "0")
      (refl, (refl, (refl, (refl, tt)))) (refl, (refl, tt)) (refl, (refl, tt)) (refl, tt)
      (refl, (refl, tt)) (refl, tt)
