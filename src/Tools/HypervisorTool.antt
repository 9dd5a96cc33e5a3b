-- ===== src/Tools/HypervisorTool.antt =====
-- The command `hypervisor`: cmd/hypervisor/main.go.
use crom_spirit_iso.Prelude.{
  ℕ, Bool, true, false, List, [], ◌∷◌, ◌++◌, ite, if◌then◌else◌, take, length, ltb,
}
use crom_spirit_iso.Prelude.Text.{Bytes, bytes, Bytes_discrete}
use crom_spirit_iso.Prelude.Strings.{split, trim_space}
use crom_spirit_iso.Tools.{Event, printed, executed, line, red, green, yellow}

abbrev pub version : Bytes
version = bytes "1.0.0"

abbrev pub print_usage : List Event
print_usage =
    line (
      bytes "\n╔══════════════════════════════════════╗\n"
      ++ bytes "║    HYPERVISOR - VM Manager           ║\n"
      ++ bytes "╚══════════════════════════════════════╝\n"
      ++ bytes "\nUsage: hypervisor <command> [args]\n\nCommands:\n"
      ++ bytes "  list           - List all VMs\n"
      ++ bytes "  start <name>   - Start a VM\n"
      ++ bytes "  stop <name>    - Stop a VM\n"
      ++ bytes "  status         - Show hypervisor status\n"
      ++ bytes "  version        - Show version\n")
    ∷ []

abbrev pub smaller : ℕ → ℕ → ℕ
smaller a b = if ltb a b then a else b

-- The lines that are not empty, indented.
abbrev pub indented : List Bytes → List Event
indented [] = []
indented ([] ∷ ls) = indented ls
indented ((b ∷ l) ∷ ls) = printed (bytes "  " ++ (b ∷ l) ++ bytes "\n") ∷ indented ls

abbrev pub qemu_line : List Bytes → List Event
qemu_line [] = []
qemu_line (l ∷ ls) = printed (bytes "  QEMU:    " ++ l ++ bytes "\n") ∷ []

-- Of a program with its arguments: its output, and whether it failed.
module _ (run : List Bytes → Bytes × Bool) (kvm : Bool) where
  abbrev virsh_list : List Bytes
  virsh_list = bytes "virsh" ∷ bytes "list" ∷ bytes "--all" ∷ []

  abbrev pub listing : Bytes × Bool → List Event
  listing (out, true) =
      line (bytes "  " ++ yellow (bytes "(virsh not available or libvirtd not running)"))
      ∷ line []
      ∷ line (bytes "To create a VM:")
      ∷ line (bytes "  1. Create a disk: qemu-img create -f qcow2 /tmp/vm.qcow2 20G")
      ∷ line (bytes "  2. Start VM: qemu-system-x86_64 -hda /tmp/vm.qcow2 -m 2G")
      ∷ []
  listing (out, false) = line out ∷ []

  unfoldable pub list_vms : List Event
  list_vms = line (bytes "Virtual Machines:") ∷ executed virsh_list ∷ listing (run virsh_list)

  -- The message of a success or of a failure.
  abbrev pub outcome : Bytes → Bytes × Bool → List Event
  outcome done (out, true) =
      printed (red (bytes "[✗] Failed: " ++ trim_space out) ++ bytes "\n") ∷ []
  outcome done (out, false) = printed (green done ++ bytes "\n") ∷ []

  unfoldable pub start_vm : Bytes → List Event
  start_vm name =
      let command = bytes "virsh" ∷ bytes "start" ∷ name ∷ [] in
      printed (yellow (bytes "[*] Starting VM: " ++ name ++ bytes "...") ++ bytes "\n")
      ∷ executed command
      ∷ outcome (bytes "[✓] Started: " ++ name) (run command)

  unfoldable pub stop_vm : Bytes → List Event
  stop_vm name =
      let command = bytes "virsh" ∷ bytes "shutdown" ∷ name ∷ [] in
      printed (yellow (bytes "[*] Stopping VM: " ++ name ++ bytes "...") ++ bytes "\n")
      ∷ executed command
      ∷ outcome (bytes "[✓] Shutdown signal sent: " ++ name) (run command)

  abbrev pub virsh_version : List Bytes
  virsh_version = bytes "virsh" ∷ bytes "version" ∷ bytes "--daemon" ∷ []

  abbrev pub qemu_version : List Bytes
  qemu_version = bytes "qemu-system-x86_64" ∷ bytes "--version" ∷ []

  abbrev pub libvirt_status : Bytes × Bool → List Event
  libvirt_status (out, true) = line (bytes "  Libvirt: " ++ yellow (bytes "Not running")) ∷ []
  libvirt_status (out, false) =
      let lines = split b'\n' out in indented (take (smaller 3 (length lines)) lines)

  abbrev pub qemu_status : Bytes × Bool → List Event
  qemu_status (out, true) = []
  qemu_status (out, false) = qemu_line (split b'\n' out)

  abbrev kvm_status : Bytes
  kvm_status = if kvm then green (bytes "Available") else red (bytes "Not available")

  -- `kvm` tells whether /dev/kvm is there.
  unfoldable pub status : List Event
  status =
      line (bytes "Hypervisor Status:")
        ∷ line (bytes "  Backend: QEMU/KVM")
        ∷ line (bytes "  KVM:     " ++ kvm_status)
        ∷ executed virsh_version
        ∷ libvirt_status (run virsh_version)
      ++ executed qemu_version ∷ qemu_status (run qemu_version)

  abbrev pub named : Bytes → (Bytes → List Event) → List Bytes → List Event
  named usage act [] = line usage ∷ []
  named usage act (name ∷ args) = act name

  -- The switch, on the arguments after the command.
  unfoldable pub command : Bytes → List Bytes → List Event
  command cmd args = ite (Bytes_discrete cmd (bytes "list")) list_vms (
      ite (Bytes_discrete cmd (bytes "start"))
        (named (bytes "Usage: hypervisor start <vm-name>") start_vm args)
        (ite (Bytes_discrete cmd (bytes "stop"))
          (named (bytes "Usage: hypervisor stop <vm-name>") stop_vm args)
          (ite (Bytes_discrete cmd (bytes "status")) status (
            ite (Bytes_discrete cmd (bytes "version"))
              (printed (bytes "Hypervisor v" ++ version ++ bytes "\n") ∷ []) print_usage))))

  unfoldable pub main : List Bytes → List Event
  unfolding command
  main (program ∷ cmd ∷ args) = command cmd args
  main _ = print_usage
