-- ===== src/Hypervisor/Vm.antt =====
-- The definition of a virtual machine: `generateVMXML` of internal/hypervisor/vm.go.
use crom_spirit_iso.Prelude.{ℕ, List, [], ◌∷◌, ◌++◌}
use crom_spirit_iso.Prelude.Numbers.{decimal}
use crom_spirit_iso.Prelude.Strings.{split}
use crom_spirit_iso.Prelude.Text.{Bytes, bytes}

pub record WindowsVmConfig : Type 0 where
  pub name : Bytes
  pub memory : ℕ
  pub cpus : ℕ
  pub disk_path : Bytes
  pub iso_path : Bytes
  pub gpu_address : Bytes

abbrev pub default_windows_config : WindowsVmConfig
default_windows_config = record {
  name = bytes "spirit-windows";
  memory = 8192;
  cpus = 4;
  disk_path = bytes "/var/lib/spirit/windows.qcow2";
  iso_path = [];
  gpu_address = [];
}

unfoldable pub hostdev : Bytes → Bytes → Bytes → Bytes → Bytes
hostdev domain bus slot function =
    bytes "\n"
    ++ bytes "    <hostdev mode='subsystem' type='pci' managed='yes'>\n"
    ++ bytes "      <source>\n"
    ++ bytes "        <address domain='0x"
    ++ domain
    ++ bytes "' bus='0x"
    ++ bus
    ++ bytes "' slot='0x"
    ++ slot
    ++ bytes "' function='0x"
    ++ function
    ++ bytes "'/>\n"
    ++ bytes "      </source>\n"
    ++ bytes "    </hostdev>"

-- A slot and its function, "0" by default. A split text has one part at least.
unfoldable pub slot_function : Bytes → Bytes → List Bytes → Bytes
slot_function domain bus (slot ∷ function ∷ more) = hostdev domain bus slot function
slot_function domain bus (slot ∷ []) = hostdev domain bus slot (bytes "0")
slot_function domain bus [] = []

unfoldable pub address_parts : List Bytes → Bytes
unfolding slot_function
address_parts (domain ∷ bus ∷ slot_func ∷ more) = slot_function domain bus (split b'.' slot_func)
address_parts _ = []

unfoldable pub host_dev_xml : Bytes → Bytes
host_dev_xml [] = []
host_dev_xml (b ∷ s) = address_parts (split b':' (b ∷ s))

unfoldable pub generate_vm_xml : WindowsVmConfig → Bytes
generate_vm_xml cfg =
    bytes "<domain type='kvm'>\n"
    ++ bytes "  <name>"
    ++ cfg.name
    ++ bytes "</name>\n"
    ++ bytes "  <memory unit='MiB'>"
    ++ decimal cfg.memory
    ++ bytes "</memory>\n"
    ++ bytes "  <vcpu placement='static'>"
    ++ decimal cfg.cpus
    ++ bytes "</vcpu>\n"
    ++ bytes "  <os>\n"
    ++ bytes "    <type arch='x86_64' machine='q35'>hvm</type>\n"
    ++ bytes "    <boot dev='hd'/>\n"
    ++ bytes "  </os>\n"
    ++ bytes "  <features>\n"
    ++ bytes "    <acpi/>\n"
    ++ bytes "    <apic/>\n"
    ++ bytes "    <hyperv>\n"
    ++ bytes "      <relaxed state='on'/>\n"
    ++ bytes "      <vapic state='on'/>\n"
    ++ bytes "      <spinlocks state='on' retries='8191'/>\n"
    ++ bytes "    </hyperv>\n"
    ++ bytes "  </features>\n"
    ++ bytes "  <cpu mode='host-passthrough' check='none'/>\n"
    ++ bytes "  <clock offset='localtime'>\n"
    ++ bytes "    <timer name='rtc' tickpolicy='catchup'/>\n"
    ++ bytes "    <timer name='pit' tickpolicy='delay'/>\n"
    ++ bytes "    <timer name='hpet' present='no'/>\n"
    ++ bytes "    <timer name='hypervclock' present='yes'/>\n"
    ++ bytes "  </clock>\n"
    ++ bytes "  <devices>\n"
    ++ bytes "    <emulator>/usr/bin/qemu-system-x86_64</emulator>\n"
    ++ bytes "    <disk type='file' device='disk'>\n"
    ++ bytes "      <driver name='qemu' type='qcow2'/>\n"
    ++ bytes "      <source file='"
    ++ cfg.disk_path
    ++ bytes "'/>\n"
    ++ bytes "      <target dev='vda' bus='virtio'/>\n"
    ++ bytes "    </disk>\n"
    ++ bytes "    <interface type='network'>\n"
    ++ bytes "      <source network='default'/>\n"
    ++ bytes "      <model type='virtio'/>\n"
    ++ bytes "    </interface>\n"
    ++ bytes "    <input type='tablet' bus='usb'/>\n"
    ++ bytes "    <graphics type='spice' autoport='yes'>\n"
    ++ bytes "      <listen type='address' address='127.0.0.1'/>\n"
    ++ bytes "    </graphics>\n"
    ++ bytes "    <video>\n"
    ++ bytes
        "      <model type='qxl' ram='65536' vram='65536' vgamem='16384' heads='1' primary='yes'/>\n"
    ++ bytes "    </video>\n"
    ++ bytes "    "
    ++ host_dev_xml cfg.gpu_address
    ++ bytes "\n"
    ++ bytes "  </devices>\n"
    ++ bytes "</domain>"
