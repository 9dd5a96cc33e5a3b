-- ===== src/Tools/Requests.antt =====
-- Which machines cmd/hypervisor/main.go starts and stops.
use crom_spirit_iso.Prelude.{
  arith, ◌≡◌, refl, ◌∙◌, ap, Bool, true, false, List, [], ◌∷◌, ◌++◌, ite, take, length,
}
use crom_spirit_iso.Prelude.Text.{Bytes, bytes, Bytes_discrete}
use crom_spirit_iso.Prelude.Strings.{split}
use crom_spirit_iso.Tools.{Event, executed}
use crom_spirit_iso.Tools.HypervisorTool.{
  list_vms, start_vm, stop_vm, status, command, main, indented, listing, outcome, libvirt_status,
  qemu_status, qemu_line, smaller, named, virsh_version, qemu_version,
}

abbrev start : Bytes
start = bytes "start"

abbrev shutdown : Bytes
shutdown = bytes "shutdown"

-- The machine that a program with its arguments starts or stops, and which of the two.
abbrev pub change : List Bytes → List (Bytes × Bytes)
change (program ∷ verb ∷ name ∷ []) =
    ite (Bytes_discrete verb start) ((start, name) ∷ [])
      (ite (Bytes_discrete verb shutdown) ((shutdown, name) ∷ []) [])
change _ = []

abbrev pub changes : List Event → List (Bytes × Bytes)
changes [] = []
changes (executed c ∷ es) = change c ++ changes es
changes (_ ∷ es) = changes es

abbrev pub one_of : Bytes → List Bytes → List (Bytes × Bytes)
one_of verb [] = []
one_of verb (name ∷ args) = (verb, name) ∷ []

-- What the arguments of the tool ask for.
abbrev pub asked : List Bytes → List (Bytes × Bytes)
asked (program ∷ cmd ∷ args) =
    ite (Bytes_discrete cmd start) (one_of start args)
      (ite (Bytes_discrete cmd (bytes "stop")) (one_of shutdown args) [])
asked _ = []

changes-indented : (ls : List Bytes) (es : List Event) → changes (indented ls ++ es) ≡ changes es
changes-indented [] es = refl
changes-indented ([] ∷ ls) es = changes-indented ls es
changes-indented ((b ∷ l) ∷ ls) es = changes-indented ls es

changes-qemu_line : (ls : List Bytes) → changes (qemu_line ls) ≡ []
changes-qemu_line [] = refl
changes-qemu_line (l ∷ ls) = refl

module _ (run : List Bytes → Bytes × Bool) (kvm : Bool) where
  changes-libvirt_status :
      (r : Bytes × Bool) (es : List Event) → changes (libvirt_status run kvm r ++ es) ≡ changes es
  changes-libvirt_status (out, true) es = refl
  changes-libvirt_status (out, false) es =
      changes-indented (take (smaller 3 (length (split b'\n' out))) (split b'\n' out)) es

  changes-qemu_status : (r : Bytes × Bool) → changes (qemu_status run kvm r) ≡ []
  changes-qemu_status (out, true) = refl
  changes-qemu_status (out, false) = changes-qemu_line (split b'\n' out)

  changes-listing : (r : Bytes × Bool) → changes (listing run kvm r) ≡ []
  changes-listing (out, true) = refl
  changes-listing (out, false) = refl

  changes-outcome : (text : Bytes) (r : Bytes × Bool) → changes (outcome run kvm text r) ≡ []
  changes-outcome text (out, true) = refl
  changes-outcome text (out, false) = refl

  changes-list_vms : changes (list_vms run kvm) ≡ []
  unfolding list_vms Bytes_discrete
  changes-list_vms = changes-listing _

  changes-status : changes (status run kvm) ≡ []
  unfolding status Bytes_discrete
  changes-status =
      let after = qemu_status run kvm (run (qemu_version run kvm)) in
      changes-libvirt_status (run (virsh_version run kvm)) (executed (qemu_version run kvm) ∷ after)
      ∙ changes-qemu_status (run (qemu_version run kvm))

  changes-start_vm : (name : Bytes) → changes (start_vm run kvm name) ≡ (start, name) ∷ []
  unfolding start_vm Bytes_discrete
  changes-start_vm name =
      ap (λ l. (start, name) ∷ l)
        (changes-outcome (bytes "[✓] Started: " ++ name) (run (bytes "virsh" ∷ start ∷ name ∷ [])))

  changes-stop_vm : (name : Bytes) → changes (stop_vm run kvm name) ≡ (shutdown, name) ∷ []
  unfolding stop_vm Bytes_discrete
  changes-stop_vm name =
      ap (λ l. (shutdown, name) ∷ l)
        (changes-outcome (bytes "[✓] Shutdown signal sent: " ++ name)
          (run (bytes "virsh" ∷ shutdown ∷ name ∷ [])))

  -- Without a name the two commands print how they are used.
  changes-named :
      (usage : Bytes)
      → (act : Bytes → List Event) → (verb : Bytes)
      → ((name : Bytes) → changes (act name) ≡ (verb, name) ∷ [])
      → (args : List Bytes) → changes (named run kvm usage act args) ≡ one_of verb args
  changes-named usage act verb h [] = refl
  changes-named usage act verb h (name ∷ args) = h name

  changes-command :
      (program cmd : Bytes)
      → (args : List Bytes) → changes (command run kvm cmd args) ≡ asked (program ∷ cmd ∷ args)
  unfolding command
  changes-command program cmd args = ground (
    arith,
    changes-list_vms,
    changes-status,
    changes-named (bytes "Usage: hypervisor start <vm-name>") (start_vm run kvm) start
        changes-start_vm args,
    changes-named (bytes "Usage: hypervisor stop <vm-name>") (stop_vm run kvm) shutdown
        changes-stop_vm args,
  )

  -- The tool makes libvirt start a machine, or shut it down, only if the arguments ask for that, and
  -- then it is the machine that they name; every other command changes no machine.
  pub changes-main : (args : List Bytes) → changes (main run kvm args) ≡ asked args
  unfolding main
  changes-main [] = refl
  changes-main (program ∷ []) = refl
  changes-main (program ∷ cmd ∷ args) = changes-command program cmd args
