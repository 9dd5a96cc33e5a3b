-- ===== src/Init.antt =====
-- The first process: cmd/init/main.go.
--
-- The kernel is a parameter: whether a mount fails, whether a path exists, and how each run of a
-- program ends. What a function does is a list of events, in order.
pub mod Boot
pub mod Restarts
use crom_spirit_iso.Prelude.{ℕ, zero, suc, ◌+◌, Option, none, some, List, [], ◌∷◌, ◌++◌, map}
use crom_spirit_iso.Prelude.Text.{warning_sign, Bytes, bytes}

pub record Mount : Type 0 where
  pub source : Bytes
  pub target : Bytes
  pub fstype : Bytes

-- Durations are in milliseconds.
pub data Event : Type 0 where
  mounted : Mount → Event
  printed : Bytes → Event
  slept : ℕ → Event
  -- A program, with its environment.
  ran : Bytes → List Bytes → Event
  named_host : Bytes → Event
  launched : Bytes → Bytes → ℕ → Event
  launched_shell : Event

abbrev pub mounts : List Mount
mounts =
    record { source = bytes "proc"; target = bytes "/proc"; fstype = bytes "proc" }
    ∷ record { source = bytes "sysfs"; target = bytes "/sys"; fstype = bytes "sysfs" }
    ∷ record { source = bytes "tmpfs"; target = bytes "/tmp"; fstype = bytes "tmpfs" }
    ∷ record { source = bytes "devtmpfs"; target = bytes "/dev"; fstype = bytes "devtmpfs" }
    ∷ record { source = bytes "tmpfs"; target = bytes "/run"; fstype = bytes "tmpfs" }
    ∷ []

abbrev mount_warning : Mount → Option Bytes → List Event
mount_warning m none = []
mount_warning m (some err) =
    printed (warning_sign ++ bytes "  mount " ++ m.target ++ bytes ": " ++ err ++ bytes "\n") ∷ []

-- The error of each mount, or none.
unfoldable pub mount_all : (Mount → Option Bytes) → List Mount → List Event
mount_all fails [] = []
mount_all fails (m ∷ ms) = mounted m ∷ mount_warning m (fails m) ++ mount_all fails ms

-- With the error that it returns.
unfoldable pub mount_system : (Mount → Option Bytes) → List Event × Option Bytes
mount_system fails = (mount_all fails mounts, none)

-- What `os.Stat` says of a path.
pub data Stat : Type 0 where
  exists not_exist other_error : Stat

abbrev pub service_env : List Bytes
service_env =
    bytes "PATH=/bin:/sbin:/usr/bin:/usr/sbin" ∷ bytes "TERM=linux" ∷ bytes "HOME=/root" ∷ []

abbrev pub shell_env : List Bytes
shell_env = bytes "PATH=/bin:/sbin:/usr/bin:/usr/sbin" ∷ bytes "TERM=linux" ∷ []

-- How a service's goroutine ends: no program, a program that ended well, or not yet, when the fuel of
-- its loop has run out.
pub data Ending : Type 0 where
  missing done running : Ending

module _ (name path : Bytes) where
  abbrev pub restarting : Bytes → Event
  restarting err =
      printed (bytes "❌ " ++ name ++ bytes " exited: " ++ err ++ bytes " (restarting in 5s)\n")

  -- The loop, from the `n`-th run on; `fails` is the error of each run, or none.
  unfoldable pub run_loop : ℕ → (ℕ → Option Bytes) → ℕ → List Event × Ending
  run_loop zero fails n = ([], running)
  run_loop (suc fuel) fails n =
      let (later, ending) = run_loop fuel fails (n + 1) in
      elim (fails n) [
        | none ↦ (ran path service_env ∷ [], done)
        | some err ↦ (ran path service_env ∷ restarting err ∷ slept 5000 ∷ later, ending)
      ]

  abbrev pub not_found : Event
  not_found =
      printed
        (warning_sign ++ bytes "  " ++ name ++ bytes " binary not found at " ++ path ++ bytes "\n")

  abbrev pub starting : Event
  starting = printed (bytes "🔄 Starting " ++ name ++ bytes "...\n")

  unfoldable pub launch_service : ℕ → ℕ → Stat → (ℕ → Option Bytes) → List Event × Ending
  launch_service fuel delay not_exist fails = (slept delay ∷ not_found ∷ [], missing)
  launch_service fuel delay _ fails =
      let (later, ending) = run_loop fuel fails 0 in (slept delay ∷ starting ∷ later, ending)

-- The other goroutine: the error of the shell's run, or none.
abbrev shell_report : Option Bytes → List Event
shell_report none = []
shell_report (some err) = printed (bytes "❌ Shell exited: " ++ err ++ bytes "\n") ∷ []

unfoldable pub debug_shell : Option Bytes → List Event
debug_shell failure =
    slept 2000
    ∷ printed (bytes "🐚 Debug shell available on tty2 (Alt+F2)\n")
    ∷ ran (bytes "/bin/sh") shell_env
    ∷ shell_report failure

abbrev pub mount_report : Option Bytes → Event
mount_report none = printed (bytes "✅ Filesystems mounted (/proc, /sys, /dev)\n")
mount_report (some err) = printed (bytes "❌ Critical Error: " ++ err ++ bytes "\n")

-- What `main` does after the mounts and before its endless loop.
abbrev pub launches : List Event
launches =
    named_host (bytes "spirit-node-01")
    ∷ printed (bytes "🚀 Launching Spirit services...\n")
    ∷ launched (bytes "nodus") (bytes "/nodus") 500
    ∷ launched (bytes "nexus") (bytes "/nexus") 1000
    ∷ launched (bytes "hypervisor") (bytes "/hypervisor") 1500
    ∷ launched_shell
    ∷ printed (bytes "✅ init: All services launched. Entering main loop...\n")
    ∷ []

-- The system, the architecture and the time that the banner shows are parameters.
abbrev pub banner : Bytes → Bytes → Bytes → List Event
banner os arch now =
    printed (bytes "\n🔮 Crom-OS Spirit v1.0 (Foundation)\n")
    ∷ printed (
        bytes "Kernel: "
        ++ os
        ++ bytes " | Arch: "
        ++ arch
        ++ bytes " | Time: "
        ++ now
        ++ bytes "\n")
    ∷ []

-- `main`, without that loop.
unfoldable pub boot : Bytes → Bytes → Bytes → (Mount → Option Bytes) → List Event
unfolding mount_system
boot os arch now fails =
    let (events, err) = mount_system fails in
    banner os arch now ++ events ++ mount_report err ∷ launches
