-- ===== src/Agent/Commands.antt =====
-- The command tables and `executeCommand` of cmd/ai/main.go.
use crom_spirit_iso.Prelude.{
  Bool, true, false, not, ◌&&◌, List, [], ◌∷◌, ◌++◌, ite, ltb, if◌then◌else◌, length, take,
}
use crom_spirit_iso.Prelude.Strings.{fields}
use crom_spirit_iso.Prelude.Text.{Bytes, Bytes_discrete, bytes}
use crom_spirit_iso.Agent.{Command, Event, executed, Agent, Outcome, succeeded, failed, System}

-- A `map[string]bool` whose values are all `true`, as the list of its keys.
abbrev pub NameSet : Type 0
NameSet = List Bytes

unfoldable pub has : NameSet → Bytes → Bool
has [] name = false
has (n ∷ ns) name = ite (Bytes_discrete n name) true (has ns name)

unfoldable pub safe_commands : NameSet
safe_commands =
    bytes "free"
    ∷ bytes "df"
    ∷ bytes "uptime"
    ∷ bytes "hostname"
    ∷ bytes "uname"
    ∷ bytes "date"
    ∷ bytes "whoami"
    ∷ bytes "pwd"
    ∷ bytes "ls"
    ∷ bytes "cat"
    ∷ bytes "ps"
    ∷ bytes "top"
    ∷ bytes "htop"
    ∷ bytes "ip"
    ∷ bytes "ifconfig"
    ∷ bytes "ping"
    ∷ bytes "nodus"
    ∷ bytes "hypervisor"
    ∷ bytes "lspci"
    ∷ bytes "lsusb"
    ∷ bytes "dmesg"
    ∷ []

unfoldable pub blocked_commands : NameSet
blocked_commands =
    bytes "rm"
    ∷ bytes "rmdir"
    ∷ bytes "dd"
    ∷ bytes "mkfs"
    ∷ bytes "fdisk"
    ∷ bytes "parted"
    ∷ bytes "mount"
    ∷ bytes "umount"
    ∷ bytes "kill"
    ∷ bytes "killall"
    ∷ bytes "pkill"
    ∷ bytes "reboot"
    ∷ bytes "poweroff"
    ∷ bytes "shutdown"
    ∷ bytes "halt"
    ∷ bytes "init"
    ∷ bytes "systemctl"
    ∷ bytes "chmod"
    ∷ bytes "chown"
    ∷ bytes "passwd"
    ∷ bytes "useradd"
    ∷ bytes "userdel"
    ∷ bytes "curl"
    ∷ bytes "wget"
    ∷ bytes "apt"
    ∷ bytes "apk"
    ∷ bytes "pip"
    ∷ bytes "npm"
    ∷ []

-- The warning sign, with the selector of its emoji form.
abbrev pub warning : Bytes
warning = bytes "⚠" ++ 0xef ∷ 0xb8 ∷ 0x8f ∷ []

abbrev log : Agent → Event → Agent
log a e = record a { events = e ∷ a.events }

-- What is said of a command that has run.
unfoldable pub report : Outcome → Bytes
report (failed err out) = bytes "Erro: " ++ err ++ bytes "\n" ++ out
report (succeeded out) =
    if ltb 1000 (length out) then take 1000 out ++ bytes "... (truncado)" else out

module _ (sys : System) where
  -- The call of `exec.Command`, and its report.
  unfoldable pub execute : Agent → Command → Agent × Bytes
  execute a c = (log a (executed c), report (sys.combined_output a.events c))

  -- On the fields of the command line.
  unfoldable pub execute_fields : Agent → List Bytes → Bool → Agent × Bytes
  execute_fields a [] forced = (a, [])
  execute_fields a (cmd ∷ args) forced =
      if has blocked_commands cmd && not forced
      then (a, bytes "⛔ Comando '" ++ cmd ++ bytes "' requer permissão")
      else if not (has safe_commands cmd) && not forced
      then (a, warning ++ bytes " Comando '" ++ cmd ++ bytes "' não reconhecido como seguro")
      else execute a (record { name = cmd; args = args })

  unfoldable pub execute_command : Agent → Bytes → Bool → Agent × Bytes
  execute_command a cmd_str forced = execute_fields a (fields cmd_str) forced
