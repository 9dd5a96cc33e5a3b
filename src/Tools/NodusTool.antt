-- ===== src/Tools/NodusTool.antt =====
-- The command `nodus`: cmd/nodus/main.go.
use crom_spirit_iso.Prelude.{ℕ, Option, none, some, List, [], ◌∷◌, ◌++◌, ite}
use crom_spirit_iso.Prelude.Text.{Bytes, bytes, Bytes_discrete}
use crom_spirit_iso.Prelude.Strings.{split, split_2, trim_space}
use crom_spirit_iso.Prelude.Dict.{insert}
use crom_spirit_iso.Tools.{
  Event, printed, sent, slept, made_directory, line, red, green, yellow, cyan,
}

abbrev pub version : Bytes
version = bytes "1.0.0"

abbrev pub discovery_port : ℕ
discovery_port = 7331

abbrev pub print_usage : List Event
print_usage =
    line (
      bytes "\n╔══════════════════════════════════════╗\n"
      ++ bytes "║      NODUS - P2P Storage             ║\n"
      ++ bytes "╚══════════════════════════════════════╝\n"
      ++ bytes "\nUsage: nodus <command>\n\nCommands:\n"
      ++ bytes "  discover  - Find peers on LAN\n"
      ++ bytes "  peers     - List connected peers\n"
      ++ bytes "  mount     - Mount Nodus volume\n"
      ++ bytes "  sync      - Sync data to network\n"
      ++ bytes "  status    - Show status\n"
      ++ bytes "  version   - Show version\n")
    ∷ []

abbrev seeking : Option Bytes → List Event
seeking (some err) = printed (red (bytes "[✗] Broadcast failed: " ++ err) ++ bytes "\n") ∷ []
seeking none =
    sent discovery_port (bytes "CROM_SPIRIT_SEEK")
    ∷ slept 500
    ∷ line (green (bytes "[✓] Discovery complete"))
    ∷ line (bytes "    Peers found: 0 (standalone mode)")
    ∷ []

-- The error of opening the socket, or none.
unfoldable pub discover : Option Bytes → List Event
discover dial =
    line (yellow (bytes "[*] Discovering peers on LAN..."))
    ∷ printed (bytes "    Broadcast UDP:7331...\n")
    ∷ seeking dial

abbrev pub list_peers : List Event
list_peers =
    line (bytes "Connected Peers:")
    ∷ line (bytes "  (No peers connected)")
    ∷ line []
    ∷ line (bytes "Use " ++ cyan (bytes "nodus discover") ++ bytes " to find peers")
    ∷ []

-- On the arguments after the command.
abbrev mount_point : List Bytes → Bytes
mount_point [] = bytes "/mnt/nodus"
mount_point (arg ∷ args) = arg

unfoldable pub mount : List Bytes → List Event
mount args =
    line (yellow (bytes "[*] Mounting Nodus volume..."))
    ∷ made_directory (mount_point args)
    ∷ printed (green (bytes "[✓] Mount point ready: " ++ mount_point args) ++ bytes "\n")
    ∷ line (bytes "    (Use tmpfs cache in standalone mode)")
    ∷ []

abbrev pub status : Bytes → List Event
status hostname =
    line (bytes "Nodus Status:")
    ∷ line (bytes "  Mode:    " ++ green (bytes "Standalone"))
    ∷ printed (bytes "  Node:    " ++ hostname ++ bytes "\n")
    ∷ line (bytes "  Cache:   /mnt/nodus")
    ∷ line (bytes "  Peers:   0")
    ∷ line (bytes "  Network: Not connected")
    ∷ []

abbrev pub sync_data : List Event
sync_data =
    line (yellow (bytes "[*] Syncing to network..."))
    ∷ slept 200
    ∷ line (green (bytes "[✓] Sync complete (no changes)"))
    ∷ []

module _ (dial : Option Bytes) (hostname : Bytes) where
  abbrev pub commands : List Bytes → List (Bytes × List Event)
  commands args =
      (bytes "discover", discover dial)
      ∷ (bytes "peers", list_peers)
      ∷ (bytes "mount", mount args)
      ∷ (bytes "status", status hostname)
      ∷ (bytes "sync", sync_data)
      ∷ (bytes "version", printed (bytes "Nodus v" ++ version ++ bytes "\n") ∷ [])
      ∷ []

  -- The cases of the switch, in their order.
  abbrev switch : Bytes → List (Bytes × List Event) → List Event
  switch cmd [] = print_usage
  switch cmd ((name, events) ∷ cases) = ite (Bytes_discrete cmd name) events (switch cmd cases)

  -- On the arguments of the process, the first being its own name.
  unfoldable pub main : List Bytes → List Event
  main (program ∷ cmd ∷ args) = switch cmd (commands args)
  main _ = print_usage

-- `config[k] = v` for a line that was split into these parts.
abbrev pub read_line : List Bytes → List (Bytes × Bytes) → List (Bytes × Bytes)
read_line (k ∷ v ∷ []) config = insert Bytes_discrete (trim_space k) (trim_space v) config
read_line parts config = config

unfoldable pub read_lines : List Bytes → List (Bytes × Bytes) → List (Bytes × Bytes)
read_lines [] config = config
read_lines (l ∷ ls) config = read_lines ls (read_line (split_2 b'=' l) config)

-- On what the file's reading returned; `none` is an error.
unfoldable pub read_config : Option Bytes → List (Bytes × Bytes)
unfolding read_lines
read_config none = []
read_config (some text) = read_lines (split b'\n' text) []
