-- ===== src/Tools.antt =====
-- The command-line tools: cmd/nodus/main.go in Tools/NodusTool, cmd/hypervisor/main.go in
-- Tools/HypervisorTool, cmd/hotkeyd/main.go in Tools/HotkeyTool.
--
-- What a tool does is a list of events, in order. The programs that it runs, its files and the network
-- are parameters.
pub mod NodusTool
pub mod HypervisorTool
pub mod HotkeyTool
pub mod Config
pub mod Requests
use crom_spirit_iso.Prelude.{ℕ, Option, none, some, List, [], ◌∷◌, ◌++◌}
use crom_spirit_iso.Prelude.Text.{Bytes, bytes}

-- Durations are in milliseconds; `executed` is a program with its arguments, `sent` a datagram that is
-- broadcast to a port.
pub data Event : Type 0 where
  printed : Bytes → Event
  executed : List Bytes → Event
  sent : ℕ → Bytes → Event
  slept : ℕ → Event
  made_directory : Bytes → Event

-- `fmt.Println` of a text.
abbrev pub line : Bytes → Event
line s = printed (s ++ bytes "\n")

-- A text between the terminal's codes for a colour and for none.
abbrev colored : Bytes → Bytes → Bytes
colored code s = 0x1b ∷ bytes "[" ++ code ++ bytes "m" ++ s ++ 0x1b ∷ bytes "[0m"

abbrev pub red : Bytes → Bytes
red = colored (bytes "31")

abbrev pub green : Bytes → Bytes
green = colored (bytes "32")

abbrev pub yellow : Bytes → Bytes
yellow = colored (bytes "33")

abbrev pub cyan : Bytes → Bytes
cyan = colored (bytes "36")
