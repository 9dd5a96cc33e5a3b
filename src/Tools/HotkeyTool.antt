-- ===== src/Tools/HotkeyTool.antt =====
-- The daemon `hotkeyd`: cmd/hotkeyd/main.go.
--
-- Its keyboard monitor is a goroutine that prints a line and ends, so the daemon does no more until a
-- signal comes.
use crom_spirit_iso.Prelude.{ℕ, List, [], ◌∷◌, ◌++◌, ◌==◌, if◌then◌else◌}
use crom_spirit_iso.Prelude.Text.{warning_sign, Bytes, bytes}
use crom_spirit_iso.Tools.{Event, executed, line}

-- On the user id of the process.
abbrev root_warning : ℕ → List Event
root_warning uid =
    if uid == 0
    then []
    else line (warning_sign ++ bytes "  Running without root - hotkeys may not work") ∷ []

-- Up to the wait for a signal.
unfoldable pub main_before_signal : ℕ → List Event
main_before_signal uid =
    line (bytes "🎹 Spirit Hotkey Daemon Starting...") ∷ root_warning uid
    ++ line (bytes "✅ Listening for hotkeys:")
      ∷ line (bytes "   Super+Space  → Toggle Nexus Dashboard")
      ∷ line (bytes "   Super+Enter  → Open Terminal")
      ∷ line (bytes "   Super+Esc    → Exit to shell")
      ∷ line []
      ∷ line (bytes "Press Ctrl+C to stop daemon...")
      ∷ []

abbrev pub main_after_signal : List Event
main_after_signal = line (bytes "\n👋 Hotkey daemon stopped") ∷ []

abbrev pub monitor_keyboard : List Event
monitor_keyboard = line (bytes "📡 Keyboard monitoring active") ∷ []

unfoldable pub launch_nexus : Bytes → List Event
launch_nexus mode = executed (bytes "/spirit/bin/nexus" ∷ mode ∷ []) ∷ []
