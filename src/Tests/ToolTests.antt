-- ===== src/Tests/ToolTests.antt =====
-- The tools of cmd/nodus/main.go and cmd/hypervisor/main.go on a few arguments and a file.
use crom_spirit_iso.Prelude.{length, All, ◌≡◌, refl, Bool, true, false, some, List, [], ◌∷◌}
use crom_spirit_iso.Prelude.Text.{Bytes, bytes, Bytes_discrete}
use crom_spirit_iso.Prelude.Strings.{join, trim_space, split_from, split_2_from}
use crom_spirit_iso.Prelude.Dict.{lookup, insert}
use crom_spirit_iso.Tools.NodusTool.{read_lines, read_config}
use crom_spirit_iso.Tools.Config
use crom_spirit_iso.Tools.Config.{render, IsSetting, last_value}
use crom_spirit_iso.Tools.HypervisorTool.{start_vm, stop_vm, command, main}
use crom_spirit_iso.Tools.HotkeyTool.{main_before_signal}
use crom_spirit_iso.Tools.Requests
use crom_spirit_iso.Tools.Requests.{changes, asked}

program : Unit {0}
unfolding trim_space Bytes_discrete join lookup insert split_from split_2_from read_lines
    read_config start_vm stop_vm command main
program = tt

-- A key that is set twice.
abbrev settings : List (Bytes × Bytes)
settings = (bytes "k", bytes "1") ∷ (bytes "k", bytes "2") ∷ []

last_setting : last_value (bytes "k") settings ≡ some (bytes "2")
unfolding program
last_setting = refl

settings-IsSetting : All IsSetting settings
unfolding program
settings-IsSetting = (
  ((refl, tt), (refl, tt), (refl, tt), refl, refl),
  (((refl, tt), (refl, tt), (refl, tt), refl, refl), tt),
)

read_config-render_example :
    lookup Bytes_discrete (bytes "k") (read_config (some (render settings)))
    ≡ last_value (bytes "k") settings
read_config-render_example = Config.read_config-render (bytes "k") settings settings-IsSetting

-- libvirt does not answer.
abbrev run : List Bytes → Bytes × Bool
run command = (bytes "error: failed to connect\n", true)

abbrev arguments : List Bytes
arguments = bytes "hypervisor" ∷ bytes "stop" ∷ bytes "windows" ∷ []

changes-main_example : changes (main run false arguments) ≡ asked arguments
changes-main_example = Requests.changes-main run false arguments

-- The daemon starts as root, and prints no warning.
lines_of_root : length (main_before_signal 0) ≡ 7
unfolding main_before_signal
lines_of_root = refl
