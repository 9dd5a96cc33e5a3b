-- ===== src/Ui/Hud.antt =====
-- The status bar: internal/ui/hud.go, without its drawing.
--
-- The clock, the memory in use, the file /proc/meminfo and what `os.Stat` finds are parameters.
use crom_spirit_iso.Prelude.{
  ℕ, ◌+◌, ◌-◌, ◌*◌, ◌/◌, ◌^◌, Bool, Option, none, some, List, [], ◌∷◌, ◌++◌, drop, length, ltb,
  ◌==◌, if◌then◌else◌,
}
use crom_spirit_iso.Prelude.Text.{Bytes, bytes}
use crom_spirit_iso.Prelude.Strings.{split, has_prefix, leading, space_width}
use crom_spirit_iso.Prelude.Numbers.{is_digit, decimal}

-- Times are in nanoseconds; `last_update` is none for the zero time, which is long ago. The sizes of
-- the screen are int32, and the field `cpuUsage`, which nothing uses, is left out.
pub record Hud : Type 0 where
  pub screen_width : ℕ
  pub screen_height : ℕ
  pub mem_used : ℕ
  pub mem_total : ℕ
  pub nodus_status : Bytes
  pub nodus_info : Bytes
  pub last_update : Option ℕ

unfoldable pub new_hud : ℕ → ℕ → Hud
new_hud width height = record {
  screen_width = width;
  screen_height = height;
  mem_used = 0;
  mem_total = 0;
  nodus_status = bytes "Checking...";
  nodus_info = [];
  last_update = none;
}

-- The digits at the head as a number, after the number `n` read so far.
unfoldable number_from : ℕ → Bytes → ℕ
number_from n [] = n
number_from n (b ∷ s) =
    let rest = number_from (n * 10 + (b - b'0')) s in if is_digit b then rest else n

-- `%d` for a uint64: out of range is an error, which leaves 0, as no digit does.
abbrev scan_uint64 : Bytes → ℕ
scan_uint64 s = let n = number_from 0 s in if ltb n (2 ^ 64) then n else 0

-- `Sscanf` with "MemTotal: %d kB" on a text that begins so: the space wants one or more of the text.
abbrev scan_total : Bytes → ℕ
scan_total s = if space_width s == 0 then 0 else scan_uint64 (drop (leading space_width 0 s) s)

abbrev mem_total_label : Bytes
mem_total_label = bytes "MemTotal:"

-- The loop over the lines.
unfoldable pub total_of : List Bytes → ℕ
unfolding number_from
total_of [] = 0
total_of (line ∷ lines) =
    let later = total_of lines in
    if has_prefix line mem_total_label
    then scan_total (drop (length mem_total_label) line) / 1024
    else later

-- On what reading the file returned; `none` is an error.
unfoldable pub get_total_memory : Option Bytes → ℕ
unfolding total_of
get_total_memory none = 0
get_total_memory (some text) = total_of (split b'\n' text)

-- Whether the socket, and the mount point, are there.
unfoldable pub check_nodus_status : Bool → Bool → Bytes × Bytes
check_nodus_status socket mounted =
    if socket
    then (bytes "Online", bytes "P2P Active")
    else if mounted
    then (bytes "Mounted", bytes "/mnt/nodus")
    else (bytes "Offline", bytes "Not running")

abbrev is_recent : ℕ → Option ℕ → Bool
is_recent now none = Bool.false
is_recent now (some last) = ltb (now - last) 1000000000

-- `alloc` is the memory in use, in bytes.
unfoldable pub update : Hud → ℕ → ℕ → Option Bytes → Bool → Bool → Hud
unfolding get_total_memory check_nodus_status
update h now alloc meminfo socket mounted =
    let (status, info) = check_nodus_status socket mounted in
    if is_recent now h.last_update then h else record h {
      last_update = some now;
      mem_used = alloc / 1024 / 1024;
      mem_total = get_total_memory meminfo;
      nodus_status = status;
      nodus_info = info;
    }

unfoldable pub set_nodus_status : Hud → Bytes → Bytes → Hud
set_nodus_status h status info = record h { nodus_status = status; nodus_info = info }

-- The text on the right of the bar.
unfoldable pub info_text : Hud → Bytes
info_text h =
    let used = bytes "RAM: " ++ decimal h.mem_used in
    let total = if ltb 0 h.mem_total then bytes "/" ++ decimal h.mem_total else [] in
    used ++ total ++ bytes "MB | Nodus: " ++ h.nodus_status
