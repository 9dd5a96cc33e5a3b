-- ===== src/Nexus/TextMode.antt =====
-- The text mode of cmd/nexus/main.go, which runs where there is no frame buffer.
--
-- What it reads, the host's name and the output of `free` are parameters. What it does is a list of
-- events, in order.
use crom_spirit_iso.Prelude.{
  ℕ, suc, ◌-◌, List, [], ◌∷◌, ◌++◌, ltb, leb, ite, if◌then◌else◌, length, take, replicate,
}
use crom_spirit_iso.Prelude.Text.{Bytes, bytes, Bytes_discrete}

-- `entered` is a line that is read.
pub data TextEvent : Type 0 where
  printed : Bytes → TextEvent
  entered : TextEvent
  executed : List Bytes → TextEvent

-- `fmt.Println` of a text.
abbrev text_line : Bytes → TextEvent
text_line s = printed (s ++ bytes "\n")

abbrev text_lines : List Bytes → List TextEvent
text_lines [] = []
text_lines (s ∷ ss) = text_line s ∷ text_lines ss

-- The runes of a UTF-8 text: its bytes without those that continue one.
abbrev rune_count : Bytes → ℕ
rune_count [] = 0
rune_count (b ∷ s) =
    let n = rune_count s in if leb 0x80 b then if ltb b 0xc0 then n else suc n else suc n

-- `%-26s`
unfoldable pub padded : ℕ → Bytes → Bytes
padded width s = s ++ replicate (width - rune_count s) b' '

abbrev smaller : ℕ → ℕ → ℕ
smaller a b = if ltb a b then a else b

-- On the host's name and what `free -h` printed.
unfoldable pub show_dashboard_text : Bytes → Bytes → List TextEvent
unfolding padded
show_dashboard_text hostname free =
    text_lines (
      []
      ∷ bytes "╔══════════════════════════════════════╗"
      ∷ bytes "║           SPIRIT DASHBOARD           ║"
      ∷ bytes "╠══════════════════════════════════════╣"
      ∷ [])
    ++ printed (bytes "║  Hostname: " ++ padded 26 hostname ++ bytes " ║\n")
      ∷ executed (bytes "free" ∷ bytes "-h" ∷ [])
      ∷ text_line (bytes "║                                      ║")
      ∷ text_line (bytes "║  Memory:                             ║")
      ∷ printed (bytes "║  " ++ take (smaller 36 (length free)) free)
      ∷ text_line (bytes "║                                      ║")
      ∷ text_line (bytes "║  [B] Back                            ║")
      ∷ text_line (bytes "╚══════════════════════════════════════╝")
      ∷ entered
      ∷ []

abbrev pub show_terminal_text : List TextEvent
show_terminal_text =
    text_lines (
      []
      ∷ bytes "╔══════════════════════════════════════╗"
      ∷ bytes "║          SPIRIT TERMINAL             ║"
      ∷ bytes "╚══════════════════════════════════════╝"
      ∷ []
      ∷ [])
    ++ executed (bytes "/bin/sh" ∷ []) ∷ []

abbrev pub menu : List TextEvent
menu =
    text_lines (
      []
      ∷ bytes "╔══════════════════════════════════════╗"
      ∷ bytes "║       🔮 NEXUS HUD (Text Mode)       ║"
      ∷ bytes "╠══════════════════════════════════════╣"
      ∷ bytes "║                                      ║"
      ∷ bytes "║  [D] Dashboard                       ║"
      ∷ bytes "║  [T] Terminal                        ║"
      ∷ bytes "║  [Q] Quit                            ║"
      ∷ bytes "║                                      ║"
      ∷ bytes "╚══════════════════════════════════════╝"
      ∷ []
      ∷ [])
    ++ printed (bytes "Select: ") ∷ entered ∷ []

-- A case of two words.
abbrev in_case : Bytes → Bytes → Bytes → List TextEvent → List TextEvent → List TextEvent
in_case input lower upper events others =
    ite (Bytes_discrete input lower) events (ite (Bytes_discrete input upper) events others)

-- The switch, on the word that was entered.
unfoldable pub choose : Bytes → Bytes → Bytes → List TextEvent
unfolding show_dashboard_text
choose input hostname free =
    in_case input (bytes "d") (bytes "D") (show_dashboard_text hostname free)
      (in_case input (bytes "t") (bytes "T") show_terminal_text [])

unfoldable pub run_text_mode : Bytes → Bytes → Bytes → List TextEvent
unfolding choose
run_text_mode input hostname free = menu ++ choose input hostname free
