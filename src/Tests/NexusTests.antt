-- ===== src/Tests/NexusTests.antt =====
-- The frame buffer of cmd/nexus/main.go on a screen of four by three pixels.
use crom_spirit_iso.Prelude.{◌++◌, ◌&&◌, ◌≡◌, refl, [], ◌∷◌, map, arith}
use crom_spirit_iso.Nexus.{
  pos, negsuc, NexusApp, set_pixel, fill_row, fill_rows, fill_rect, rounds, run, terminal, bubble,
  square,
}
use crom_spirit_iso.Prelude.Text.{bytes, Bytes_discrete}
use crom_spirit_iso.Nexus.TextMode.{run_text_mode, choose, menu, show_terminal_text, padded}
use crom_spirit_iso.Nexus.Painting
use crom_spirit_iso.Nexus.Painting.{pixel, covers, Paints}
use crom_spirit_iso.Nexus.Frames

program : Unit {0}
unfolding set_pixel fill_row fill_rows fill_rect
program = tt

abbrev screen : NexusApp
screen = record { width = 4; height = 3; fb_len = 48; fb_data = λ i. 0 }

-- A rectangle of three by two pixels that begins one pixel left of the screen.
painted :
    map
      (fill_rect screen (negsuc 0) (pos 1) (pos 3) (pos 2) 7).fb_data
      (0 ∷ 1 ∷ 2 ∷ 3 ∷ 4 ∷ 5 ∷ 6 ∷ 7 ∷ 8 ∷ 9 ∷ 10 ∷ 11 ∷ [])
    ≡ 0 ∷ 0 ∷ 0 ∷ 0 ∷ 7 ∷ 7 ∷ 0 ∷ 0 ∷ 7 ∷ 7 ∷ 0 ∷ 0 ∷ []
unfolding program
painted = refl

fill_rect-Paints_example :
    Paints
      (λ i j. covers (negsuc 0) (rounds (pos 3)) i && covers (pos 1) (rounds (pos 2)) j)
      7
      screen
      (fill_rect screen (negsuc 0) (pos 1) (pos 3) (pos 2) 7)
fill_rect-Paints_example =
    Painting.fill_rect-Paints 7 screen (negsuc 0) (pos 1) (pos 3) (pos 2) (omega arith)

-- A rectangle over the whole screen, on a buffer that is one byte short.
abbrev short : NexusApp
short = record screen { fb_len = 47 }

fill_rect-beyond_example :
    (fill_rect short (pos 0) (pos 0) (pos 4) (pos 3) 7).fb_data 11 ≡ short.fb_data 11
fill_rect-beyond_example =
    Painting.fill_rect-beyond 11 short (pos 0) (pos 0) (pos 4) (pos 3) 7 (omega arith)

abbrev wide : NexusApp
wide = record { width = 12; height = 8; fb_len = 384; fb_data = λ i. 0 }

pixel-run_example :
    pixel (run terminal 3 wide) 5 1
    ≡ Frames.picture terminal wide.width wide.height 5 1 (pixel wide 5 1)
pixel-run_example = Frames.pixel-run 2 terminal wide 5 1 (omega arith) (omega arith) (omega arith)

-- The gap between the tiles, and a place beside the bubble's disc on the full screen.
pictures :
    (Frames.picture terminal 12 8 5 1 0 ≡ 0xFF101020)
    × (Frames.picture bubble 1920 1080 1870 1000 7 ≡ 0xFF00AAFF
        × Frames.picture bubble 1920 1080 1871 1000 7 ≡ 7)
unfolding square
pictures = (refl, (refl, refl))

-- In the text mode, `T` runs a shell and `q` does nothing; the dashboard shows 36 bytes at most.
shell_run : run_text_mode (bytes "T") [] [] ≡ menu ++ show_terminal_text
unfolding run_text_mode choose Bytes_discrete
shell_run = refl

quit : run_text_mode (bytes "q") [] [] ≡ menu
unfolding run_text_mode choose Bytes_discrete
quit = refl

padded_name : padded 5 (bytes "né") ≡ bytes "né   "
unfolding padded
padded_name = refl
