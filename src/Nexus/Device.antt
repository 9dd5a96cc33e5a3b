-- ===== src/Nexus/Device.antt =====
-- How cmd/nexus/main.go opens and closes the frame buffer's device, and which mode it runs.
--
-- The kernel is a parameter: the descriptor that opening the device returns, and whether it is mapped.
use crom_spirit_iso.Prelude.{
  ℕ, ◌*◌, ◌≡◌, refl, Bool, true, false, Option, none, some, List, [], ◌∷◌, ◌++◌, ltb, if◌then◌else◌,
  ◌<◌, lt→ltb,
}

pub data DeviceCall : Type 0 where
  opened closed : ℕ → DeviceCall
  -- With the number of bytes.
  mapped : ℕ → DeviceCall
  unmapped : DeviceCall

abbrev pub width : ℕ
width = 1920

abbrev pub height : ℕ
height = 1080

-- The descriptor, or none for an error, and the calls in their order.
unfoldable pub init_framebuffer : Option ℕ → Bool → Option ℕ × List DeviceCall
init_framebuffer none maps = (none, [])
init_framebuffer (some fd) true = (some fd, opened fd ∷ mapped (width * height * 4) ∷ [])
init_framebuffer (some fd) false = (none, opened fd ∷ mapped (width * height * 4) ∷ closed fd ∷ [])

-- Of a buffer that is mapped.
unfoldable pub close_framebuffer : ℕ → List DeviceCall
close_framebuffer fd = unmapped ∷ (if ltb 0 fd then closed fd ∷ [] else [])

-- What `main` calls, if the main loop ended.
abbrev pub session : Option ℕ × List DeviceCall → List DeviceCall
session (none, calls) = calls
session (some fd, calls) = calls ++ close_framebuffer fd

-- The descriptors that are open after some calls, when a closed one is the latest that was opened.
abbrev pub open_after : List ℕ → List DeviceCall → List ℕ
open_after fds [] = fds
open_after fds (opened fd ∷ calls) = open_after (fd ∷ fds) calls
open_after [] (closed fd ∷ calls) = open_after [] calls
open_after (g ∷ fds) (closed fd ∷ calls) = open_after fds calls
open_after fds (_ ∷ calls) = open_after fds calls

-- A device with a descriptor other than 0 is closed again, mapped or not.
open_after-session :
    (fd : ℕ) (maps : Bool) → 0 < fd → open_after [] (session (init_framebuffer (some fd) maps)) ≡ []
unfolding init_framebuffer close_framebuffer
open_after-session fd true h = rw (lt→ltb 0 fd h) refl
open_after-session fd false h = refl
