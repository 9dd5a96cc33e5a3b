-- ===== src/Tests/InitTests.antt =====
-- The start of cmd/init/main.go and one of its services.
use crom_spirit_iso.Prelude.{
  ℕ, zero, suc, ◌+◌, ◌≡◌, refl, Option, none, some, List, [], ◌∷◌, ◌++◌, arith,
}
use crom_spirit_iso.Prelude.Text.{Bytes, bytes}
use crom_spirit_iso.Init.{
  Mount, Event, slept, printed, exists, done, mounts, mount_all, mount_report, launches, run_loop,
  launch_service, boot,
}
use crom_spirit_iso.Init.Boot
use crom_spirit_iso.Init.Boot.{attempted, count_printed, count_failures}
use crom_spirit_iso.Init.Restarts
use crom_spirit_iso.Init.Restarts.{runs_until_good}

program : Unit {0}
unfolding mount_all run_loop launch_service boot
program = tt

-- The first two runs fail.
abbrev twice : ℕ → Option Bytes
twice zero = some (bytes "exit status 1")
twice (suc zero) = some (bytes "exit status 1")
twice (suc (suc n)) = none

abbrev always : ℕ → Option Bytes
always n = some (bytes "exit status 1")

abbrev nodus : Bytes
nodus = bytes "nodus"

abbrev path : Bytes
path = bytes "/nodus"

launch_service-runs_until_good_example : launch_service nodus path 3 500 exists twice ≡ (
  slept 500
      ∷ printed (bytes "🔄 Starting " ++ nodus ++ bytes "...\n")
      ∷ runs_until_good nodus path (bytes "exit status 1" ∷ bytes "exit status 1" ∷ []),
  done,
)
launch_service-runs_until_good_example =
    Restarts.launch_service-runs_until_good nodus path twice exists 500 3
      (bytes "exit status 1" ∷ bytes "exit status 1" ∷ []) (λ e. absurd (cc)) (omega arith)
      (refl, (refl, refl))

-- Every mount fails.
abbrev denied : Mount → Option Bytes
denied m = some (bytes "operation not permitted")

abbrev booted : List Event
booted = boot (bytes "linux") (bytes "amd64") (bytes "now") denied

failures : count_failures denied mounts ≡ 5
failures = refl

boot-attempted_example :
    (attempted booted ≡ mounts)
    × (count_printed booted ≡ count_failures denied mounts + 5)
    × ((es : List Event) × (booted ≡ es ++ mount_report none ∷ launches))
boot-attempted_example = Boot.boot-attempted denied (bytes "linux") (bytes "amd64") (bytes "now")
