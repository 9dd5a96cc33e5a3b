-- ===== src/Init/Boot.antt =====
-- What cmd/init/main.go does before its endless loop, whatever the mounts do.
use crom_spirit_iso.Prelude.{
  ◌≡◌, refl, ap, Option, none, some, List, [], ◌∷◌, ◌++◌, ℕ, ◌+◌, Option-cases, inl, inr, arith,
}
use crom_spirit_iso.Prelude.Text.{Bytes}
use crom_spirit_iso.Init.{
  Mount, Event, mounted, printed, mounts, mount_all, mount_report, launches, banner, boot,
}

abbrev pub attempted : List Event → List Mount
attempted [] = []
attempted (mounted m ∷ es) = m ∷ attempted es
attempted (_ ∷ es) = attempted es

abbrev pub count_printed : List Event → ℕ
count_printed [] = 0
count_printed (printed t ∷ es) = 1 + count_printed es
count_printed (_ ∷ es) = count_printed es

abbrev pub count_failures : (Mount → Option Bytes) → List Mount → ℕ
count_failures fails [] = 0
count_failures fails (m ∷ ms) =
    let n = count_failures fails ms in elim (fails m) [ none ↦ n | some err ↦ 1 + n ]

module _ (fails : Mount → Option Bytes) where
  mount_all-attempted :
      (ms : List Mount)
      → (rest : List Event)
      → (attempted (mount_all fails ms ++ rest) ≡ ms ++ attempted rest)
        × (count_printed (mount_all fails ms ++ rest)
            ≡ count_failures fails ms + count_printed rest)
  unfolding mount_all
  mount_all-attempted [] rest = (refl, omega arith)
  mount_all-attempted (m ∷ ms) rest =
      let again = mount_all-attempted ms rest in
      elim (Option-cases (fails m)) [
        | inl fine ↦ rw (fine, mount_all, count_failures) (ap (λ l. m ∷ l) again.0, again.1)
        | inr (err, failed) ↦
            rw (failed, mount_all, count_failures) (ap (λ l. m ∷ l) again.0, omega (arith, again))
      ]

  -- Whatever mounts fail, the boot attempts the five of the table in their order, prints one line for
  -- each that fails beside its own five lines, and goes on to launch the services after it has reported
  -- that the file systems are mounted.
  pub boot-attempted :
      (os arch now : Bytes)
      → (attempted (boot os arch now fails) ≡ mounts)
        × (count_printed (boot os arch now fails) ≡ count_failures fails mounts + 5)
        × ((es : List Event) × (boot os arch now fails ≡ es ++ mount_report none ∷ launches))
  unfolding boot
  boot-attempted os arch now =
      let all = mount_all-attempted mounts (mount_report none ∷ launches) in
      (all.0, omega (arith, all.1), (banner os arch now ++ mount_all fails mounts, refl))
