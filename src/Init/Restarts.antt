-- ===== src/Init/Restarts.antt =====
-- How often cmd/init/main.go runs a service.
use crom_spirit_iso.Prelude.{
  ℕ, zero, suc, ◌+◌, ◌<◌, ◌≡◌, ◌≢◌, refl, Option, none, some, ◌++◌, length, List, [], ◌∷◌, arith,
  Option-cases, inl, inr,
}
use crom_spirit_iso.Prelude.Text.{Bytes, bytes}
use crom_spirit_iso.Init.{
  Event, slept, ran, printed, service_env, Stat, exists, not_exist, other_error, done, running,
  run_loop, launch_service,
}

abbrev count_runs : List Event → ℕ
count_runs [] = 0
count_runs (ran p env ∷ es) = 1 + count_runs es
count_runs (_ ∷ es) = count_runs es

-- The runs fail with these errors, in this order, and the next one does not.
abbrev pub FailsWith : (ℕ → Option Bytes) → List Bytes → ℕ → Type 0
FailsWith fails [] n = fails n ≡ none
FailsWith fails (err ∷ errs) n = (fails n ≡ some err) × FailsWith fails errs (n + 1)

-- A failed run, its message and five seconds for each error, and one more run of the program.
abbrev pub runs_until_good : Bytes → Bytes → List Bytes → List Event
runs_until_good name path [] = ran path service_env ∷ []
runs_until_good name path (err ∷ errs) =
    ran path service_env
    ∷ printed (bytes "❌ " ++ name ++ bytes " exited: " ++ err ++ bytes " (restarting in 5s)\n")
    ∷ slept 5000
    ∷ runs_until_good name path errs

module _ (name path : Bytes) (fails : ℕ → Option Bytes) where
  run_loop-runs_until_good :
      (errs : List Bytes) (fuel n : ℕ)
      → length errs < fuel
      → FailsWith fails errs n
      → run_loop name path fuel fails n ≡ (runs_until_good name path errs, done)
  unfolding run_loop
  run_loop-runs_until_good errs zero n h w = absurd (omega arith)
  run_loop-runs_until_good [] (suc fuel) n h w = rw (w, run_loop) refl
  run_loop-runs_until_good (err ∷ errs) (suc fuel) n h w =
      rw (w.0, run_loop, run_loop-runs_until_good errs fuel (n + 1) (omega arith) w.1) refl

  run_loop-running :
      (fuel n : ℕ)
      → ((i : ℕ) → fails i ≢ none)
      → let (es, ending) = run_loop name path fuel fails n in
        (ending ≡ running) × (count_runs es ≡ fuel)
  unfolding run_loop
  run_loop-running zero n bad = (refl, refl)
  run_loop-running (suc fuel) n bad =
      let again = run_loop-running fuel (n + 1) bad in
      elim (Option-cases (fails n)) [
        | inl now ↦ absurd (bad n now)
        | inr (err, now) ↦ rw (now, run_loop) (again.0, omega (arith, again))
      ]

  -- A service whose program is there is run, after its delay and its message, and run again five
  -- seconds after each failure, and not after the first run that ends well: with the first runs
  -- failing with some errors and the next run not, its goroutine does just this and returns, for any
  -- fuel above the number of failures.
  pub launch_service-runs_until_good :
      (stat : Stat)
      → (delay fuel : ℕ) (errs : List Bytes) → stat ≢ not_exist
      → length errs < fuel
      → FailsWith fails errs 0
      → launch_service name path fuel delay stat fails ≡ (
        slept delay
            ∷ printed (bytes "🔄 Starting " ++ name ++ bytes "...\n")
            ∷ runs_until_good name path errs,
        done,
      )
  unfolding launch_service
  launch_service-runs_until_good not_exist delay fuel errs there h w = absurd (there refl)
  launch_service-runs_until_good exists delay fuel errs there h w =
      rw (run_loop-runs_until_good errs fuel 0 h w) refl
  launch_service-runs_until_good other_error delay fuel errs there h w =
      rw (run_loop-runs_until_good errs fuel 0 h w) refl

  -- A service whose program is there and whose every run fails is never given up: however many rounds
  -- of its loop are allowed, its goroutine has run it that often and has not returned.
  launch_service-running :
      (stat : Stat)
      → (delay fuel : ℕ) → stat ≢ not_exist
      → ((i : ℕ) → fails i ≢ none)
      → let (es, ending) = launch_service name path fuel delay stat fails in
        (ending ≡ running) × (count_runs es ≡ fuel)
  unfolding launch_service
  launch_service-running not_exist delay fuel there bad = absurd (there refl)
  launch_service-running exists delay fuel there bad = run_loop-running fuel 0 bad
  launch_service-running other_error delay fuel there bad = run_loop-running fuel 0 bad
