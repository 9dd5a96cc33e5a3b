-- ===== src/Agent/Ending.antt =====
-- When the interactive loop of cmd/ai/main.go ends.
use crom_spirit_iso.Prelude.{ℕ, zero, suc, true, false, [], ◌∷◌, ◌≡◌, refl, subst, sym}
use crom_spirit_iso.Prelude.Strings.{trim_space, leading}
use crom_spirit_iso.Prelude.Text.{Bytes, Bytes_discrete}
use crom_spirit_iso.Agent.{Agent, System}
use crom_spirit_iso.Agent.Actions.{read_line, equal}
use crom_spirit_iso.Agent.Session.{
  exited, running, is_exit, prompted, farewell, greeted, interactive_loop, interactive,
}

nothing_read : (input : Bytes) → input ≡ [] → equal (trim_space (read_line input).0) [] ≡ true
unfolding read_line trim_space leading equal Bytes_discrete
nothing_read input h = subst (λ s. equal (trim_space (read_line s).0) [] ≡ true) (sym h) refl

nothing_left : (input : Bytes) → input ≡ [] → (read_line input).1 ≡ []
unfolding read_line
nothing_left input h = subst (λ s. (read_line s).1 ≡ []) (sym h) refl

not-empty_of_exit : (s : Bytes) → is_exit s ≡ true → equal s [] ≡ false
unfolding is_exit equal Bytes_discrete
not-empty_of_exit [] h = cc
not-empty_of_exit (x ∷ s) h = refl

-- The state after a number of prompts.
abbrev pub prompts : ℕ → Agent → Agent
prompts zero a = a
prompts (suc n) a = prompts n (prompted a)

module _ (sys : System) where
  loop_at_end :
      (fuel : ℕ) (a : Agent) → a.input ≡ [] → interactive_loop sys fuel a ≡ running (prompts fuel a)
  unfolding interactive_loop
  loop_at_end zero a h = refl
  loop_at_end (suc fuel) a h =
      rw (nothing_read a.input h) (loop_at_end fuel (prompted a) (nothing_left a.input h))

  -- With standard input at its end the loop never ends: after any number of rounds it is running,
  -- and has done nothing but print the greeting and a prompt for each round.
  pub interactive_at_end :
      (fuel : ℕ) (a : Agent)
      → a.input ≡ []
      → interactive sys fuel a ≡ running (prompts fuel (greeted a))
  unfolding interactive greeted
  interactive_at_end fuel a h = loop_at_end fuel (greeted a) h

  -- A line that is `sair` or `exit` but for white space ends the session in its round: with fuel
  -- for one round it exits with the farewell, having read that line and run nothing.
  interactive_exit :
      (fuel : ℕ) (a : Agent)
      → is_exit (trim_space (read_line a.input).0) ≡ true
      → interactive sys (suc fuel) a ≡ exited (farewell (greeted a))
  unfolding interactive interactive_loop greeted
  interactive_exit fuel a h = rw (not-empty_of_exit (trim_space (read_line a.input).0) h, h)
