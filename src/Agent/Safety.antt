-- ===== src/Agent/Safety.antt =====
-- Which commands the agent of cmd/ai/main.go runs: the safe ones, and those that the user has just
-- allowed.
use crom_spirit_iso.Prelude.{
  ℕ, zero, suc, Bool, true, false, Option, none, some, List, [], ◌∷◌, ◌≡◌, refl, ◌⊎◌, inl, inr,
  arith, Bool-cases, ℕ_discrete,
}
use crom_spirit_iso.Prelude.Strings.{fields, trim_space, split, has_prefix, trim_prefix, join}
use crom_spirit_iso.Prelude.Text.{Bytes, Bytes_discrete, bytes}
use crom_spirit_iso.Agent.{Command, Event, executed, asked, printed, Agent, System}
use crom_spirit_iso.Agent.Commands.{has, safe_commands, execute, execute_fields, execute_command}
use crom_spirit_iso.Agent.Actions.{
  equal, read_line, is_yes, command_line, ask_permission, process_line, process_lines,
  process_agent_actions,
}
use crom_spirit_iso.Agent.Service.{Result, ok, err, panic, call_gemini}
use crom_spirit_iso.Agent.Query.{
  run_output, get_memory_percent, get_system_context, process_offline, answer_query, process_query,
  asks_status, asks_processes, asks_disk, full_prompt,
}
use crom_spirit_iso.Agent.Session.{
  Session, prompted, greeted, resume, exited, crashed, running, interactive_loop, interactive,
  is_exit, answered_once, main,
}

-- The last thing that happened is that the user said yes to a question about this command.
abbrev pub IsGranted : Command → List Event → Type 0
IsGranted c (asked info true ∷ es) = fields (command_line info) ≡ c.name ∷ c.args
IsGranted c _ = ⊥

-- Every command that ran is in the table of safe commands, or was just granted.
abbrev pub IsAuthorised : List Event → Type 0
IsAuthorised [] = Unit
IsAuthorised (executed c ∷ es) =
    ((has safe_commands c.name ≡ true) ⊎ IsGranted c es) × IsAuthorised es
IsAuthorised (asked info yes_said ∷ es) = IsAuthorised es
IsAuthorised (printed s ∷ es) = IsAuthorised es

-- A session that has ended ran authorised commands only.
abbrev pub EndsAuthorised : Session → Type 0
EndsAuthorised (exited a) = IsAuthorised a.events
EndsAuthorised (crashed a) = IsAuthorised a.events
EndsAuthorised (running a) = IsAuthorised a.events

module _ (sys : System) where
  execute_fields-IsAuthorised :
      (a : Agent) (parts : List Bytes) (forced : Bool)
      → IsAuthorised a.events
      → (forced ≡ true → (c : Command) → parts ≡ c.name ∷ c.args → IsGranted c a.events)
      → IsAuthorised (execute_fields sys a parts forced).0.events
  unfolding execute_fields execute
  execute_fields-IsAuthorised a [] forced h g = h
  execute_fields-IsAuthorised a (cmd ∷ args) forced h g =
      let c : Command = record { name = cmd; args = args } in
      elim (Bool-cases forced) [ inl e ↦ ground (arith, g e c refl) | inr e ↦ ground arith ]

  unforced :
      (a : Agent) (s : Bytes)
      → IsAuthorised a.events
      → IsAuthorised (execute_command sys a s false).0.events
  unfolding execute_command
  unforced a s h = execute_fields-IsAuthorised a (fields s) false h (λ e. cc)

  allowed :
      (a : Agent) (info : Bytes) (input : Bytes)
      → IsAuthorised a.events
      → IsAuthorised
          (execute_command sys
            (record a { input = input; events = asked info true ∷ a.events })
            (command_line info)
            true).0.events
  unfolding execute_command
  allowed a info input h =
      execute_fields-IsAuthorised (record a { input = input; events = asked info true ∷ a.events })
        (fields (command_line info)) true h (λ e c p. p)

  ask_permission-IsAuthorised :
      (a : Agent) (info result : Bytes)
      → IsAuthorised a.events
      → IsAuthorised (ask_permission sys a info result).0.events
  unfolding ask_permission
  ask_permission-IsAuthorised a info result h =
      elim (Bool-cases (is_yes (trim_space (sys.to_lower (read_line a.input).0)))) [
        | inl e ↦ rw e (allowed a info (read_line a.input).1 h)
        | inr e ↦ rw e h
      ]

  process_line-IsAuthorised :
      (a : Agent) (line result : Bytes)
      → IsAuthorised a.events
      → IsAuthorised (process_line sys a line result).0.events
  unfolding process_line
  process_line-IsAuthorised a line result h =
      elim (Bool-cases (has_prefix line (bytes "[EXECUTE]"))) [
        | inl e ↦ rw e (unforced a (trim_space (trim_prefix line (bytes "[EXECUTE]"))) h)
        | inr e ↦ rw e (elim (Bool-cases (has_prefix line (bytes "[PERMISSION]"))) [
          | inl e' ↦ rw e' (
              ask_permission-IsAuthorised a (trim_space (trim_prefix line (bytes "[PERMISSION]")))
                result h)
          | inr e' ↦ rw e' h
        ])
      ]

  process_lines-IsAuthorised :
      (a : Agent) (lines : List Bytes) (result : Bytes)
      → IsAuthorised a.events
      → IsAuthorised (process_lines sys a lines result).0.events
  unfolding process_lines
  process_lines-IsAuthorised a [] result h = h
  process_lines-IsAuthorised a (line ∷ lines) result h =
      process_lines-IsAuthorised (process_line sys a (trim_space line) result).0 lines
        (process_line sys a (trim_space line) result).1
        (process_line-IsAuthorised a (trim_space line) result h)

  -- Whatever the model answers, it makes the agent run safe and granted commands only.
  pub process_agent_actions-IsAuthorised :
      (a : Agent) (response : Bytes)
      → IsAuthorised a.events
      → IsAuthorised (process_agent_actions sys a response).0.events
  unfolding process_agent_actions
  process_agent_actions-IsAuthorised a response h =
      process_lines-IsAuthorised a (split b'\n' response) [] h

  get_system_context-IsAuthorised :
      (a : Agent) → IsAuthorised a.events → IsAuthorised (get_system_context sys a).0.events
  unfolding get_system_context get_memory_percent run_output has safe_commands Bytes_discrete
      ℕ_discrete
  get_system_context-IsAuthorised a h = (inl refl, (inl refl, h))

  process_offline-IsAuthorised :
      (a : Agent) (q : Bytes)
      → IsAuthorised a.events
      → IsAuthorised (process_offline sys a q).0.events
  unfolding process_offline run_output has safe_commands Bytes_discrete ℕ_discrete
  process_offline-IsAuthorised a q h = elim (Bool-cases (asks_status (sys.to_lower q))) [
    | inl e ↦ rw e (inl refl, h)
    | inr e ↦ rw e (elim (Bool-cases (asks_processes (sys.to_lower q))) [
      | inl e' ↦ rw e' (inl refl, h)
      | inr e' ↦ rw e' (elim (Bool-cases (asks_disk (sys.to_lower q))) [
        | inl e'' ↦ rw e'' (inl refl, h)
        | inr e'' ↦ rw e'' h
      ])
    ])
  ]

  answer_query-IsAuthorised :
      (a : Agent) (r : Result)
      → IsAuthorised a.events
      → IsAuthorised (answer_query sys a r).0.events
  unfolding answer_query
  answer_query-IsAuthorised a (ok s) h = process_agent_actions-IsAuthorised a s h
  answer_query-IsAuthorised a (err e) h = h
  answer_query-IsAuthorised a panic h = h

  pub process_query-IsAuthorised :
      (a : Agent) (q : Bytes)
      → IsAuthorised a.events
      → IsAuthorised (process_query sys a q).0.events
  unfolding process_query
  process_query-IsAuthorised a q h =
      let a' = (get_system_context sys a).0 in
      let h' = get_system_context-IsAuthorised a h in
      elim (Bool-cases (equal a.api_key [])) [
        | inl e ↦ rw e (process_offline-IsAuthorised a' q h')
        | inr e ↦ rw e (
            answer_query-IsAuthorised a'
              (call_gemini sys a' (full_prompt (get_system_context sys a).1 q)) h')
      ]

  resume-IsAuthorised :
      (next : Agent → Session)
      → ((a : Agent) → IsAuthorised a.events → EndsAuthorised (next a))
      → (a : Agent) (r : Option Bytes) → IsAuthorised a.events
      → EndsAuthorised (resume next a r)
  resume-IsAuthorised next keep a (some r) h = keep _ h
  resume-IsAuthorised next keep a none h = h

  interactive_loop-IsAuthorised :
      (fuel : ℕ) (a : Agent) → IsAuthorised a.events → EndsAuthorised (interactive_loop sys fuel a)
  unfolding interactive_loop
  interactive_loop-IsAuthorised zero a h = h
  interactive_loop-IsAuthorised (suc fuel) a h =
      let query = trim_space (read_line a.input).0 in
      elim (Bool-cases (equal query [])) [
        | inl e ↦ rw e (interactive_loop-IsAuthorised fuel (prompted a) h)
        | inr e ↦ rw e (elim (Bool-cases (is_exit query)) [
          | inl e' ↦ rw e' h
          | inr e' ↦ rw e' (
              resume-IsAuthorised (interactive_loop sys fuel) (interactive_loop-IsAuthorised fuel)
                (process_query sys (prompted a) query).0 (process_query sys (prompted a) query).1
                (process_query-IsAuthorised (prompted a) query h))
        ])
      ]

  interactive-IsAuthorised :
      (fuel : ℕ) (a : Agent) → IsAuthorised a.events → EndsAuthorised (interactive sys fuel a)
  unfolding interactive greeted
  interactive-IsAuthorised fuel a h = interactive_loop-IsAuthorised fuel _ h

  answered_once-IsAuthorised :
      (a : Agent) (r : Option Bytes) → IsAuthorised a.events → EndsAuthorised (answered_once (a, r))
  answered_once-IsAuthorised a (some response) h = h
  answered_once-IsAuthorised a none h = h

  -- Whatever its arguments and its input, and after any number of rounds of its loop, the program has
  -- run only commands that are in the table of safe commands, or that the user has allowed by the
  -- answer just before.
  pub main-IsAuthorised :
      (fuel : ℕ) (key : Bytes) (args : List Bytes) (input : Bytes)
      → EndsAuthorised (main sys fuel key args input)
  unfolding main
  main-IsAuthorised fuel key [] input = interactive-IsAuthorised fuel _ tt
  main-IsAuthorised fuel key (name ∷ []) input = interactive-IsAuthorised fuel _ tt
  main-IsAuthorised fuel key (name ∷ arg ∷ args) input =
      let a : Agent = record { api_key = key; input = input; events = [] } in
      let (a', r) = process_query sys a (join (bytes " ") (arg ∷ args)) in
      answered_once-IsAuthorised a' r
        (process_query-IsAuthorised a (join (bytes " ") (arg ∷ args)) tt)
