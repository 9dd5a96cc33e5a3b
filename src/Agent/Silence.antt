-- ===== src/Agent/Silence.antt =====
-- What the agent of cmd/ai/main.go prints while it acts on a response: nothing.
use crom_spirit_iso.Prelude.{
  Bool, true, false, List, [], ◌∷◌, ◌≡◌, refl, ◌∙◌, inl, inr, arith, Bool-cases,
}
use crom_spirit_iso.Prelude.Strings.{trim_space, split, has_prefix}
use crom_spirit_iso.Prelude.Text.{Bytes, bytes}
use crom_spirit_iso.Agent.{Event, executed, asked, printed, Agent, System}
use crom_spirit_iso.Agent.Commands.{execute, execute_fields, execute_command}
use crom_spirit_iso.Agent.Actions.{
  read_line, is_yes, command_line, ask_permission, process_line, process_lines,
  process_agent_actions,
}

-- The texts printed, the latest first.
abbrev pub texts : List Event → List Bytes
texts [] = []
texts (printed s ∷ es) = s ∷ texts es
texts (executed c ∷ es) = texts es
texts (asked info granted ∷ es) = texts es

module _ (sys : System) where
  texts-execute_fields :
      (a : Agent) (parts : List Bytes) (forced : Bool)
      → texts (execute_fields sys a parts forced).0.events ≡ texts a.events
  unfolding execute_fields execute
  texts-execute_fields a [] forced = refl
  texts-execute_fields a (cmd ∷ args) forced = ground arith

  texts-execute_command :
      (a : Agent) (s : Bytes) (forced : Bool)
      → texts (execute_command sys a s forced).0.events ≡ texts a.events
  unfolding execute_command
  texts-execute_command a s forced = texts-execute_fields a _ forced

  texts-ask_permission :
      (a : Agent) (info result : Bytes)
      → texts (ask_permission sys a info result).0.events ≡ texts a.events
  unfolding ask_permission
  texts-ask_permission a info result =
      elim (Bool-cases (is_yes (trim_space (sys.to_lower (read_line a.input).0)))) [
        | inl e ↦ rw e (texts-execute_command _ (command_line info) true)
        | inr e ↦ rw e
      ]

  texts-process_line :
      (a : Agent) (line result : Bytes)
      → texts (process_line sys a line result).0.events ≡ texts a.events
  unfolding process_line
  texts-process_line a line result = elim (Bool-cases (has_prefix line (bytes "[EXECUTE]"))) [
    | inl e ↦ rw e (texts-execute_command a _ false)
    | inr e ↦ rw e (elim (Bool-cases (has_prefix line (bytes "[PERMISSION]"))) [
      | inl e' ↦ rw e' (texts-ask_permission a _ result)
      | inr e' ↦ rw e'
    ])
  ]

  texts-process_lines :
      (a : Agent) (lines : List Bytes) (result : Bytes)
      → texts (process_lines sys a lines result).0.events ≡ texts a.events
  unfolding process_lines
  texts-process_lines a [] result = refl
  texts-process_lines a (line ∷ lines) result =
      texts-process_lines (process_line sys a (trim_space line) result).0 lines
        (process_line sys a (trim_space line) result).1
      ∙ texts-process_line a (trim_space line) result

  -- All actions of a response, the questions for permission and their answers among them, are over
  -- before anything of it is printed.
  pub texts-process_agent_actions :
      (a : Agent) (response : Bytes)
      → texts (process_agent_actions sys a response).0.events ≡ texts a.events
  unfolding process_agent_actions
  texts-process_agent_actions a response = texts-process_lines a (split b'\n' response) []
