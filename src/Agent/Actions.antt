-- ===== src/Agent/Actions.antt =====
-- `processAgentActions` of cmd/ai/main.go: the actions in a response of the model, line by line.
use crom_spirit_iso.Prelude.{Bool, true, false, ◌||◌, List, [], ◌∷◌, ◌++◌, ite, ◌==◌, if◌then◌else◌}
use crom_spirit_iso.Prelude.Strings.{trim_space, split, split_2, has_prefix, trim_prefix}
use crom_spirit_iso.Prelude.Text.{Bytes, Bytes_discrete, bytes}
use crom_spirit_iso.Agent.{asked, Agent, System}
use crom_spirit_iso.Agent.Commands.{warning, execute_command}

-- `reader.ReadString('\n')`, its error ignored: a line with its newline, or what is left.
unfoldable pub read_line : Bytes → Bytes × Bytes
read_line [] = ([], [])
read_line (b ∷ s) =
    let rest = read_line s in if b == b'\n' then (b ∷ [], s) else (b ∷ rest.0, rest.1)

unfoldable pub equal : Bytes → Bytes → Bool
equal s t = ite (Bytes_discrete s t) true false

abbrev pub is_yes : Bytes → Bool
is_yes answer = equal answer (bytes "s") || equal answer (bytes "sim") || equal answer (bytes "yes")

-- `parts[0]` of a list that is not empty.
abbrev pub first : List Bytes → Bytes
first [] = []
first (p ∷ ps) = p

-- The command line that a permission is asked for.
unfoldable pub command_line : Bytes → Bytes
command_line info = trim_space (first (split_2 b':' info))

module _ (sys : System) where
  -- The question, the answer, and the command if it is yes; `result` is the text so far.
  unfoldable pub ask_permission : Agent → Bytes → Bytes → Agent × Bytes
  ask_permission a info result =
      let question =
        result
        ++ warning
        ++ bytes " Preciso de permissão para: "
        ++ info
        ++ bytes "\n"
        ++ bytes "Posso executar? (s/n): " in
      let (line, input) = read_line a.input in
      let granted = is_yes (trim_space (sys.to_lower line)) in
      let a' : Agent = record a { input = input; events = asked info granted ∷ a.events } in
      let (ran, output) = execute_command sys a' (command_line info) true in
      if granted
      then (ran, question ++ bytes "✅ Executado: " ++ output ++ bytes "\n")
      else (a', question ++ bytes "❌ Comando cancelado.\n")

  unfoldable pub process_line : Agent → Bytes → Bytes → Agent × Bytes
  process_line a line result =
      let (ran, output) =
        execute_command sys a (trim_space (trim_prefix line (bytes "[EXECUTE]"))) false in
      if has_prefix line (bytes "[EXECUTE]")
      then (ran, result ++ output ++ bytes "\n")
      else if has_prefix line (bytes "[PERMISSION]")
      then ask_permission a (trim_space (trim_prefix line (bytes "[PERMISSION]"))) result
      else (a, result ++ line ++ bytes "\n")

  unfoldable pub process_lines : Agent → List Bytes → Bytes → Agent × Bytes
  process_lines a [] result = (a, result)
  process_lines a (line ∷ lines) result =
      let (a', result') = process_line a (trim_space line) result in process_lines a' lines result'

  unfoldable pub process_agent_actions : Agent → Bytes → Agent × Bytes
  process_agent_actions a response =
      let (a', result) = process_lines a (split b'\n' response) [] in (a', trim_space result)
