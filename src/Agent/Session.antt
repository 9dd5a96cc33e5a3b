-- ===== src/Agent/Session.antt =====
-- The interactive loop of cmd/ai/main.go, and its `main`.
use crom_spirit_iso.Prelude.{
  Option, List, ℕ, zero, suc, Bool, ◌||◌, none, some, [], ◌∷◌, ◌++◌, if◌then◌else◌,
}
use crom_spirit_iso.Prelude.Strings.{trim_space, join}
use crom_spirit_iso.Prelude.Text.{Bytes, bytes}
use crom_spirit_iso.Agent.{printed, Agent, System}
use crom_spirit_iso.Agent.Query.{process_query}
use crom_spirit_iso.Agent.Actions.{read_line, equal}

unfoldable pub is_exit : Bytes → Bool
is_exit s = equal s (bytes "sair") || equal s (bytes "exit")

abbrev pub print : Agent → Bytes → Agent
print a s = record a { events = printed s ∷ a.events }

-- How a session of the loop ends; `running` means that the fuel ran out
-- at that state.
pub data Session : Type 0 where
  exited : Agent → Session
  crashed : Agent → Session
  running : Agent → Session

-- The prompt is printed and a line is read.
abbrev pub prompted : Agent → Agent
prompted a = record (print a (bytes "Você: ")) { input = (read_line a.input).1 }

-- After `processQuery`: the response is printed and the loop goes on, or the panic ends it.
abbrev pub resume : (Agent → Session) → Agent → Option Bytes → Session
resume next a (some r) = next (print a (bytes "\nSpirit: " ++ r ++ bytes "\n\n"))
resume next a none = crashed a

abbrev pub farewell : Agent → Agent
farewell a = print (prompted a) (bytes "\nSpirit: Até mais! 👋\n")

-- What `interactive` prints before its loop.
unfoldable pub greeted : Agent → Agent
greeted a =
    let mode =
      if equal a.api_key []
      then bytes "   (Modo offline - defina GEMINI_API_KEY)\n"
      else bytes "   (Modo agente - posso executar comandos)\n" in
    print a (
      bytes "\n🔮 Spirit Agent - Eu sou seu computador!\n"
      ++ mode
      ++ bytes "   Digite 'sair' para encerrar\n\n")

-- The answer to the arguments, then the end of the process; or the panic.
abbrev pub answered_once : Agent × Option Bytes → Session
answered_once (a, some response) = exited (print a (response ++ bytes "\n"))
answered_once (a, none) = crashed a

module _ (sys : System) where
  -- The loop of `interactive`, one unit of fuel for each line.
  unfoldable pub interactive_loop : ℕ → Agent → Session
  interactive_loop zero a = running a
  interactive_loop (suc fuel) a =
      let query = trim_space (read_line a.input).0 in
      let again = interactive_loop fuel (prompted a) in
      let (a', reply) = process_query sys (prompted a) query in
      let answered = resume (interactive_loop fuel) a' reply in
      if equal query [] then again else if is_exit query then exited (farewell a) else answered

  unfoldable pub interactive : ℕ → Agent → Session
  interactive fuel a = interactive_loop fuel (greeted a)

  -- On the service's key, the process's arguments with its name, and standard input.
  unfoldable pub main : ℕ → Bytes → List Bytes → Bytes → Session
  main fuel key (name ∷ arg ∷ args) input = answered_once (
      process_query sys (record { api_key = key; input = input; events = [] })
        (join (bytes " ") (arg ∷ args)))
  main fuel key _ input = interactive fuel (record { api_key = key; input = input; events = [] })
