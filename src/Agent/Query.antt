-- ===== src/Agent/Query.antt =====
-- `processQuery` of cmd/ai/main.go, and what it calls besides the service.
use crom_spirit_iso.Prelude.{
  Bool, ℕ, ◌||◌, Option, none, some, List, [], ◌∷◌, ◌++◌, ◌==◌, if◌then◌else◌, take, mul64, div64,
}
use crom_spirit_iso.Prelude.Numbers.{atoi, decimal_signed}
use crom_spirit_iso.Prelude.Strings.{split, fields, contains, join}
use crom_spirit_iso.Prelude.Text.{Bytes, bytes}
use crom_spirit_iso.Agent.{Command, executed, Agent, System}
use crom_spirit_iso.Agent.Service.{Result, ok, err, panic, call_gemini}
use crom_spirit_iso.Agent.Actions.{equal, process_agent_actions}

-- The percentage of two fields of the second line.
abbrev pub percent : List Bytes → ℕ
percent (name ∷ total ∷ used ∷ more) =
    if atoi total == 0 then 0 else div64 (mul64 (atoi used) 100) (atoi total)
percent _ = 0

abbrev second_line : List Bytes → ℕ
second_line (head ∷ line ∷ more) = percent (fields line)
second_line _ = 0

-- `getMemoryPercent`, on the output of `free`; an int64.
unfoldable pub memory_percent : Bytes → ℕ
memory_percent out = second_line (split b'\n' out)

unfoldable pub system_prompt : Bytes
system_prompt =
    bytes "Você é o Spirit, um agente IA que é a consciência do computador Crom-OS.\n"
    ++ bytes "Você pode executar comandos para diagnosticar o sistema.\n"
    ++ bytes "\n"
    ++ bytes "REGRAS IMPORTANTES:\n"
    ++ bytes "1. Comandos seguros (free, df, ps, etc) você executa automaticamente\n"
    ++ bytes "2. Comandos perigosos (rm, kill, reboot) você SEMPRE pede permissão\n"
    ++ bytes "3. Você analisa a saída dos comandos e explica para o usuário\n"
    ++ bytes "4. Você é amigável, usa português brasileiro e emojis ocasionais\n"
    ++ bytes "5. Mantenha respostas curtas e úteis\n"
    ++ bytes "\n"
    ++ bytes "Quando precisar de informação do sistema, responda com:\n"
    ++ bytes "[EXECUTE] comando aqui\n"
    ++ bytes "\n"
    ++ bytes "Quando precisar de permissão para comando perigoso:\n"
    ++ bytes "[PERMISSION] comando: descrição do que vai fazer\n"
    ++ bytes "\n"
    ++ bytes "Após executar, analise o resultado e explique ao usuário."

abbrev command : Bytes → List Bytes → Command
command name args = record { name = name; args = args }

-- What the offline mode understands.
unfoldable pub asks_status : Bytes → Bool
asks_status q = contains q (bytes "status") || contains q (bytes "oi")

unfoldable pub asks_processes : Bytes → Bool
asks_processes q = contains q (bytes "processo") || contains q (bytes "rodando")

unfoldable pub asks_disk : Bytes → Bool
asks_disk q = contains q (bytes "disco") || contains q (bytes "espaço")

unfoldable pub full_prompt : Bytes → Bytes → Bytes
full_prompt ctx query =
    system_prompt ++ bytes "\n\nContexto atual:\n" ++ ctx ++ bytes "\n\nUsuário: " ++ query

module _ (sys : System) where
  -- `exec.Command(...).Output()`
  unfoldable pub run_output : Agent → Command → Agent × Bytes
  run_output a c = (record a { events = executed c ∷ a.events }, sys.output a.events c)

  unfoldable pub get_memory_percent : Agent → Agent × ℕ
  get_memory_percent a =
      let (a', out) = run_output a (command (bytes "free") []) in (a', memory_percent out)

  unfoldable pub get_system_context : Agent → Agent × Bytes
  get_system_context a =
      let (a', mem) = get_memory_percent a in
      let (a'', out) = run_output a' (command (bytes "uptime") (bytes "-p" ∷ [])) in
      (
        a'',
        bytes "Host: "
            ++ sys.hostname
            ++ bytes "\n"
            ++ bytes "RAM: "
            ++ decimal_signed mem
            ++ bytes "%\n"
            ++ bytes "Uptime: "
            ++ out,
      )

  unfoldable pub process_offline : Agent → Bytes → Agent × Bytes
  process_offline a query =
      let q = sys.to_lower query in
      if asks_status q
      then (let (a', out) = run_output a (command (bytes "free") (bytes "-h" ∷ [])) in
          (a', bytes "Status do sistema 😊\n\n" ++ out))
      else if asks_processes q
      then (let (a', out) =
            run_output a (command (bytes "ps") (bytes "aux" ∷ bytes "--sort=-%mem" ∷ [])) in
          (a', bytes "Top processos:\n" ++ join (bytes "\n") (take 8 (split b'\n' out))))
      else if asks_disk q
      then (let (a', out) = run_output a (command (bytes "df") (bytes "-h" ∷ [])) in
          (a', bytes "💾 Disco:\n" ++ out))
      else (
        a,
        bytes "Defina GEMINI_API_KEY para conversa completa.\nComandos: status, processos, disco",
      )

  -- The answer of the service, acted on; no text after a panic.
  unfoldable pub answer_query : Agent → Result → Agent × Option Bytes
  answer_query a (ok said) =
      let (a', result) = process_agent_actions sys a said in (a', some result)
  answer_query a (err e) = (a, some (bytes "Erro de conexão: " ++ e))
  answer_query a panic = (a, none)

  unfoldable pub process_query : Agent → Bytes → Agent × Option Bytes
  process_query a query =
      let (a', ctx) = get_system_context a in
      let (offline, said) = process_offline a' query in
      if equal a.api_key []
      then (offline, some said)
      else answer_query a' (call_gemini sys a' (full_prompt ctx query))
