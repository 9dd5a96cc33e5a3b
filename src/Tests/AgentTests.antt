-- ===== src/Tests/AgentTests.antt =====
-- The agent of cmd/ai/main.go in a session with a made-up system.
use crom_spirit_iso.Prelude.{◌≡◌, ◌≢◌, ◌↔◌, refl, inl, arith, false, [], ◌∷◌, ℕ_discrete}
use mathlib.Core.Bool.{xor}
use crom_spirit_iso.Prelude.Numbers.{atoi, decimal, decimal_signed}
use crom_spirit_iso.Prelude.Strings.{
  trim_space, fields_from, split_from, split_2_from, has_prefix, trim_prefix, contains, join,
  leading, space_width, space_width_back,
}
use crom_spirit_iso.Prelude.Text.{Bytes, bytes, Bytes_discrete}
use crom_spirit_iso.Agent.{
  executed, asked, Agent, System, succeeded, response, Json, Fields, text, array, object, cons, nil,
  field, end,
}
use crom_spirit_iso.Agent.Commands.{
  has, safe_commands, blocked_commands, report, execute, execute_fields, execute_command,
}
use crom_spirit_iso.Agent.Actions.{
  read_line, equal, command_line, ask_permission, process_line, process_lines,
  process_agent_actions,
}
use crom_spirit_iso.Agent.Service.{ok, extract_text, lookup_field, read_response, call_gemini}
use crom_spirit_iso.Agent.Query.{
  memory_percent, run_output, get_memory_percent, get_system_context, asks_status, asks_processes,
  asks_disk, process_offline, answer_query, process_query,
}
use crom_spirit_iso.Agent.Session.{running, is_exit, greeted, interactive_loop, interactive, main}
use crom_spirit_iso.Agent.Safety
use crom_spirit_iso.Agent.Silence
use crom_spirit_iso.Agent.Ending
use crom_spirit_iso.Agent.Crashes
use crom_spirit_iso.Agent.Crashes.{IsFatal, HasCrashed, reply_to}

program : Unit {0}
unfolding xor Bytes_discrete ℕ_discrete trim_space fields_from split_from split_2_from has_prefix
    trim_prefix contains join leading space_width space_width_back atoi decimal decimal_signed has
    safe_commands blocked_commands report execute execute_fields execute_command read_line equal
    command_line ask_permission process_line process_lines process_agent_actions extract_text
    lookup_field read_response call_gemini memory_percent run_output get_memory_percent
    get_system_context asks_status asks_processes asks_disk process_offline answer_query
    process_query is_exit greeted interactive_loop interactive
program = tt

abbrev free_output : Bytes
free_output = bytes "      total  used  free\nMem:  8000  2000  6000\n"

abbrev advice : Bytes
advice = bytes "Vou ver.\n[EXECUTE] ls /\n[EXECUTE] rm -rf /\n[PERMISSION] reboot: reinicia\n"

abbrev part : Fields
part = field (bytes "text") (text advice) end

abbrev content : Fields
content = field (bytes "parts") (array (cons (object part) nil)) end

abbrev candidate : Fields
candidate = field (bytes "content") (object content) end

abbrev body : Fields
body = field (bytes "candidates") (array (cons (object candidate) nil)) end

abbrev answer : Json
answer = object body

abbrev sys : System
sys = record {
  combined_output = λ es c. succeeded (bytes "ok");
  output = λ es c. free_output;
  hostname = bytes "spirit";
  post = λ es url body. response 200 [];
  marshal_prompt = λ p. p;
  unmarshal = λ b. answer;
  to_lower = λ s. s;
}

abbrev session : Agent
session = record { api_key = bytes "k"; input = bytes "oi\nsim\nsair\n"; events = [] }

memory : memory_percent free_output ≡ 25
unfolding program
memory = refl

abbrev after : Agent
after = (process_agent_actions sys session advice).0

-- `ls` runs, `rm` does not, and the answer to the question for `reboot` is the line `oi`.
acted :
    (process_agent_actions sys session advice).0.events
    ≡ asked (bytes "reboot: reinicia") false
      ∷ executed (record { name = bytes "ls"; args = bytes "/" ∷ [] })
      ∷ []
unfolding program
acted = refl

main-IsAuthorised_example :
    Safety.EndsAuthorised
      (main sys 5 (bytes "key") (bytes "spirit-ai" ∷ bytes "limpe" ∷ []) (bytes "n\n"))
main-IsAuthorised_example =
    Safety.main-IsAuthorised sys 5 (bytes "key") (bytes "spirit-ai" ∷ bytes "limpe" ∷ [])
      (bytes "n\n")

cat_anything :
    (execute_command sys session (bytes "cat /etc/shadow") false).0.events
    ≡ executed (record { name = bytes "cat"; args = bytes "/etc/shadow" ∷ [] }) ∷ []
unfolding program
cat_anything = refl

texts-process_agent_actions_example :
    Silence.texts (process_agent_actions sys session advice).0.events ≡ []
texts-process_agent_actions_example = Silence.texts-process_agent_actions sys session advice

interactive_at_end_example :
    interactive sys 7 (record session { input = [] })
    ≡ running (Ending.prompts 7 (greeted (record session { input = [] })))
interactive_at_end_example = Ending.interactive_at_end sys 7 (record session { input = [] }) refl

abbrev leaving : Agent
leaving = record session { input = bytes "  sair \n" }

answer_text : extract_text answer ≡ ok advice
unfolding program
answer_text = refl

-- The service refuses in a few bytes.
abbrev refusing : System
refusing = record sys { post = λ es url body. response 429 (bytes "quota") }

main-HasCrashed_example :
    let a : Agent = record { api_key = bytes "k"; input = []; events = [] } in
    HasCrashed (main refusing 0 (bytes "k") (bytes "ai" ∷ bytes "oi" ∷ []) []) ↔ (
      (bytes "k" ≢ [])
      × IsFatal refusing.unmarshal (reply_to refusing a (join (bytes " ") (bytes "oi" ∷ []))))
main-HasCrashed_example =
    Crashes.main-HasCrashed refusing 0 (bytes "k") (bytes "ai") (bytes "oi") [] []

-- It is fatal, so the agent crashes.
crashes : HasCrashed (main refusing 0 (bytes "k") (bytes "ai" ∷ bytes "oi" ∷ []) [])
unfolding program
crashes =
    (Crashes.main-HasCrashed refusing 0 (bytes "k") (bytes "ai") (bytes "oi") [] []).1
      ((λ e. cc), inl ((λ e. absurd (omega (arith, e))), omega arith))
