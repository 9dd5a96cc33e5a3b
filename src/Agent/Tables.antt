-- ===== src/Agent/Tables.antt =====
-- The two command tables of cmd/ai/main.go against one another.
use crom_spirit_iso.Prelude.{
  Bool, true, false, not, ◌&&◌, List, [], ◌∷◌, ◌≡◌, refl, inl, inr, arith, ℕ_discrete,
  if◌then◌else◌,
}
use crom_spirit_iso.Prelude.Strings.{fields}
use crom_spirit_iso.Prelude.Text.{Bytes, Bytes_discrete}
use crom_spirit_iso.Agent.{Command, Event, executed, Agent, System}
use crom_spirit_iso.Agent.Commands.{
  NameSet, has, safe_commands, blocked_commands, execute, execute_fields, execute_command,
}
use crom_spirit_iso.Agent.Safety.{IsGranted, IsAuthorised}

every : (Bytes → Bool) → NameSet → Bool
every p [] = true
every p (n ∷ ns) = p n && every p ns

every-has :
    (p : Bytes → Bool) (ns : NameSet) (name : Bytes)
    → every p ns ≡ true
    → has ns name ≡ true
    → p name ≡ true
unfolding every has
every-has p [] name h e = cc
every-has p (n ∷ ns) name h e = ground (arith, every-has p ns name)

tables_apart : every (λ n. not (has safe_commands n)) blocked_commands ≡ true
unfolding every has safe_commands blocked_commands Bytes_discrete ℕ_discrete
tables_apart = refl

-- No command is both blocked and safe.
not-safe_of_blocked :
    (name : Bytes) → has blocked_commands name ≡ true → has safe_commands name ≡ false
not-safe_of_blocked name h =
    ground (arith, every-has (λ n. not (has safe_commands n)) blocked_commands name tables_apart h)

-- Where only authorised commands have run, a blocked command ran right after a yes to it.
pub blocked-IsGranted :
    (c : Command) (es : List Event)
    → IsAuthorised (executed c ∷ es)
    → has blocked_commands c.name ≡ true
    → IsGranted c es
blocked-IsGranted c es (inl safe, h) b = absurd (ground (arith, not-safe_of_blocked c.name b))
blocked-IsGranted c es (inr g, h) b = g

-- Without permission a command line runs exactly if its first field is a safe command, and then it
-- runs with the other fields as arguments; else nothing at all is done.
execute_command_unforced :
    (sys : System) (a : Agent) (line : Bytes) (name : Bytes) (args : List Bytes)
    → fields line ≡ name ∷ args
    → (execute_command sys a line false).0.events ≡ (
        if has safe_commands name
        then executed (record { name = name; args = args }) ∷ a.events
        else a.events)
unfolding execute_command execute_fields execute
execute_command_unforced sys a line name args h = rw h (ground (arith, not-safe_of_blocked name))
