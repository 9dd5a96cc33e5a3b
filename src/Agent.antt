-- ===== src/Agent.antt =====
-- The Spirit agent: cmd/ai/main.go. The state and the world that it talks to; the handlers are in
-- the modules below.
--
-- `events` is what the agent has done, the latest first: commands run, permissions asked, text
-- printed. What a command or the service answers may depend on all of it. `input` is what is left of standard
-- input.
pub mod Commands
pub mod Actions
pub mod Service
pub mod Query
pub mod Session
pub mod Safety
pub mod Tables
pub mod Silence
pub mod Ending
pub mod Answers
pub mod Crashes
use crom_spirit_iso.Prelude.{ℕ, List, [], ◌∷◌, Bool, Option}
use crom_spirit_iso.Prelude.Text.{Bytes}

pub record Command : Type 0 where
  pub name : Bytes
  pub args : List Bytes

pub data Event : Type 0 where
  executed : Command → Event
  asked : Bytes → Bool → Event
  printed : Bytes → Event

pub record Agent : Type 0 where
  pub api_key : Bytes
  pub input : Bytes
  pub events : List Event

-- `CombinedOutput`: the output, with the error's text if there was one.
pub data Outcome : Type 0 where
  succeeded : Bytes → Outcome
  failed : Bytes → Bytes → Outcome

-- `http.Post`: an error's text, or a status with the body.
pub data Response : Type 0 where
  no_response : Bytes → Response
  response : ℕ → Bytes → Response

-- What `json.Unmarshal` builds in an `interface{}`.
mutual
  pub data Json : Type 0 where
    scalar : Json
    text : Bytes → Json
    array : Items → Json
    object : Fields → Json

  pub data Items : Type 0 where
    nil : Items
    cons : Json → Items → Items

  pub data Fields : Type 0 where
    end : Fields
    field : Bytes → Json → Fields → Fields

-- The operating system, the service and the Unicode tables.
pub record System : Type 0 where
  pub combined_output : List Event → Command → Outcome
  -- `Output`, its error ignored
  pub output : List Event → Command → Bytes
  pub hostname : Bytes
  pub post : List Event → Bytes → Bytes → Response
  pub marshal_prompt : Bytes → Bytes
  pub unmarshal : Bytes → Json
  pub to_lower : Bytes → Bytes
