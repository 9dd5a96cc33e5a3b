-- ===== src/Agent/Service.antt =====
-- `callGemini` of cmd/ai/main.go: the exchange with the service and the reading of its answer.
use crom_spirit_iso.Prelude.{Option, none, some, ◌++◌, ite, ltb, ◌==◌, if◌then◌else◌, length, take}
use crom_spirit_iso.Prelude.Text.{Bytes, Bytes_discrete, bytes}
use crom_spirit_iso.Agent.{
  Agent, System, Response, no_response, response, Json, text, array, object, Items, nil, cons,
  Fields, end, field,
}

-- A call that may fail with an error, or panic.
pub data Result : Type 0 where
  ok : Bytes → Result
  err : Bytes → Result
  panic : Result

abbrev pub api_url : Bytes
api_url = bytes "https://generativelanguage.googleapis.com/v1beta/models"

abbrev pub model_id : Bytes
model_id = bytes "gemini-2.0-flash"

-- `m[k]` of a decoded object
unfoldable pub lookup_field : Bytes → Fields → Option Json
lookup_field k end = none
lookup_field k (field j v fs) = ite (Bytes_discrete j k) (some v) (lookup_field k fs)

abbrev invalid : Result
invalid = err (bytes "invalid response")

-- `.(string)`, with its test
abbrev pub as_text : Option Json → Result
as_text (some (text t)) = ok t
as_text _ = invalid

-- `parts[0].(map[string]interface{})`, without a test
abbrev pub first_part : Items → Result
first_part nil = invalid
first_part (cons (object fs) more) = as_text (lookup_field (bytes "text") fs)
first_part (cons _ more) = panic

abbrev pub parts_of : Option Json → Result
parts_of (some (array parts)) = first_part parts
parts_of _ = invalid

abbrev pub content_of : Option Json → Result
content_of (some (object content)) = parts_of (lookup_field (bytes "parts") content)
content_of _ = invalid

-- `candidates[0].(map[string]interface{})`, without a test
abbrev pub first_candidate : Items → Result
first_candidate nil = invalid
first_candidate (cons (object fs) more) = content_of (lookup_field (bytes "content") fs)
first_candidate (cons _ more) = panic

abbrev pub candidates_of : Option Json → Result
candidates_of (some (array candidates)) = first_candidate candidates
candidates_of _ = invalid

-- The text in the decoded body. A body that is no object leaves the map empty.
unfoldable pub extract_text : Json → Result
extract_text (object fs) = candidates_of (lookup_field (bytes "candidates") fs)
extract_text _ = invalid

-- What is made of the response; `string(respBody)[:200]` panics on a shorter body.
unfoldable pub read_response : (Bytes → Json) → Response → Result
read_response unmarshal (no_response e) = err e
read_response unmarshal (response status body) =
    if status == 200
    then extract_text (unmarshal body)
    else if ltb (length body) 200
    then panic
    else err (bytes "API: " ++ take 200 body)

module _ (sys : System) where
  unfoldable pub call_gemini : Agent → Bytes → Result
  call_gemini a prompt =
      let url = api_url ++ bytes "/" ++ model_id ++ bytes ":generateContent?key=" ++ a.api_key in
      read_response sys.unmarshal (sys.post a.events url (sys.marshal_prompt prompt))
