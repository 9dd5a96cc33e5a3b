-- ===== src/Agent/Crashes.antt =====
-- When a query that is given as arguments makes cmd/ai/main.go panic.
use crom_spirit_iso.Prelude.{
  ℕ, Option, none, some, List, [], ◌∷◌, ◌≡◌, ◌≢◌, refl, ◌<◌, ◌↔◌, ◌⊎◌, ◌++◌, arith, ◌==◌, length,
  ltb, ltb→lt, ltb→le, Bool-cases, inl, inr,
}
use crom_spirit_iso.Prelude.Strings.{join}
use crom_spirit_iso.Prelude.Text.{Bytes, Bytes_discrete, bytes}
use crom_spirit_iso.Agent.{
  Agent, System, Response, no_response, response, Json, scalar, text, array, object, Items, nil,
  cons, Fields,
}
use crom_spirit_iso.Agent.Service.{
  Result, ok, err, panic, lookup_field, as_text, parts_of, content_of, candidates_of, extract_text,
  api_url, model_id, read_response, call_gemini,
}
use crom_spirit_iso.Agent.Actions.{equal}
use crom_spirit_iso.Agent.Query.{
  run_output, get_memory_percent, get_system_context, full_prompt, answer_query, process_query,
}
use crom_spirit_iso.Agent.Session.{Session, exited, crashed, running, answered_once, main}

abbrev pub IsNoObject : Json → Type 0
IsNoObject v = (fs : Fields) → v ≢ object fs

-- The first candidate, or the first part of its content, is no object.
pub data IsMalformed : Json → Type 0 where
  bad_candidate :
      (fs : Fields) (v : Json) (vs : Items)
      → lookup_field (bytes "candidates") fs ≡ some (array (cons v vs))
      → IsNoObject v
      → IsMalformed (object fs)
  bad_part :
      (fs c d : Fields) (cs : Items) (v : Json) (vs : Items)
      → lookup_field (bytes "candidates") fs ≡ some (array (cons (object c) cs))
      → lookup_field (bytes "content") c ≡ some (object d)
      → lookup_field (bytes "parts") d ≡ some (array (cons v vs))
      → IsNoObject v
      → IsMalformed (object fs)

as_text_lem : (o : Option Json) → as_text o ≢ panic
as_text_lem none e = cc
as_text_lem (some scalar) e = cc
as_text_lem (some (text t)) e = cc
as_text_lem (some (array vs)) e = cc
as_text_lem (some (object fs)) e = cc

parts_of-panic :
    (o : Option Json)
    → parts_of o ≡ panic
    → (v : Json) × (vs : Items) × (o ≡ some (array (cons v vs))) × IsNoObject v
parts_of-panic none e = absurd cc
parts_of-panic (some scalar) e = absurd cc
parts_of-panic (some (text t)) e = absurd cc
parts_of-panic (some (object fs)) e = absurd cc
parts_of-panic (some (array nil)) e = absurd cc
parts_of-panic (some (array (cons scalar vs))) e = (scalar, vs, refl, λ fs h. cc)
parts_of-panic (some (array (cons (text t) vs))) e = (text t, vs, refl, λ fs h. cc)
parts_of-panic (some (array (cons (array us) vs))) e = (array us, vs, refl, λ fs h. cc)
parts_of-panic (some (array (cons (object fs) vs))) e =
    absurd (as_text_lem (lookup_field (bytes "text") fs) e)

content_of-panic :
    (o : Option Json)
    → content_of o ≡ panic
    → (d : Fields) × (o ≡ some (object d)) × (parts_of (lookup_field (bytes "parts") d) ≡ panic)
content_of-panic none e = absurd cc
content_of-panic (some scalar) e = absurd cc
content_of-panic (some (text t)) e = absurd cc
content_of-panic (some (array vs)) e = absurd cc
content_of-panic (some (object d)) e = (d, refl, e)

candidates_of-panic :
    (fs : Fields) (o : Option Json)
    → lookup_field (bytes "candidates") fs ≡ o
    → candidates_of o ≡ panic
    → IsMalformed (object fs)
candidates_of-panic fs none at e = absurd cc
candidates_of-panic fs (some scalar) at e = absurd cc
candidates_of-panic fs (some (text t)) at e = absurd cc
candidates_of-panic fs (some (object d)) at e = absurd cc
candidates_of-panic fs (some (array nil)) at e = absurd cc
candidates_of-panic fs (some (array (cons scalar vs))) at e =
    bad_candidate fs scalar vs at (λ gs h. cc)
candidates_of-panic fs (some (array (cons (text t) vs))) at e =
    bad_candidate fs (text t) vs at (λ gs h. cc)
candidates_of-panic fs (some (array (cons (array us) vs))) at e =
    bad_candidate fs (array us) vs at (λ gs h. cc)
candidates_of-panic fs (some (array (cons (object c) cs))) at e =
    let (d, has_content, broken) = content_of-panic (lookup_field (bytes "content") c) e in
    let (v, vs, has_parts, bad) = parts_of-panic (lookup_field (bytes "parts") d) broken in
    bad_part fs c d cs v vs at has_content has_parts bad

extract_text-panic : (j : Json) → extract_text j ≡ panic → IsMalformed j
unfolding extract_text
extract_text-panic scalar e = absurd cc
extract_text-panic (text t) e = absurd cc
extract_text-panic (array vs) e = absurd cc
extract_text-panic (object fs) e =
    candidates_of-panic fs (lookup_field (bytes "candidates") fs) refl e

candidates_bad :
    (v : Json) (vs : Items) → IsNoObject v → candidates_of (some (array (cons v vs))) ≡ panic
candidates_bad scalar vs h = refl
candidates_bad (text t) vs h = refl
candidates_bad (array us) vs h = refl
candidates_bad (object fs) vs h = absurd (h fs refl)

parts_bad : (v : Json) (vs : Items) → IsNoObject v → parts_of (some (array (cons v vs))) ≡ panic
parts_bad scalar vs h = refl
parts_bad (text t) vs h = refl
parts_bad (array us) vs h = refl
parts_bad (object fs) vs h = absurd (h fs refl)

extract_text-IsMalformed : {j : Json} → IsMalformed j → extract_text j ≡ panic
unfolding extract_text
extract_text-IsMalformed (bad_candidate fs v vs at h) = rw at (candidates_bad v vs h)
extract_text-IsMalformed (bad_part fs c d cs v vs at has_content has_parts h) =
    rw (at, has_content, has_parts) (parts_bad v vs h)

-- A refusal with fewer than 200 bytes, or an answer that is malformed.
abbrev pub IsFatal : (Bytes → Json) → Response → Type 0
IsFatal unmarshal (no_response e) = ⊥
IsFatal unmarshal (response status body) =
    ((status ≢ 200) × (length body < 200)) ⊎ ((status ≡ 200) × IsMalformed (unmarshal body))

read_response-IsFatal :
    (unmarshal : Bytes → Json) (r : Response)
    → (read_response unmarshal r ≡ panic) ↔ IsFatal unmarshal r
unfolding read_response
read_response-IsFatal unmarshal (no_response e) = (λ h. cc, λ h. absurd h)
read_response-IsFatal unmarshal (response status body) = elim (Bool-cases (status == 200)) [
  | inl e ↦
      let fine : status ≡ 200 = ground (arith, e) in
      rw e (
        λ h. inr (fine, extract_text-panic (unmarshal body) h),
        λ h. elim h [ inl h' ↦ absurd (h'.0 fine) | inr h' ↦ extract_text-IsMalformed h'.1 ],
      )
  | inr e ↦
      let refused : status ≢ 200 = ground (arith, e) in
      elim (Bool-cases (ltb (length body) 200)) [
        | inl short ↦ rw (e, short) (λ h. inl (refused, ltb→lt (length body) 200 short), λ h. refl)
        | inr long ↦
            rw (e, long)
              (
                λ h. absurd cc,
                λ h. elim h [
                  | inl h' ↦ absurd (omega (arith, h'.1, ltb→le (length body) 200 long))
                  | inr h' ↦ absurd (refused h'.0)
                ],
              )
      ]
]

abbrev pub HasCrashed : Session → Type 0
HasCrashed (exited a) = ⊥
HasCrashed (running a) = ⊥
HasCrashed (crashed a) = Unit

module _ (sys : System) where
  -- What the service replies to a query, as an agent asks it that has looked at its system.
  abbrev pub reply_to : Agent → Bytes → Response
  reply_to a query =
      let (a', ctx) = get_system_context sys a in
      sys.post a'.events
        (api_url ++ bytes "/" ++ model_id ++ bytes ":generateContent?key=" ++ a.api_key)
        (sys.marshal_prompt (full_prompt ctx query))

  answer_query-HasCrashed :
      (a : Agent) (r : Result) → HasCrashed (answered_once (answer_query sys a r)) ↔ (r ≡ panic)
  unfolding answer_query
  answer_query-HasCrashed a (ok said) = (λ h. absurd h, λ h. absurd cc)
  answer_query-HasCrashed a (err e) = (λ h. absurd h, λ h. absurd cc)
  answer_query-HasCrashed a panic = (λ h. refl, λ h. tt)

  -- With a query as its arguments, the agent panics exactly if it has a key and the service's reply is
  -- a refusal of fewer than 200 bytes, or an answer whose first candidate, or the first part of whose
  -- content, is no object.
  pub main-HasCrashed :
      (fuel : ℕ) (key name arg : Bytes) (args : List Bytes) (input : Bytes)
      → let a : Agent = record { api_key = key; input = input; events = [] } in
        HasCrashed (main sys fuel key (name ∷ arg ∷ args) input)
        ↔ ((key ≢ []) × IsFatal sys.unmarshal (reply_to a (join (bytes " ") (arg ∷ args))))
  unfolding main process_query call_gemini get_system_context get_memory_percent run_output equal
      Bytes_discrete
  main-HasCrashed fuel [] name arg args input = (λ h. absurd h, λ h. absurd (h.0 refl))
  main-HasCrashed fuel (b ∷ s) name arg args input =
      let a : Agent = record { api_key = b ∷ s; input = input; events = [] } in
      let query = join (bytes " ") (arg ∷ args) in
      let (a', ctx) = get_system_context sys a in
      let asked = call_gemini sys a' (full_prompt ctx query) in
      let crashes = answer_query-HasCrashed a' asked in
      let fatal = read_response-IsFatal sys.unmarshal (reply_to a query) in
      (λ h. (λ e. cc, fatal.0 (crashes.0 h)), λ h. crashes.1 (fatal.1 h.1))
