-- ===== src/Agent/Answers.antt =====
-- What the agent of cmd/ai/main.go makes of the service's response and of a command's output.
use crom_spirit_iso.Prelude.{
  ℕ, ◌*◌, ◌/◌, ap, div64_nonneg, ◌≤◌, ◌<◌, some, List, ◌∷◌, ◌≡◌, arith, length, take, length-append,
  length-take, ltb, ltb→le, false, sign_bit, Bool-cases, inl, inr, mul64, div64, ◌==◌,
}
use crom_spirit_iso.Prelude.Numbers.{atoi}
use crom_spirit_iso.Prelude.Strings.{split, fields}
use crom_spirit_iso.Prelude.Text.{Bytes, bytes}
use crom_spirit_iso.Agent.{Json, text, array, object, Items, cons, Fields, succeeded}
use crom_spirit_iso.Agent.Commands.{report}
use crom_spirit_iso.Agent.Query.{memory_percent}
use crom_spirit_iso.Agent.Service.{ok, lookup_field, extract_text}

-- `candidates[0].content.parts[0].text` of a decoded body.
data HasText : Json → Bytes → Type 0 where
  has_text :
      {fs c d p : Fields} {cs ps : Items} {t : Bytes}
      → lookup_field (bytes "candidates") fs ≡ some (array (cons (object c) cs))
      → lookup_field (bytes "content") c ≡ some (object d)
      → lookup_field (bytes "parts") d ≡ some (array (cons (object p) ps))
      → lookup_field (bytes "text") p ≡ some (text t)
      → HasText (object fs) t

-- A body with that text is answered with it.
extract_text-HasText : {j : Json} {t : Bytes} → HasText j t → extract_text j ≡ ok t
unfolding extract_text
extract_text-HasText (has_text a b c d) = rw (a, b, c, d)

percent-le :
    (used total : ℕ)
    → used ≤ total
    → total * 100 < sign_bit
    → (total == 0) ≡ false
    → div64 (mul64 used 100) total ≤ 100
percent-le used total le small ne =
    let pos : 0 < total = ground arith in
    let exact : mul64 used 100 ≡ used * 100 = omega arith in
    let quotient : used * 100 / total ≤ 100 = grind arith in
    omega (
      arith,
      div64_nonneg (mul64 used 100) total (omega arith) (omega arith),
      ap (λ n. n / total) exact,
    )

-- With numbers for total and used, used not above total, the percentage is at most 100.
memory_percent-le :
    (out head line : Bytes) (more : List Bytes) (name total used : Bytes) (rest : List Bytes)
    → split b'\n' out ≡ head ∷ line ∷ more
    → fields line ≡ name ∷ total ∷ used ∷ rest
    → atoi used ≤ atoi total
    → atoi total * 100 < sign_bit
    → memory_percent out ≤ 100
unfolding memory_percent
memory_percent-le out head line more name total used rest h f le small =
    rw (h, f)
      (elim (Bool-cases (atoi total == 0)) [
        | inl e ↦ rw e (omega arith)
        | inr e ↦ rw e (percent-le (atoi used) (atoi total) le small e)
      ])

-- The report of a successful command is at most 1015 bytes long.
length-report : (out : Bytes) → length (report (succeeded out)) ≤ 1015
unfolding report
length-report out = elim (Bool-cases (ltb 1000 (length out))) [
  | inl e ↦
      rw e (
        omega (arith, length-append (take 1000 out) (bytes "... (truncado)"), length-take 1000 out))
  | inr e ↦ rw e (omega (arith, ltb→le 1000 (length out) e))
]
