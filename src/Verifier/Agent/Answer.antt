-- ===== src/Verifier/Agent/Answer.antt =====
-- What the parser of the agent's answer lets through, and where it panics (agent.rs).
use p2s.Prelude.{
  ℕ, ◌+◌, ◌≡◌, ap, ◌∙◌, inl, inr, true, false, Option, some, ◌++◌, arith, ◌==◌, Bool-cases,
  Option-cases, nat_eq, list_eq, ok, map_err, Result-cases, map_err-eq-ok, >>=-eq-ok, ok-injective,
  Text, codes, trim, starts_with,
}
use p2s.Float.{Float}
use p2s.Json.{Json}
use p2s.Verifier.Slices.{slice, find_char, rfind_char}
use p2s.Verifier.Agent.{AgentAssessment, json_part, field, assessment_of, parse_agent_response}

module _ (fl : Float) (j : Json fl) where
  -- The JSON text of an answer: the answer itself, trimmed, or, if that begins with a fence, what
  -- stands in it from the first opening to the last closing brace.
  pub data IsJsonText (response text : Text) : Type 0 where
    bare :
        starts_with (trim response) (codes "```") ≡ false
        → text ≡ trim response
        → IsJsonText response text
    fenced :
        (start last : ℕ)
        → starts_with (trim response) (codes "```") ≡ true
        → find_char (λ c. c == b'{') (trim response) ≡ some start
        → rfind_char b'}' (trim response) ≡ some last
        → slice start (last + 1) (trim response) ≡ ok text
        → IsJsonText response text

  json_part-IsJsonText :
      (response text : Text) → json_part (trim response) ≡ ok (ok text) → IsJsonText response text
  unfolding json_part
  json_part-IsJsonText response text h =
      let t = trim response in
      elim (Bool-cases (starts_with t (codes "```"))) [
        | inr e ↦ bare e (ground (arith, h, e))
        | inl e ↦ elim (Option-cases (find_char (λ c. c == b'{') t)) [
          | inl f ↦ absurd (ground (arith, h, e, f))
          | inr (start, f) ↦ elim (Option-cases (rfind_char b'}' t)) [
            | inl g ↦ absurd (ground (arith, h, e, f, g))
            | inr (last, g) ↦ elim (Result-cases (slice start (last + 1) t)) [
              | inl (j, q) ↦ fenced start last e f g (ground (arith, h, e, f, g, q))
              | inr (x, q) ↦ absurd (ground (arith, h, e, f, g, q))
            ]
          ]
        ]
      ]

  -- The two fields that an assessment needs are in the JSON value, with the right types.
  pub record IsFromJson (v : j.Value) (a : AgentAssessment fl) : Type 0 where
    pub copy_value : j.Value
    pub copy_field : j.get v (codes "copy_found") ≡ some copy_value
    pub copy_found : j.as_bool copy_value ≡ some a.copy_found
    pub score_value : j.Value
    pub score_field : j.get v (codes "correspondence_score") ≡ some score_value
    pub score : j.as_f64 score_value ≡ some a.correspondence_score

  field-eq-some {ℓ} :
      {A : Type ℓ} (v : j.Value) (key : Text) (f : j.Value → Option A) (a : A)
      → field fl j v key f ≡ some a
      → (x : j.Value) × (j.get v key ≡ some x) × (f x ≡ some a)
  unfolding field
  field-eq-some v key f a h = elim (Option-cases (j.get v key)) [
    | inl e ↦ absurd (ground arith)
    | inr (x, e) ↦ (x, e, ground arith)
  ]

  assessment_of-IsFromJson :
      (v : j.Value) (a : AgentAssessment fl) → assessment_of fl j v ≡ ok a → IsFromJson v a
  unfolding assessment_of
  assessment_of-IsFromJson v a h =
      elim (Option-cases (field fl j v (codes "copy_found") j.as_bool)) [
        | inl e ↦ absurd (ground arith)
        | inr (b, e) ↦ elim (Option-cases (field fl j v (codes "correspondence_score") j.as_f64)) [
          | inl f ↦ absurd (ground arith)
          | inr (s, f) ↦
              let (x, xg, xf) = field-eq-some v (codes "copy_found") j.as_bool b e in
              let (y, yg, yf) = field-eq-some v (codes "correspondence_score") j.as_f64 s f in
              record {
                copy_value = x;
                copy_field = xg;
                copy_found = ground arith;
                score_value = y;
                score_field = yg;
                score = ground arith;
              }
        ]
      ]

  abbrev invalid_json : Text → Text
  invalid_json e = codes "agent response is not valid JSON: " ++ e

  -- An assessment is returned only if the response, trimmed, is JSON or, where it begins with a fence,
  -- holds JSON from its first opening to its last closing brace; the JSON value that is read from this
  -- text has both required fields with their types, the assessment has their values, and its score is a
  -- number, never a NaN.
  pub parse_agent_response_sound :
      (response : Text) (a : AgentAssessment fl)
      → parse_agent_response fl j response ≡ ok (ok a)
      → (text : Text) × (v : j.Value) × IsJsonText response text
        × (j.from_str text ≡ ok v)
        × IsFromJson v a
        × (fl.is_nan a.correspondence_score ≡ false)
  unfolding parse_agent_response
  parse_agent_response_sound response a h =
      let (part, g, h1) = >>=-eq-ok (json_part (trim response)) _ (ok a) h in
      let (text, e, h2) = >>=-eq-ok part _ a (ok-injective h1) in
      let (v, f, h3) = >>=-eq-ok (map_err invalid_json (j.from_str text)) _ a h2 in
      let from = assessment_of-IsFromJson v a h3 in
      (
        text,
        v,
        json_part-IsJsonText response text (g ∙ ap ok e),
        map_err-eq-ok invalid_json (j.from_str text) v f,
        from,
        j.as_f64_not_nan from.score_value a.correspondence_score from.score,
      )
