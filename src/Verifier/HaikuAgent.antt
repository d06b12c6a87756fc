-- ===== src/Verifier/HaikuAgent.antt =====
-- verifier/src/haiku_agent.rs: the agent behind Anthropic's Messages API. The HTTP client and the
-- request's JSON are a parameter: a call posts the model's name and the two prompts.
use p2s.Prelude.{
  ℕ, ◌≡◌, inl, inr, Bool, false, not, Option, none, some, List, [], ◌∷◌, ◌++◌, arith, nat_eq,
  list_eq, Result, ok, err, ◌>>=◌, ◌>>◌, reject_if, ok_or, Result-cases, Text, codes,
}
use p2s.Float.{Float}
use p2s.Json.{Json}
use p2s.Verifier.Agent.{
  AgentAssessment, VerificationAgent, build_agent_prompt, parse_agent_response,
}
use p2s.Verifier.Agent.Answer.{parse_agent_response_sound}

-- What `serde_json::json!` builds of the request.
pub record RequestBody : Type 0 where
  pub model : Text
  pub max_tokens : ℕ
  pub system : Text
  pub user_content : Text

-- reqwest for one POST with headers; an error is kept by its text.
pub record Post {fl : Float} (j : Json fl) : Type 1 where
  pub Response : Type 0
  pub build_client : ℕ → Result Text (Unit {0})
  pub post : (url : Text) → List (Text × Text) → RequestBody → Result Text Response
  pub status_is_success : Response → Bool
  pub status_display : Response → Text
  pub text : Response → Result Text Text
  pub json : Response → Result Text j.Value

pub record HaikuAgent : Type 0 where
  pub api_key : Text
  pub model : Text

pub new_agent : Text → HaikuAgent
new_agent api_key = record { api_key = api_key; model = codes "claude-haiku-4-5-20251001" }

pub with_model : Text → Text → HaikuAgent
with_model api_key model = record { api_key = api_key; model = model }

-- `unwrap_or_default` of a text
pub text_or_default : Result Text Text → Text
text_or_default (ok t) = t
text_or_default (err e) = []

first : {A : Type 0} → List A → Option A
first [] = none
first (a ∷ as_) = some a

module _ (fl : Float) (j : Json fl) (http : Post j) where
  -- `resp["content"].as_array()…first()…["text"].as_str()`
  unfoldable pub first_text : j.Value → Option Text
  unfolding first
  first_text resp = elim (j.as_array (j.index resp (codes "content"))) [
    | none ↦ none
    | some arr ↦ elim (first arr) [
      | none ↦ none
      | some block ↦ j.as_str (j.index block (codes "text"))
    ]
  ]

  -- From the prompts to the text of the answer.
  unfoldable pub request_text : HaikuAgent → Text × Text → Result Text Text
  request_text agent (system_prompt, user_prompt) = do
    http.build_client 30
    response ←
        http.post (codes "https://api.anthropic.com/v1/messages")
          ((codes "x-api-key", agent.api_key)
            ∷ (codes "anthropic-version", codes "2023-06-01")
            ∷ (codes "content-type", codes "application/json")
            ∷ [])
          (record {
            model = agent.model;
            max_tokens = 1024;
            system = system_prompt;
            user_content = user_prompt;
          })
    reject_if (not (http.status_is_success response)) (
        codes "Anthropic API returned "
        ++ (http.status_display response ++ (codes ": " ++ text_or_default (http.text response))))
    resp ← http.json response
    ok_or (first_text resp) (codes "unexpected API response structure")

  unfoldable pub assess : HaikuAgent → VerificationAgent fl
  assess agent card_endpoint card_domain card_label sanitized_content =
      elim (request_text agent
        (build_agent_prompt card_endpoint card_domain card_label sanitized_content)) [
          | err e ↦ ok (err e)
          | ok text ↦ parse_agent_response fl j text
        ]

  pub assess_not_nan :
      (agent : HaikuAgent) (endpoint domain : Text) (label : Option Text) (content : Text)
      (a : AgentAssessment fl)
      → assess agent endpoint domain label content ≡ ok (ok a)
      → fl.is_nan a.correspondence_score ≡ false
  unfolding assess
  assess_not_nan agent endpoint domain label content a h =
      elim (Result-cases (request_text agent (build_agent_prompt endpoint domain label content))) [
        | inr (x, f) ↦ absurd (ground arith)
        | inl (t, f) ↦ (parse_agent_response_sound fl j t a (ground arith)).5
      ]
