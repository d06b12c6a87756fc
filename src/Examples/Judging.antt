-- ===== src/Examples/Judging.antt =====
-- Witnesses of the theorems on the agent, the verdict and the pipeline.
use p2s.Prelude.{
  ◌+◌, ◌≡◌, refl, true, false, none, some, [], ◌∷◌, ◌++◌, arith, nat_eq, list_eq, ok, err, Text,
  codes, is_whitespace, trim, starts_with,
}
use p2s.Float.{InUnit, clamp}
use p2s.Verifier.Slices.{panic, byte_len, find}
use p2s.Verifier.Sanitize.{closing_tag}
use p2s.Verifier.Sanitize.Tests.{lower, closing_tag_escaped}
use p2s.Verifier.Verdict.{VerificationVerdict, admitted, compute_admit_decision}
use p2s.Verifier.Verdict.Decision.{compute_admit_decision_lem}
use p2s.Verifier.Agent.{
  AgentAssessment, VerificationAgent, build_agent_prompt, prompt_head, prompt_tail, json_part,
  parse_agent_response, assessment_of, field, text_of,
}
use p2s.Verifier.Agent.Prompt.{build_agent_prompt_isolates}
use p2s.Verifier.Agent.Answer.{IsJsonText, IsFromJson, parse_agent_response_sound}
use p2s.Verifier.Agent.Panics.{parse_agent_response_panics}
use p2s.Verifier.Pipeline.{verify, verdict_of}
use p2s.Verifier.HaikuAgent.{assess, new_agent, request_text, first_text}
use p2s.Verifier.Pipeline.Haiku.{IsDecided, verify-IsDecided}
use p2s.Verifier.Pipeline.Gate.{IsAssessed, verify_lem, NeverNan}
use p2s.Examples.Toy.{toy_float, toy_post, toy_json}
use p2s.Examples.Verification.{toy_facts, escaped, hostile}

abbrev toy_verdict : VerificationVerdict toy_float
toy_verdict = record {
  domain_verified = true;
  copy_found = true;
  copy_source_url = none;
  correspondence_score = some 2000;
  notes = none;
}

compute_admit_decision_lem_example :
    (compute_admit_decision toy_float toy_verdict ≡ admitted (some 512))
    × InUnit toy_float (some 512)
unfolding clamp
compute_admit_decision_lem_example = compute_admit_decision_lem toy_float toy_verdict refl

build_agent_prompt_isolates_example :
    ((build_agent_prompt (codes "https://a.example/m") (codes "a.example") none escaped).1
      ≡ prompt_head (codes "https://a.example/m") (codes "a.example") none
        ++ (escaped ++ prompt_tail))
    × (find (escaped ++ prompt_tail) closing_tag ≡ some (byte_len escaped + 1))
build_agent_prompt_isolates_example =
    build_agent_prompt_isolates lower (codes "https://a.example/m") (codes "a.example") none hostile
      escaped closing_tag_escaped

abbrev toy_assessment : AgentAssessment toy_float
toy_assessment = record {
  copy_found = false;
  copy_source_url = some (codes "copy_source_url");
  correspondence_score = some 512;
  notes = some (codes "notes");
}

toy_parsed : parse_agent_response toy_float toy_json (codes " {} ") ≡ ok (ok toy_assessment)
unfolding parse_agent_response json_part assessment_of field text_of starts_with trim is_whitespace
toy_parsed = refl

parse_agent_response_sound_example :
    (text : Text) × (v : Text) × IsJsonText toy_float toy_json (codes " {} ") text
    × (toy_json.from_str text ≡ ok v)
    × IsFromJson toy_float toy_json v toy_assessment
    × (false ≡ false)
parse_agent_response_sound_example =
    parse_agent_response_sound toy_float toy_json (codes " {} ") toy_assessment toy_parsed

abbrev odd_answer : Text
odd_answer = codes "``` } and then {"

odd_trimmed :
    trim odd_answer ≡ (codes "```" ++ codes " ") ++ b'}' ∷ (codes " and then " ++ b'{' ∷ [])
unfolding trim is_whitespace
odd_trimmed = refl

parse_agent_response_panics_example : parse_agent_response toy_float toy_json odd_answer ≡ err panic
parse_agent_response_panics_example =
    parse_agent_response_panics toy_float toy_json odd_answer (codes " ") (codes " and then ") []
      odd_trimmed refl refl refl refl (omega arith)

abbrev toy_agent : VerificationAgent toy_float
toy_agent endpoint domain label content = ok (ok toy_assessment)

toy_agent-NeverNan : NeverNan toy_float toy_agent
toy_agent-NeverNan endpoint domain label content a h = ground arith

abbrev admitted_verdict : VerificationVerdict toy_float
admitted_verdict = record {
  domain_verified = true;
  copy_found = false;
  copy_source_url = some (codes "copy_source_url");
  correspondence_score = some 512;
  notes = some (codes "notes");
}

toy_run :
    verify toy_float lower toy_agent toy_facts
      (codes "https://a.example/m")
      (codes "a.example")
      none
      hostile
    ≡ ok (ok (admitted_verdict, compute_admit_decision toy_float admitted_verdict))
unfolding verify verdict_of
toy_run = rw closing_tag_escaped refl

verify_lem_example :
    IsAssessed toy_float lower toy_agent toy_facts
      (codes "https://a.example/m")
      (codes "a.example")
      none
      hostile
      admitted_verdict
    × (compute_admit_decision toy_float admitted_verdict ≡ admitted (some 512))
    × InUnit toy_float (some 512)
unfolding clamp
verify_lem_example =
    verify_lem toy_float lower toy_agent toy_agent-NeverNan toy_facts (codes "https://a.example/m")
      (codes "a.example") none hostile admitted_verdict
      (compute_admit_decision toy_float admitted_verdict) toy_run

haiku_assessed :
    assess toy_float toy_json toy_post
      (new_agent (codes "key"))
      (codes "https://a.example/m")
      (codes "a.example")
      none
      escaped
    ≡ ok (ok toy_assessment)
unfolding assess request_text first_text parse_agent_response json_part assessment_of field text_of
    starts_with trim is_whitespace
haiku_assessed = refl

haiku_run :
    verify toy_float lower
      (assess toy_float toy_json toy_post (new_agent (codes "key")))
      toy_facts
      (codes "https://a.example/m")
      (codes "a.example")
      none
      hostile
    ≡ ok (ok (admitted_verdict, compute_admit_decision toy_float admitted_verdict))
unfolding verify verdict_of
haiku_run = rw (closing_tag_escaped, haiku_assessed) refl

verify-IsDecided_example :
    IsDecided toy_float toy_json toy_post lower true
      (compute_admit_decision toy_float admitted_verdict)
verify-IsDecided_example =
    verify-IsDecided toy_float toy_json toy_post lower (new_agent (codes "key")) toy_facts
      (codes "https://a.example/m") (codes "a.example") none hostile admitted_verdict
      (compute_admit_decision toy_float admitted_verdict) haiku_run
