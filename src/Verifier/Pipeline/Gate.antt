-- ===== src/Verifier/Pipeline/Gate.antt =====
-- What the agent decides and what it does not (pipeline.rs).
use p2s.Prelude.{
  ◌≡◌, sym, ap, ◌∙◌, Bool, false, Option, arith, if◌then◌else◌, nat_eq, list_eq, ok, >>=-eq-ok,
  ok-injective, Text, codes,
}
use p2s.Float.{Float, InUnit}
use p2s.Verifier.Sanitize.{sanitize_content}
use p2s.Verifier.Sanitize.Output.{IsFiltered, sanitize_content-IsFiltered}
use p2s.Verifier.Stage1.{Stage1Facts}
use p2s.Verifier.Agent.{AgentAssessment, VerificationAgent}
use p2s.Verifier.Verdict.{
  VerificationVerdict, AdmitDecision, compute_admit_decision, admitted, rejected,
}
use p2s.Verifier.Verdict.Decision.{promised_weight, compute_admit_decision_lem}
use p2s.Verifier.Pipeline.{verify, verdict_of}

-- The agent never answers with a score that is not a number.
abbrev pub NeverNan : (fl : Float) → VerificationAgent fl → Type 0
NeverNan fl assess =
    (endpoint domain : Text) (label : Option Text) (content : Text) (a : AgentAssessment fl)
    → assess endpoint domain label content ≡ ok (ok a)
    → fl.is_nan a.correspondence_score ≡ false

module _ (fl : Float) (to_lowercase : Text → Text) (assess : VerificationAgent fl) where
  -- The run that led to an outcome: a filtered content, and the agent's assessment of it.
  pub record IsAssessed (stage1 : Stage1Facts) (endpoint domain : Text) (label : Option Text)
      (raw : Text) (v : VerificationVerdict fl) : Type 0 where
    pub content : Text
    pub assessment : AgentAssessment fl
    pub sanitized : sanitize_content to_lowercase raw ≡ ok content
    pub filtered : IsFiltered content
    pub assessed : assess endpoint domain label content ≡ ok (ok assessment)
    pub same_domain : v.domain_verified ≡ stage1.domain_verified
    pub same_copy : v.copy_found ≡ assessment.copy_found
    pub same_score : v.correspondence_score ≡ assessment.correspondence_score

  -- In every outcome of the pipeline, the agent has assessed filtered content, its score and its copy
  -- finding are in the verdict, and the domain fact is stage 1's. The card is rejected if that fact is
  -- false, whatever the agent says; otherwise it is admitted with a weight from 0 to 1. It is assumed
  -- that the agent never answers with a NaN.
  pub verify_lem :
      NeverNan fl assess
      → (stage1 : Stage1Facts) (endpoint domain : Text) (label : Option Text) (raw : Text)
        (v : VerificationVerdict fl) (d : AdmitDecision fl)
      → verify fl to_lowercase assess stage1 endpoint domain label raw ≡ ok (ok (v, d))
      → IsAssessed stage1 endpoint domain label raw v
        × (d ≡ (
            if stage1.domain_verified
            then admitted (promised_weight fl v)
            else rejected (codes "domain ownership verification failed")))
        × InUnit fl (promised_weight fl v)
  unfolding verify verdict_of
  verify_lem number stage1 endpoint domain label raw v d h =
      let (content, s, h1) = >>=-eq-ok (sanitize_content to_lowercase raw) _ (ok (v, d)) h in
      let (answer, g, h2) = >>=-eq-ok (assess endpoint domain label content) _ (ok (v, d)) h1 in
      let (a, e, h3) = >>=-eq-ok answer _ (v, d) (ok-injective h2) in
      let verdict = verdict_of fl to_lowercase assess stage1 a in
      let same : v ≡ verdict = ground (arith, ok-injective h3) in
      let made : d ≡ compute_admit_decision fl verdict = ground (arith, ok-injective h3) in
      let same_domain : v.domain_verified ≡ stage1.domain_verified =
        ap (λ (x : VerificationVerdict fl). x.domain_verified) same in
      let is_number : fl.is_nan v.correspondence_score ≡ false =
        ground (arith, number endpoint domain label content a (g ∙ ap ok e)) in
      let (decided, in_unit) = compute_admit_decision_lem fl v is_number in
      (
        record {
          content = content;
          assessment = a;
          sanitized = s;
          filtered = sanitize_content-IsFiltered to_lowercase raw content s;
          assessed = g ∙ ap ok e;
          same_domain = ground arith;
          same_copy = ground arith;
          same_score = ground arith;
        },
        made
            ∙ ap (compute_admit_decision fl) (sym same)
            ∙ decided
            ∙ ap
                (λ (b : Bool).
                  if b
                  then admitted (promised_weight fl v)
                  else rejected (codes "domain ownership verification failed"))
                same_domain,
        in_unit,
      )
