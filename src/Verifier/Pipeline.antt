-- ===== src/Verifier/Pipeline.antt =====
-- verifier/src/pipeline.rs: stage 2. The agent sees the filtered content, and the decision is
-- computed from its assessment and the facts of stage 1.
pub mod Gate
pub mod Haiku
use p2s.Prelude.{Bool, true, Option, none, nat_eq, list_eq, Result, ok, ◌>>=◌, ◌>>◌, Text}
use p2s.Float.{Float}
use p2s.Verifier.Slices.{Run}
use p2s.Verifier.Sanitize.{sanitize_content}
use p2s.Verifier.Stage1.{Stage1Facts}
use p2s.Verifier.Agent.{AgentAssessment, VerificationAgent}
use p2s.Verifier.Verdict.{VerificationVerdict, AdmitDecision, compute_admit_decision}

module _ (fl : Float) (to_lowercase : Text → Text) (assess : VerificationAgent fl) where
  unfoldable pub verdict_of : Stage1Facts → AgentAssessment fl → VerificationVerdict fl
  verdict_of stage1 assessment = record {
    domain_verified = stage1.domain_verified;
    copy_found = assessment.copy_found;
    copy_source_url = assessment.copy_source_url;
    correspondence_score = assessment.correspondence_score;
    notes = assessment.notes;
  }

  unfoldable pub verify :
      Stage1Facts
      → Text
      → Text
      → Option Text
      → Text
      → Run (Result Text (VerificationVerdict fl × AdmitDecision fl))
  verify stage1 card_endpoint card_domain card_label raw_site_content = do
    sanitized ← sanitize_content to_lowercase raw_site_content
    answer ← assess card_endpoint card_domain card_label sanitized
    ok (
        answer >>= λ assessment.
        let verdict = verdict_of stage1 assessment in
        ok (verdict, compute_admit_decision fl verdict))

  pub verify_simple :
      Bool
      → Text
      → Text
      → Option Text
      → Text
      → Run (Result Text (VerificationVerdict fl × AdmitDecision fl))
  verify_simple domain_verified card_endpoint card_domain card_label raw_site_content =
      verify facts card_endpoint card_domain card_label raw_site_content
    where
      facts : Stage1Facts
      facts = record {
        domain_verified = domain_verified;
        endpoint_valid = true;
        manifest_valid = true;
        manifest = none;
        label_hardened = card_label;
      }
