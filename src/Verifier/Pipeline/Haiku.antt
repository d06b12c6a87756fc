-- ===== src/Verifier/Pipeline/Haiku.antt =====
-- The pipeline with the agent of haiku_agent.rs, whose scores are never a NaN.
use p2s.Prelude.{
  ◌≡◌, inl, inr, Bool, true, false, Option, arith, Bool-cases, nat_eq, list_eq, ok, Text, codes,
}
use p2s.Float.{Float, InUnit}
use p2s.Json.{Json}
use p2s.Verifier.Stage1.{Stage1Facts}
use p2s.Verifier.HaikuAgent.{Post, HaikuAgent, assess, assess_not_nan}
use p2s.Verifier.Verdict.{VerificationVerdict, AdmitDecision, admitted, rejected}
use p2s.Verifier.Verdict.Decision.{promised_weight}
use p2s.Verifier.Pipeline.{verify}
use p2s.Verifier.Pipeline.Gate.{verify_lem}

module _ (fl : Float) (j : Json fl) (http : Post j) (to_lowercase : Text → Text) where
  -- A decision of the pipeline: the domain decides between the two.
  pub data IsDecided (domain_verified : Bool) (d : AdmitDecision fl) : Type 0 where
    turned_down :
        domain_verified ≡ false
        → d ≡ rejected (codes "domain ownership verification failed")
        → IsDecided domain_verified d
    weighed :
        (w : fl.F64)
        → domain_verified ≡ true
        → d ≡ admitted w
        → InUnit fl w
        → IsDecided domain_verified d

  -- Whatever the API answers over HTTP: a decision of the pipeline rejects the card if its domain is not
  -- verified, and else admits it with a weight that is a number from 0 to 1.
  pub verify-IsDecided :
      (agent : HaikuAgent) (stage1 : Stage1Facts) (endpoint domain : Text) (label : Option Text)
      (raw : Text) (v : VerificationVerdict fl) (d : AdmitDecision fl)
      → verify fl to_lowercase (assess fl j http agent) stage1 endpoint domain label raw
        ≡ ok (ok (v, d))
      → IsDecided stage1.domain_verified d
  verify-IsDecided agent stage1 endpoint domain label raw v d h =
      let (assessed, decided, in_unit) =
        verify_lem fl to_lowercase (assess fl j http agent) (assess_not_nan fl j http agent) stage1
          endpoint domain label raw v d h in
      elim (Bool-cases stage1.domain_verified) [
        | inl e ↦ weighed (promised_weight fl v) e (ground (arith, decided, e)) in_unit
        | inr e ↦ turned_down e (ground (arith, decided, e))
      ]
