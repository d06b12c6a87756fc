-- ===== src/Verifier/Verdict.antt =====
-- verifier/src/verdict.rs: the decision over a card, computed from the structured verdict.
pub mod Decision
use p2s.Prelude.{Bool, not, Option, if◌then◌else◌, nat_eq, list_eq, Text, codes}
use p2s.Float.{Float, clamp}

module _ (fl : Float) where
  pub record VerificationVerdict : Type 0 where
    pub domain_verified : Bool
    pub copy_found : Bool
    pub copy_source_url : Option Text
    pub correspondence_score : fl.F64
    pub notes : Option Text

  pub data AdmitDecision : Type 0 where
    admitted : (reputation_weight : fl.F64) → AdmitDecision
    rejected : (reason : Text) → AdmitDecision

  pub compute_admit_decision : VerificationVerdict → AdmitDecision
  compute_admit_decision verdict =
      if not verdict.domain_verified
      then rejected (codes "domain ownership verification failed")
      else let scored =
          fl.mul fl.one_f (clamp fl verdict.correspondence_score fl.zero_f fl.one_f) in
        let weight = if verdict.copy_found then fl.mul scored fl.half_f else scored in
        admitted (clamp fl weight fl.zero_f fl.one_f)
