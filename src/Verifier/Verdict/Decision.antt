-- ===== src/Verifier/Verdict/Decision.antt =====
-- What verdict.rs decides: the domain check alone rejects, and the rest sets the weight.
use p2s.Prelude.{
  ◌≡◌, inl, inr, Bool, true, false, arith, if◌then◌else◌, Bool-cases, nat_eq, list_eq, codes,
}
use p2s.Float.{Float, clamp, InUnit, clamp-InUnit, clamp_of_InUnit, half-InUnit}
use p2s.Verifier.Verdict.{VerificationVerdict, admitted, rejected, compute_admit_decision}

module _ (fl : Float) where
  -- The weight that the documentation promises: the score brought into the range, halved for a copy.
  abbrev pub promised_weight : VerificationVerdict fl → fl.F64
  promised_weight v =
      let score = clamp fl v.correspondence_score fl.zero_f fl.one_f in
      if v.copy_found then fl.mul score fl.half_f else score

  promised_weight-InUnit :
      (v : VerificationVerdict fl)
      → fl.is_nan v.correspondence_score ≡ false
      → InUnit fl (promised_weight v)
  promised_weight-InUnit v n =
      let u = clamp-InUnit fl v.correspondence_score n in
      elim (Bool-cases v.copy_found) [ inl e ↦ rw e (half-InUnit fl _ u) | inr e ↦ rw e u ]

  -- For a score that is a number, a card is rejected exactly when its domain is not verified. Every
  -- other card is admitted, with the promised weight, which lies from 0 to 1.
  pub compute_admit_decision_lem :
      (v : VerificationVerdict fl)
      → fl.is_nan v.correspondence_score ≡ false
      → (compute_admit_decision fl v ≡ (
          if v.domain_verified
          then admitted (promised_weight v)
          else rejected (codes "domain ownership verification failed")))
        × InUnit fl (promised_weight v)
  unfolding compute_admit_decision
  compute_admit_decision_lem v n =
      let u = clamp-InUnit fl v.correspondence_score n in
      let w = promised_weight-InUnit v n in
      (ground (arith, clamp_of_InUnit fl (promised_weight v) w, fl.one_mul _ u.not_nan), w)

  abbrev pub found_copy : VerificationVerdict fl → Bool → VerificationVerdict fl
  found_copy v b = record v { copy_found = b }

  -- Finding a copy never rejects a card and never raises its weight: the weight is halved.
  pub copy_penalty :
      (v : VerificationVerdict fl)
      → fl.is_nan v.correspondence_score ≡ false
      → v.domain_verified ≡ true
      → (w : fl.F64) × (compute_admit_decision fl (found_copy v false) ≡ admitted w)
        × (compute_admit_decision fl (found_copy v true) ≡ admitted (fl.mul w fl.half_f))
        × (fl.lt w (fl.mul w fl.half_f) ≡ false)
  copy_penalty v n d =
      let w = promised_weight (found_copy v false) in
      let u = clamp-InUnit fl v.correspondence_score n in
      (
        w,
        ground (arith, (compute_admit_decision_lem (found_copy v false) n).0),
        ground (arith, (compute_admit_decision_lem (found_copy v true) n).0),
        fl.half_le w u.not_nan u.nonneg u.le_one,
      )
