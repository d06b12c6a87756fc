-- ===== src/Node/HttpApi/Review.antt =====
-- node/src/http_api.rs: appeals and their reviews.
pub mod Resolved
use p2s.Prelude.{
  ℕ, Bool, true, false, not, Option, none, some, List, [], ◌++◌, if◌then◌else◌, nat_eq, list_eq,
  Result, ok, err, Text, codes,
}
use p2s.Float.{Float, clamp}
use p2s.Node.Sled.{Sled}
use p2s.Node.TrustWeight.{TrustWeightStore, set, get}
use p2s.Node.ReviewQueue.{ReviewEntry, EntryCodec, submit, list_pending, resolve}

module _ (fl : Float) (sled : Sled) (codec : EntryCodec fl) where
  -- The parts of `NodeState` that a review uses; the queue is its tree.
  pub record ReviewState : Type 0 where
    pub trust_weights : TrustWeightStore fl sled
    pub review_queue : Option sled.Tree

  -- A status code with the status or error of the answer.
  pub record ReviewResponse : Type 0 where
    pub code : ℕ
    pub message : Text

  abbrev answer : ℕ → Text → ReviewResponse
  answer code message = record { code = code; message = message }

  abbrev unavailable : ReviewResponse
  unavailable = answer 503 (codes "review queue not available")

  -- The known weight of an address, or one.
  pub known_weight : Bool → TrustWeightStore fl sled → Text → fl.F64
  known_weight weights_lock weights address =
      if weights_lock
      then (elim (get fl sled weights address) [ none ↦ fl.one_f | some w ↦ w ])
      else fl.one_f

  submit_response : Result Text (Unit {0}) → ReviewResponse
  submit_response (ok t) = answer 201 (codes "appeal_submitted")
  submit_response (err e) = answer 500 (codes "failed to submit appeal: " ++ e)

  pub submit_appeal :
      Bool → (now address reason : Text) → ReviewState → ReviewState × ReviewResponse
  unfolding known_weight submit_response
  submit_appeal weights_lock now address reason s = elim s.review_queue [
    | none ↦ (s, unavailable)
    | some tree ↦
        let weight = known_weight weights_lock s.trust_weights address in
        let (after, result) = submit fl sled codec tree now address reason weight in
        (record s { review_queue = some after }, submit_response result)
  ]

  pub list_reviews : ReviewState → List (ReviewEntry fl)
  list_reviews s = elim s.review_queue [ none ↦ [] | some tree ↦ list_pending fl sled codec tree ]

  resolve_response : Result Text Bool → ReviewResponse
  resolve_response (ok true) = answer 200 (codes "resolved")
  resolve_response (ok false) = answer 404 (codes "no pending review for this address")
  resolve_response (err e) = answer 500 (codes "failed to resolve review: " ++ e)

  -- The new weight of a review, clamped.
  pub reweigh : Bool → Text → Option fl.F64 → TrustWeightStore fl sled → TrustWeightStore fl sled
  reweigh weights_lock address none weights = weights
  reweigh weights_lock address (some w) weights =
      if weights_lock then set fl sled weights address (clamp fl w fl.zero_f fl.one_f) else weights

  pub resolve_review : Bool → Text → Option fl.F64 → ReviewState → ReviewState × ReviewResponse
  unfolding resolve_response reweigh
  resolve_review weights_lock address new_weight s = elim s.review_queue [
    | none ↦ (s, unavailable)
    | some tree ↦
        let weights = reweigh weights_lock address new_weight s.trust_weights in
        let (after, result) = resolve fl sled codec tree address in
        (record { trust_weights = weights; review_queue = some after }, resolve_response result)
  ]
