-- ===== src/Node/HttpApi/Review/Resolved.antt =====
-- What a review does to the weight of its address.
use p2s.Prelude.{
  ◌≡◌, refl, ap, ◌∙◌, Bool, true, false, Option, some, if◌then◌else◌, nat_eq, list_beq, list_eq,
  Text,
}
use p2s.Float.{Float, clamp, InUnit, clamp-InUnit}
use p2s.Node.Sled.{Sled}
use p2s.Node.TrustWeight.{get}
use p2s.Node.TrustWeight.Known.{get-set}
use p2s.Node.ReviewQueue.{EntryCodec}
use p2s.Node.HttpApi.Review.{ReviewState, reweigh, resolve_review}

module _ (fl : Float) (sled : Sled) (codec : EntryCodec fl) where
  weights-resolve_review :
      (lock : Bool) (address : Text) (w : Option fl.F64) (s : ReviewState fl sled codec)
      (tree : sled.Tree)
      → s.review_queue ≡ some tree
      → (resolve_review fl sled codec lock address w s).0.trust_weights
        ≡ reweigh fl sled codec lock address w s.trust_weights
  unfolding resolve_review
  weights-resolve_review lock address w s tree h = rw (h, resolve_review) refl

  -- A review with a new weight that is a number, while the weights can be locked and there is a queue:
  -- the weight that is known for its address afterwards is the new weight clamped, which is from 0 to
  -- 1, and the weight of every other address is as before.
  pub resolve_review-InUnit :
      (address other : Text) (w : fl.F64) (s : ReviewState fl sled codec) (tree : sled.Tree)
      → s.review_queue ≡ some tree
      → fl.is_nan w ≡ false
      → let after = (resolve_review fl sled codec true address (some w) s).0.trust_weights in
        let clamped = clamp fl w fl.zero_f fl.one_f in
        (get fl sled after other
          ≡ (if list_beq address other then some clamped else get fl sled s.trust_weights other))
        × InUnit fl clamped
  unfolding reweigh
  resolve_review-InUnit address other w s tree q n = (
    ap (λ t. get fl sled t other) (weights-resolve_review true address (some w) s tree q)
        ∙ get-set fl sled s.trust_weights address other (clamp fl w fl.zero_f fl.one_f),
    clamp-InUnit fl w n,
  )
