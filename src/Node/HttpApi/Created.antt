-- ===== src/Node/HttpApi/Created.antt =====
-- What an answer of success over HTTP means (http_api.rs, `publish_card`).
use p2s.Prelude.{◌≡◌, Option, some, if◌then◌else◌, nat_eq, list_eq, ok, Text}
use p2s.Platform.{Platform}
use p2s.Net.{Net}
use p2s.Float.{Float}
use p2s.Verifier.Manifest.{ManifestReader}
use p2s.Node.Sled.{Sled}
use p2s.Node.RateLimit.{record_publish}
use p2s.Node.EventLoop.{put_ok}
use p2s.Publisher.{hex_encode}
use p2s.Node.Request.{Env, PublishCardRequest, HexReader}
use p2s.Node.HttpApi.{
  error_body, AppState, Response, Publication, publish_request, set_weight, publish_card,
}
use p2s.Node.HttpApi.Publish.{IsAdmitted}

module _ (p : Platform) (net : Net) (fl : Float) (sled : Sled) (from_slice : ManifestReader)
    (hex_decode : HexReader) where
  -- The body of a refusal is an error.
  abbrev IsError : Response p net fl sled from_slice hex_decode → Type 0
  IsError r = (e : Text) × (r.body ≡ error_body e)

  -- What an answer of success means for the state at the reply, `app`, and the state after it.
  pub record IsRecorded (env : Env) (publication : Publication p net fl sled from_slice hex_decode)
      (app after : AppState p net fl sled from_slice hex_decode) : Type 0 where
    pub replied : env.reply ≡ some put_ok
    pub limited : after.rate_limiter ≡ (
        if env.limiter_locks_after
        then record_publish app.rate_limiter publication.card.card.domain env.published_at
        else app.rate_limiter)
    pub weighed :
        after.trust_weights
        ≡ set_weight p net fl sled from_slice hex_decode env publication app.trust_weights

  -- What a publication that is answered with success has gone through.
  pub record IsCreated (env : Env)
      (others : AppState p net fl sled from_slice hex_decode
        → AppState p net fl sled from_slice hex_decode)
      (req : PublishCardRequest) (app : AppState p net fl sled from_slice hex_decode)
      (address : Text) (w : Option fl.F64) : Type 0 where
    pub publication : Publication p net fl sled from_slice hex_decode
    pub sent : (publish_request p net fl sled from_slice hex_decode env req app).1 ≡ ok publication
    pub is_admitted :
        IsAdmitted p net fl sled from_slice hex_decode env app.rate_limiter req publication
    pub address_shown : address ≡ hex_encode publication.address
    pub weight_shown : w ≡ publication.trust_weight
    pub is_recorded :
        IsRecorded env publication
          (others (publish_request p net fl sled from_slice hex_decode env req app).0)
          (publish_card p net fl sled from_slice hex_decode env others req app).0
