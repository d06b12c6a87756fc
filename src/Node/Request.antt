-- ===== src/Node/Request.antt =====
-- node/src/http_api.rs: the request of a publication, what happens around it, and the checks that
-- need no more than the request and the limiter.
use p2s.Prelude.{
  ℕ, Bool, true, false, Option, none, some, ◌++◌, ◌==◌, if◌then◌else◌, nat_eq, list_beq, list_eq,
  length, Result, ok, err, ◌>>=◌, map_err, Text, Bytes, codes, decimal,
}
use p2s.Proto.{CardStatus, active, revoked, SignedCard}
use p2s.Verifier.Harden.{harden_label, harden_error_display}
use p2s.Node.RateLimit.{
  RateLimiter, RateLimitResult, allowed, too_many_cards, cooldown_active, check,
}
use p2s.Node.EventLoop.{QueryResult}

pub record CardRecordJson : Type 0 where
  pub pubkey : Text
  pub seq : ℕ
  pub status : Text
  pub endpoint : Text
  pub manifest_hash : Text
  pub domain : Text
  pub label : Option Text

-- The source's field `record` is `card` here.
pub record PublishCardRequest : Type 0 where
  pub card : CardRecordJson
  pub sig : Text
  pub challenge_nonce : Option Text

-- What happens around a request.
pub record Env : Type 0 where
  -- the verification task ends, and the limiter can be locked for the check
  pub task_ends : Bool
  pub limiter_locks : Bool
  pub checked_at : ℕ
  -- the event loop takes the command, and what comes back in ten seconds if anything
  pub is_sent : Bool
  pub reply : Option QueryResult
  -- the locks and the clock afterwards
  pub limiter_locks_after : Bool
  pub weights_lock : Bool
  pub published_at : ℕ
  pub elapsed_us : ℕ

-- A refusal: the status code, the error, and whether it counts as a rejected put.
pub record Refusal : Type 0 where
  pub code : ℕ
  pub message : Text
  pub is_counted : Bool

abbrev pub counted : ℕ → Text → Refusal
counted code message = record { code = code; message = message; is_counted = true }

abbrev pub uncounted : ℕ → Text → Refusal
uncounted code message = record { code = code; message = message; is_counted = false }

-- The crate hex: decoding, with the error's text.
abbrev pub HexReader : Type 0
HexReader = Text → Result Text Bytes

unfoldable pub parse_status : Text → Result Text CardStatus
parse_status s =
    if list_beq s (codes "active")
    then ok active
    else if list_beq s (codes "revoked")
    then ok revoked
    else err (codes "status must be 'active' or 'revoked'")

-- The card in a request.
unfoldable pub decode_card : HexReader → PublishCardRequest → Result Text SignedCard
unfolding parse_status
decode_card hex_decode req = do
  pubkey ← map_err (λ e. codes "invalid pubkey hex: " ++ e) (hex_decode req.card.pubkey)
  sig ← map_err (λ e. codes "invalid sig hex: " ++ e) (hex_decode req.sig)
  manifest_hash ←
      map_err (λ e. codes "invalid manifest_hash hex: " ++ e) (hex_decode req.card.manifest_hash)
  status ← parse_status req.card.status
  ok (record {
    card = record {
      pubkey = pubkey;
      seq = req.card.seq;
      status = status;
      endpoint = req.card.endpoint;
      manifest_hash = manifest_hash;
      domain = req.card.domain;
      label = req.card.label;
    };
    sig = sig;
  })

-- The limiter's answer as a response.
unfoldable pub limit_response : RateLimitResult → Result Refusal (Unit {0})
limit_response allowed = ok tt
limit_response (too_many_cards domain count max) = err (
    counted 429 (
      codes "rate limit: domain "
      ++ (domain ++ (codes " has reached max " ++ (decimal max ++ codes " cards")))))
limit_response (cooldown_active domain secs) = err (
    counted 429 (
      codes "rate limit: domain "
      ++ (domain ++ (codes " cooldown, retry in " ++ (decimal secs ++ codes "s")))))

-- A limiter that cannot be locked limits nothing.
unfoldable pub check_limit : Env → RateLimiter → Text → Result Refusal (Unit {0})
unfolding limit_response
check_limit env limiter domain =
    if env.limiter_locks then limit_response (check limiter domain env.checked_at) else ok tt

unfoldable pub check_label : Option Text → Result Refusal (Unit {0})
check_label none = ok tt
check_label (some label) = elim (harden_label label) [
  | ok hardened ↦ ok tt
  | err e ↦ err (counted 400 (codes "invalid label: " ++ harden_error_display e))
]

unfoldable pub decode_nonce : HexReader → Text → Result Refusal Bytes
decode_nonce hex_decode nonce_hex = elim (hex_decode nonce_hex) [
  | err e ↦ err (counted 400 (codes "invalid challenge_nonce hex: " ++ e))
  | ok b ↦
      if length b == 16
      then ok b
      else err (counted 400 (codes "challenge_nonce must be 16 bytes, got " ++ decimal (length b)))
]
