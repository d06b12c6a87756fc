-- ===== src/Node/HttpApi/Fetch.antt =====
-- node/src/http_api.rs, `fetch_card`, in two halves around the wait for the event loop.
use p2s.Prelude.{
  ℕ, ◌≡◌, refl, Bool, true, Option, none, some, ◌++◌, ◌==◌, if◌then◌else◌, nat_eq, list_eq, length,
  Result, ok, err, Text, Bytes, codes, decimal,
}
use p2s.Proto.{SignedCard, canonical_decode, canonical_encode, decode-encode, proto_error_display}
use p2s.Platform.{Platform}
use p2s.Float.{Float}
use p2s.Node.Sled.{Sled}
use p2s.Node.Metrics.{
  Metrics, inc_http_requests, inc_get_total, inc_get_found, inc_get_not_found, record_get_latency,
}
use p2s.Node.TrustWeight.{TrustWeightStore, get}
use p2s.Node.EventLoop.{QueryResult, put_ok, found, not_found, error}
use p2s.Node.Request.{HexReader}

module _ (p : Platform) (fl : Float) (sled : Sled) (hex_decode : HexReader) where
  -- The card of an answer is shown by its fields, the byte strings in hexadecimal.
  pub data FetchResponse : Type 0 where
    refused : (status : ℕ) → Text → FetchResponse
    fetched : SignedCard → (address : Text) (trust_weight : Option fl.F64) → FetchResponse

  -- The key of an address.
  pub decode_key : Text → Result Text Bytes
  decode_key address = elim (hex_decode address) [
    | err e ↦ err (codes "invalid hex: " ++ e)
    | ok b ↦
        if length b == 32
        then ok b
        else err (codes "address must be 32 bytes, got " ++ decimal (length b))
  ]

  -- The first half: the key that the event loop is asked for.
  pub fetch_request : Bool → Text → Metrics → Metrics × Result FetchResponse Bytes
  unfolding decode_key
  fetch_request is_sent address m =
      let begun = inc_get_total (inc_http_requests m) in
      elim (decode_key address) [
        | err e ↦ (begun, err (refused 400 e))
        | ok key ↦
            if is_sent
            then (begun, ok key)
            else (begun, err (refused 500 (codes "node event loop unavailable")))
      ]

  -- The value that was found, and the weight of the address if it is known.
  pub show_value : Bool → TrustWeightStore fl sled → Text → Bytes → FetchResponse
  show_value weights_lock weights address value =
      elim (canonical_decode ⦃c = p.signed_card_codec⦄ value) [
        | err e ↦ refused 500 (codes "decode failed: " ++ proto_error_display e)
        | ok c ↦ fetched c address (if weights_lock then get fl sled weights address else none)
      ]

  pub fetch_answer :
      Bool
      → TrustWeightStore fl sled
      → Text
      → Option QueryResult
      → Metrics
      → Metrics × FetchResponse
  unfolding show_value
  fetch_answer lock weights address (some (found value)) m =
      (inc_get_found m, show_value lock weights address value)
  fetch_answer lock weights address (some not_found) m =
      (inc_get_not_found m, refused 404 (codes "card not found"))
  fetch_answer lock weights address (some (error e)) m = (m, refused 500 e)
  fetch_answer lock weights address (some put_ok) m = (m, refused 504 (codes "DHT get timed out"))
  fetch_answer lock weights address none m = (m, refused 504 (codes "DHT get timed out"))

  -- The second half.
  pub fetch_reply :
      Bool
      → ℕ
      → TrustWeightStore fl sled
      → Text
      → Option QueryResult
      → Metrics
      → Metrics × FetchResponse
  unfolding fetch_answer
  fetch_reply lock elapsed_us weights address reply m =
      let (counted, response) = fetch_answer lock weights address reply m in
      (record_get_latency elapsed_us counted, response)

  show_value_found :
      (c : SignedCard) (value : Bytes) (weights : TrustWeightStore fl sled) (address : Text)
      → canonical_decode ⦃c = p.signed_card_codec⦄ value ≡ ok c
      → show_value true weights address value ≡ fetched c address (get fl sled weights address)
  unfolding show_value
  show_value_found c value weights address h = rw (h, show_value) refl

  -- A card that is encoded and found again under an address is shown as it is, with the weight that
  -- the node has for the address, whenever the weights can be locked.
  pub fetch_reply_found :
      (c : SignedCard) (value : Bytes) (elapsed_us : ℕ) (weights : TrustWeightStore fl sled)
      (address : Text) (m : Metrics)
      → canonical_encode ⦃c = p.signed_card_codec⦄ c ≡ ok value
      → (fetch_reply true elapsed_us weights address (some (found value)) m).1
        ≡ fetched c address (get fl sled weights address)
  unfolding fetch_reply
  fetch_reply_found c value elapsed_us weights address m h =
      show_value_found c value weights address (decode-encode ⦃c = p.signed_card_codec⦄ c value h)
