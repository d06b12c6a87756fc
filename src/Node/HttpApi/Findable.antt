-- ===== src/Node/HttpApi/Findable.antt =====
-- From a publication over HTTP, through the event loop and the store, to the next fetch (http_api.rs,
-- event_loop.rs, record_store.rs).
use p2s.Prelude.{ℕ, ◌≡◌, refl, sym, Option, List, map, nat_eq, list_beq_refl, list_eq, ok, Bytes}
use mathlib.Core.Path.{subst}
use p2s.Proto.{SignedCard, canonical_encode, decode-encode}
use p2s.Platform.{Platform}
use p2s.Net.{Net}
use p2s.Float.{Float}
use p2s.Card.{compute_address, verify_address}
use p2s.Card.Verify.{IsAuthentic, verify_card_iff}
use p2s.Verifier.Manifest.{ManifestReader}
use p2s.Node.Sled.{Sled, Database}
use p2s.Node.RecordStore.{KadRecord, disk_record, validate_and_extract_seq, with_persistence}
use p2s.Node.RecordStore.Validity.{puts}
use p2s.Node.RecordStore.Versions.{HasRoom}
use p2s.Node.EventLoop.{Node, Locks, Answers, Reply, Turn, handle_put, handle_get, run_event_loop}
use p2s.Node.EventLoop.Found.{IsFound, handle_get-handle_put}
use p2s.Node.Request.{Env, PublishCardRequest, HexReader}
use p2s.Node.HttpApi.{AppState, Publication, publish_request}
use p2s.Node.HttpApi.Publish.{publish_request-IsAdmitted}

module _ (p : Platform) (fl : Float) (sled : Sled) where
  -- A card that is authentic and encoded is valid under its address.
  validate_published :
      (c : SignedCard) (value : Bytes)
      → canonical_encode ⦃c = p.signed_card_codec⦄ c ≡ ok value
      → IsAuthentic p c
      → validate_and_extract_seq p fl sled (disk_record (p.hash c.card.pubkey) value)
        ≡ ok c.card.seq
  unfolding validate_and_extract_seq compute_address verify_address
  validate_published c value e a =
      rw
        (
          decode-encode ⦃c = p.signed_card_codec⦄ c value e,
          (verify_card_iff p c).1 a,
          list_beq_refl (p.hash c.card.pubkey),
        )
        refl

module _ (p : Platform) (net : Net) (fl : Float) (sled : Sled) (from_slice : ManifestReader)
    (hex_decode : HexReader) where
  -- A publication that `publish_card` lets through, on a node that has started from a database and run
  -- for any turns: if the store has room and Kademlia puts nothing but records on the way, then after
  -- the command of the publication the next get for the card's address is answered at once, with an
  -- authentic card of this address whose sequence number is not lower.
  pub handle_get-publish_request :
      (env : Env) (req : PublishCardRequest) (app : AppState p net fl sled from_slice hex_decode)
      (publication : Publication p net fl sled from_slice hex_decode) (max : ℕ)
      (db : Option (Database sled)) (start : Node p fl sled) (turns : List (Locks × Turn p fl sled))
      (locks locks' : Locks) (answers answers' : Answers p fl sled) (reply reply' : Reply)
      (rs : List KadRecord)
      → (publish_request p net fl sled from_slice hex_decode env req app).1 ≡ ok publication
      → start.store ≡ with_persistence p fl sled max db
      → HasRoom p fl sled (run_event_loop p fl sled turns start).store publication.address
      → answers.put_calls ≡ map puts rs
      → let n =
          handle_put p fl sled locks answers publication.address publication.value reply
            (run_event_loop p fl sled turns start) in
        IsFound p fl sled n
          (handle_get p fl sled locks' answers' publication.address reply' n)
          reply'
          publication.address
          publication.card.card.seq
  handle_get-publish_request env req app publication max db start turns locks locks' answers
        answers' reply reply' rs h loaded room only =
      let admitted =
        publish_request-IsAdmitted p net fl sled from_slice hex_decode env req app publication h in
      let valid =
        subst
          (λ k.
            validate_and_extract_seq p fl sled (disk_record k publication.value)
            ≡ ok publication.card.card.seq)
          (sym admitted.own_address)
          (validate_published p fl sled publication.card publication.value admitted.encoded
            admitted.authentic) in
      handle_get-handle_put p fl sled max db start turns locks locks' answers answers'
        publication.address publication.value reply reply' publication.card.card.seq rs loaded valid
        room only
