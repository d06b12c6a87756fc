-- ===== src/Examples/Racing.antt =====
-- The witnesses of the theorems on two publications at once, and on a publication and a fetch.
use p2s.Prelude.{
  ◌≡◌, refl, ap, ◌↔◌, none, [], nat_eq, list_eq, ok, lookup, is_control, is_whitespace, trim,
}
use p2s.Card.{verify_card, compute_address}
use p2s.Proto.{canonical_encode}
use p2s.Verifier.Harden.{harden_label}
use p2s.Verifier.Manifest.{validate_endpoint}
use p2s.Node.Metrics.{inc_sig_ok, inc_put_total, inc_http_requests}
use p2s.Node.RateLimit.{check, check_count, check_cooldown, new_limiter}
use p2s.Node.Request.{decode_card, parse_status, limit_response, check_limit, check_label}
use p2s.Node.HttpApi.{
  AppState, Publication, check_endpoint, check_domain, admit, admitted_or_refused, verified_publish,
  publish_request, publish_reply,
}
use p2s.Examples.Toy.{toy_platform, toy_net, toy_float, toy_sled, signed_card_coding}
use p2s.Examples.Data.{site, toy_card, toy_address}
use p2s.Node.RecordStore.{new_store, with_persistence, load_from_disk}
use p2s.Node.EventLoop.{handle_put, handle_get, run_event_loop}
use p2s.Node.EventLoop.Found.{IsFound}
use p2s.Node.HttpApi.Publish.{IsAdmitted}
use p2s.Node.HttpApi.Admits.{publish_request_iff}
use p2s.Node.HttpApi.Findable.{handle_get-publish_request}
use p2s.Examples.Running.{unlocked, answers, idle, toy_env, request, toy_app, toy_reader, toy_hex}

abbrev App : Type 0
App = AppState toy_platform (toy_net site []) toy_float toy_sled toy_reader toy_hex

abbrev waiting : Publication toy_platform (toy_net site []) toy_float toy_sled toy_reader toy_hex
waiting = record {
  card = toy_card 3;
  address = toy_address;
  value = signed_card_coding.write (toy_card 3) [];
  trust_weight = none;
}

-- What a request that is let through counts.
abbrev asked : App → App
asked app = record app { metrics = inc_sig_ok (inc_put_total (inc_http_requests app.metrics)) }

toy_asked :
    (app : App)
    → app.rate_limiter ≡ new_limiter
    → publish_request toy_platform
        (toy_net site [])
        toy_float
        toy_sled
        toy_reader
        toy_hex
        toy_env
        request
        app
      ≡ (asked app, ok waiting)
unfolding publish_request verified_publish admitted_or_refused admit check_domain check_endpoint
    check_label check_limit limit_response decode_card parse_status verify_card compute_address
    canonical_encode harden_label validate_endpoint check check_count check_cooldown new_limiter
    lookup trim is_control is_whitespace
toy_asked app h = rw h refl

abbrev reply_to : App → App
reply_to app =
    (publish_reply toy_platform (toy_net site []) toy_float toy_sled toy_reader toy_hex toy_env
      waiting app).0

publish_request_iff_example :
    ((publish_request toy_platform
        (toy_net site [])
        toy_float
        toy_sled
        toy_reader
        toy_hex
        toy_env
        request
        toy_app).1
      ≡ ok waiting)
    ↔ IsAdmitted toy_platform
        (toy_net site [])
        toy_float
        toy_sled
        toy_reader
        toy_hex
        toy_env
        new_limiter
        request
        waiting
publish_request_iff_example =
    publish_request_iff toy_platform (toy_net site []) toy_float toy_sled toy_reader toy_hex
      (λ secs. refl) toy_env request toy_app waiting refl refl

handle_get-publish_request_example :
    IsFound toy_platform toy_float toy_sled
      (handle_put toy_platform toy_float toy_sled unlocked answers toy_address
        (signed_card_coding.write (toy_card 3) [])
        7
        idle)
      (handle_get toy_platform toy_float toy_sled unlocked answers toy_address 8 (
        handle_put toy_platform toy_float toy_sled unlocked answers toy_address
          (signed_card_coding.write (toy_card 3) [])
          7
          idle))
      8
      toy_address
      3
unfolding run_event_loop with_persistence load_from_disk new_store lookup
handle_get-publish_request_example =
    handle_get-publish_request toy_platform (toy_net site []) toy_float toy_sled toy_reader toy_hex
      toy_env request toy_app waiting 10 none idle [] unlocked unlocked answers answers 7 8 []
      (ap (λ w. w.1) (toy_asked toy_app refl)) refl refl refl
