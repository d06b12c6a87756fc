-- ===== src/Examples/Running.antt =====
-- Witnesses of the theorems on the running node: its counters, its event loop, its HTTP interface.
use p2s.Prelude.{
  ◌+◌, ◌≤◌, ◌≡◌, refl, true, none, some, List, [], ◌∷◌, arith, if◌then◌else◌, nat_eq, list_beq,
  list_eq, ok, err, lookup, insert, erase, codes,
}
use p2s.Card.{verify_card, verify_address, compute_address}
use p2s.Proto.{canonical_decode}
use p2s.Verifier.Manifest.{ManifestReader}
use p2s.Node.RecordStore.{
  new_store, with_persistence, load_from_disk, put, supersede, write, validate_and_extract_seq,
}
use p2s.Node.RecordStore.Validity.{run, step}
use p2s.Node.Metrics.{new_metrics}
use p2s.Node.Metrics.Buckets.{nth, record_puts, record_puts_lem}
use p2s.Node.EventLoop.{
  Node, Locks, Answers, put_ok, SwarmCommand, put_record, put_succeeded, kademlia, Turn,
  swarm_event, command, handle_command, handle_kad_event, run_event_loop, turn, handle_put,
  after_put, reply_to_put, count_record, handle_swarm_event, answer, send, await_query,
}
use p2s.Node.EventLoop.Accounted.{replies_accounted}
use p2s.Node.EventLoop.Replies.{waiting, sent_to, sent_once}
use p2s.Node.EventLoop.Answered.{CommandOutcome, handle_command-CommandOutcome}
use p2s.Node.TrustWeight.{new_weights}
use p2s.Node.RateLimit.{new_limiter}
use p2s.Node.Request.{Env, PublishCardRequest, HexReader}
use p2s.Node.HttpApi.{AppState}
use p2s.Examples.Toy.{toy_platform, toy_net, toy_float, toy_sled, fit, signed_card_coding}
use p2s.Examples.Data.{site, toy_card, toy_address, toy_disk_record}

record_puts_lem_example :
    nth 0 1 (record_puts (3000 ∷ 4 ∷ 1000 ∷ []) new_metrics).put_latency_buckets ≡ 2
record_puts_lem_example = record_puts_lem 1 (3000 ∷ 4 ∷ 1000 ∷ []) (omega arith) (omega arith)

abbrev pub unlocked : Locks
unlocked = record {
  pending_queries = true;
  stored_records = true;
  listen_addrs = true;
  connected_peers = true;
}

-- A node that has started without a database.
abbrev pub idle : Node toy_platform toy_float toy_sled
idle = record {
  store = with_persistence toy_platform toy_float toy_sled 10 none;
  listen_addrs = [];
  connected_peers = 0;
  stored_records = 0;
  pending = [];
  metrics = new_metrics;
  sent = [];
}

abbrev pub answers : Answers toy_platform toy_float toy_sled
answers = record { put_calls = []; put_answer = ok 40; get_calls = []; get_answer = 41 }

abbrev toy_put : SwarmCommand
toy_put = put_record toy_address (signed_card_coding.write (toy_card 1) []) 7

abbrev toy_turns : List (Locks × Turn toy_platform toy_float toy_sled)
toy_turns =
    (unlocked, command answers toy_put)
    ∷ (unlocked, swarm_event (kademlia (put_succeeded 40)))
    ∷ (unlocked, swarm_event (kademlia (put_succeeded 40)))
    ∷ []

sent_once_example :
    sent_to 7 (run_event_loop toy_platform toy_float toy_sled toy_turns idle).sent ≤ 1
sent_once_example =
    sent_once toy_platform toy_float toy_sled 7 toy_turns idle refl refl (omega arith)

handle_command-CommandOutcome_example :
    CommandOutcome toy_platform toy_float toy_sled 7
      (some 40)
      idle
      (handle_command toy_platform toy_float toy_sled unlocked answers toy_put idle)
handle_command-CommandOutcome_example =
    handle_command-CommandOutcome toy_platform toy_float toy_sled unlocked answers toy_put idle refl

nothing_filed : lookup 40 idle.pending ≡ none
unfolding lookup
nothing_filed = refl

replies_accounted_example :
    let after = run_event_loop toy_platform toy_float toy_sled toy_turns idle in
    waiting 7 after.pending + sent_to 7 after.sent ≡ 1
replies_accounted_example =
    replies_accounted toy_platform toy_float toy_sled 7 toy_turns idle tt
      (refl, nothing_filed, (refl, tt, (refl, tt, tt)))

toy_loop_stored :
    lookup toy_address (run_event_loop toy_platform toy_float toy_sled toy_turns idle).store.records
    ≡ some (toy_disk_record 1)
unfolding run_event_loop turn handle_command handle_put after_put reply_to_put count_record
    handle_swarm_event handle_kad_event answer send await_query run step put supersede write
    with_persistence load_from_disk new_store validate_and_extract_seq canonical_decode verify_card
    verify_address compute_address lookup insert erase
toy_loop_stored = refl

abbrev pub toy_reader : ManifestReader
toy_reader bytes = err (codes "not JSON")

-- A hexadecimal decoder that reads three texts.
abbrev pub toy_hex : HexReader
toy_hex text =
    if list_beq text (codes "07")
    then ok (fit 32 (7 ∷ []))
    else if list_beq text (codes "aa")
    then ok (toy_card 3).sig
    else ok (fit 32 site)

abbrev pub request : PublishCardRequest
request = record {
  card = record {
    pubkey = codes "07";
    seq = 3;
    status = codes "active";
    endpoint = codes "https://a.example/m";
    manifest_hash = codes "bb";
    domain = codes "a.example";
    label = some (codes " Weather ");
  };
  sig = codes "aa";
  challenge_nonce = none;
}

abbrev pub toy_env : Env
toy_env = record {
  task_ends = true;
  limiter_locks = true;
  checked_at = 5;
  is_sent = true;
  reply = some put_ok;
  limiter_locks_after = true;
  weights_lock = true;
  published_at = 6;
  elapsed_us = 3000;
}

abbrev pub toy_app : AppState toy_platform (toy_net site []) toy_float toy_sled toy_reader toy_hex
toy_app = record {
  metrics = new_metrics;
  rate_limiter = new_limiter;
  trust_weights = new_weights toy_float toy_sled;
}
