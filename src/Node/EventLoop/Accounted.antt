-- ===== src/Node/EventLoop/Accounted.antt =====
-- No reply of the event loop is lost while its lock can be taken (event_loop.rs).
use p2s.Prelude.{
  ℕ, ◌+◌, ◌≤◌, ◌≡◌, refl, inl, inr, true, Option, none, some, List, [], ◌∷◌, arith, Bool-cases,
  Option-cases, nat_eq, list_eq, Result, ok, err, HashMap, lookup, insert, erase, Text,
  HasDistinctKeys, insert-HasDistinctKeys, erase-HasDistinctKeys,
}
use p2s.Platform.{Platform}
use p2s.Float.{Float}
use p2s.Node.Sled.{Sled}
use p2s.Node.RecordStore.{KadRecord, KadStoreError, CardRecordStore, disk_record, get, put}
use p2s.Node.RecordStore.Validity.{run}
use p2s.Node.EventLoop.{
  Node, Locks, Answers, QueryId, Reply, QueryResult, SwarmEvent, KadEvent, Turn, put_record,
  get_record, get_found, get_finished, get_failed, put_succeeded, put_failed, other_kad, kademlia,
  identify_received, new_listen_addr, connection_established, connection_closed, other_event,
  swarm_event, command, store_calls, send, answer, handle_kad_event, handle_swarm_event,
  await_query, count_record, handle_put, handle_get, after_put, after_get, reply_to_put,
  handle_command, turn, run_event_loop,
}
use p2s.Node.EventLoop.Replies.{same, waiting, sent_to, held, held-run, turn_brings, brought}

waiting-insert_new :
    (reply : Reply) (id : QueryId) (other : Reply) (pending : HashMap QueryId Reply)
    → lookup id pending ≡ none
    → waiting reply pending + same reply other ≤ waiting reply (insert id other pending)
unfolding insert lookup
waiting-insert_new reply id other [] h = ground arith
waiting-insert_new reply id other ((j, r) ∷ pending) h =
    ground (arith, h, waiting-insert_new reply id other pending)

waiting-erase_absent :
    (reply : Reply) (id : QueryId) (pending : HashMap QueryId Reply)
    → lookup id pending ≡ none
    → waiting reply (erase id pending) ≡ waiting reply pending
unfolding erase lookup
waiting-erase_absent reply id [] h = refl
waiting-erase_absent reply id ((j, r) ∷ pending) h =
    ground (arith, h, waiting-erase_absent reply id pending)

waiting-erase_once :
    (reply : Reply) (id : QueryId) (other : Reply) (pending : HashMap QueryId Reply)
    → HasDistinctKeys pending
    → lookup id pending ≡ some other
    → waiting reply pending ≤ waiting reply (erase id pending) + same reply other
unfolding erase lookup
waiting-erase_once reply id other [] d h = absurd (ground arith)
waiting-erase_once reply id other ((j, r) ∷ pending) d h =
    ground (
      arith,
      h,
      d,
      waiting-erase_absent reply id pending,
      waiting-erase_once reply id other pending,
    )

-- The query that Kademlia starts is not among the pending ones.
abbrev pub IsFree : Result Text QueryId → HashMap QueryId Reply → Type 0
IsFree (ok id) pending = lookup id pending ≡ none
IsFree (err e) pending = Unit {0}

module _ (p : Platform) (fl : Float) (sled : Sled) where
  abbrev pub StartsNew : Turn p fl sled → Node p fl sled → Type 0
  StartsNew (swarm_event e) n = Unit {0}
  StartsNew (command answers (put_record key value reply)) n = IsFree answers.put_answer n.pending
  StartsNew (command answers (get_record key reply)) n = IsFree (ok answers.get_answer) n.pending
  StartsNew (store_calls calls) n = Unit {0}

  -- In every turn the lock on the pending queries can be taken, and a query that starts is new.
  abbrev pub AllNew : List (Locks × Turn p fl sled) → Node p fl sled → Type 0
  AllNew [] n = Unit {0}
  AllNew ((locks, t) ∷ turns) n =
      (locks.pending_queries ≡ true) × StartsNew t n × AllNew turns (turn p fl sled locks t n)

  -- Nothing is lost from `n` to `after`, which has `more` replies to give.
  record Keeps (reply : Reply) (n after : Node p fl sled) (more : ℕ) : Type 0 where
    kept : held p fl sled reply n + more ≤ held p fl sled reply after
    distinct : HasDistinctKeys after.pending

  answer-Keeps :
      (reply : Reply) (locks : Locks) (id : QueryId) (result : QueryResult) (n : Node p fl sled)
      → HasDistinctKeys n.pending
      → Keeps reply n (answer p fl sled locks id result n) 0
  unfolding answer send
  answer-Keeps reply locks id result n d = elim (Bool-cases locks.pending_queries) [
    | inr e ↦ rw e (record { kept = omega arith; distinct = d })
    | inl e ↦ elim (Option-cases (lookup id n.pending)) [
      | inl f ↦ rw (e, f) (record { kept = omega arith; distinct = d })
      | inr (other, f) ↦
          rw (e, f)
            (record {
              kept = ground (arith, waiting-erase_once reply id other n.pending d f);
              distinct = erase-HasDistinctKeys id n.pending d;
            })
    ]
  ]

  kad-Keeps :
      (reply : Reply) (locks : Locks) (e : KadEvent) (n : Node p fl sled)
      → HasDistinctKeys n.pending
      → Keeps reply n (handle_kad_event p fl sled locks e n) 0
  unfolding handle_kad_event
  kad-Keeps reply locks (get_found id value) n d = answer-Keeps reply locks id _ n d
  kad-Keeps reply locks (get_finished id) n d = answer-Keeps reply locks id _ n d
  kad-Keeps reply locks (get_failed id) n d = answer-Keeps reply locks id _ n d
  kad-Keeps reply locks (put_succeeded id) n d = answer-Keeps reply locks id _ n d
  kad-Keeps reply locks (put_failed id) n d = answer-Keeps reply locks id _ n d
  kad-Keeps reply locks other_kad n d = record { kept = omega arith; distinct = d }

  swarm-Keeps :
      (reply : Reply) (locks : Locks) (e : SwarmEvent) (n : Node p fl sled)
      → HasDistinctKeys n.pending
      → Keeps reply n (handle_swarm_event p fl sled locks e n) 0
  unfolding handle_swarm_event
  swarm-Keeps reply locks (kademlia e) n d = kad-Keeps reply locks e n d
  swarm-Keeps reply locks (identify_received c) n d = record { kept = omega arith; distinct = d }
  swarm-Keeps reply locks (new_listen_addr a) n d = elim (Bool-cases locks.listen_addrs) [
    | inl e ↦ rw e (record { kept = omega arith; distinct = d })
    | inr e ↦ rw e (record { kept = omega arith; distinct = d })
  ]
  swarm-Keeps reply locks (connection_established c) n d = record {
    kept = omega arith;
    distinct = d;
  }
  swarm-Keeps reply locks (connection_closed c) n d = record { kept = omega arith; distinct = d }
  swarm-Keeps reply locks other_event n d = record { kept = omega arith; distinct = d }

  await_query-Keeps :
      (reply : Reply) (locks : Locks) (id : QueryId) (other : Reply) (n : Node p fl sled)
      → locks.pending_queries ≡ true
      → lookup id n.pending ≡ none
      → HasDistinctKeys n.pending
      → Keeps reply n (await_query p fl sled locks id other n) (same reply other)
  unfolding await_query
  await_query-Keeps reply locks id other n l f d = rw l (record {
    kept = omega (arith, waiting-insert_new reply id other n.pending f);
    distinct = insert-HasDistinctKeys id other n.pending d;
  })

  reply_to_put-Keeps :
      (reply : Reply) (locks : Locks) (other : Reply) (n : Node p fl sled) (r : Result Text QueryId)
      → locks.pending_queries ≡ true
      → IsFree r n.pending
      → HasDistinctKeys n.pending
      → Keeps reply n (reply_to_put p fl sled locks other n r) (same reply other)
  unfolding reply_to_put send
  reply_to_put-Keeps reply locks other n (ok id) l f d =
      await_query-Keeps reply locks id other n l f d
  reply_to_put-Keeps reply locks other n (err e) l f d = record { kept = omega arith; distinct = d }

  after_put-Keeps :
      (reply : Reply) (locks : Locks) (answers : Answers p fl sled) (other : Reply)
      (n : Node p fl sled) (store : CardRecordStore p fl sled) (r : Result KadStoreError (Unit {0}))
      → locks.pending_queries ≡ true
      → IsFree answers.put_answer n.pending
      → HasDistinctKeys n.pending
      → Keeps reply n (after_put p fl sled locks answers other n store r) (same reply other)
  unfolding after_put send count_record
  after_put-Keeps reply locks answers other n store (ok t) l f d =
      let taken : Node p fl sled = record n { store = run p fl sled store answers.put_calls } in
      elim (Bool-cases locks.stored_records) [
        | inl e ↦
            rw (e, after_put)
              (moved reply n _ _ _ refl
                (reply_to_put-Keeps reply locks other _ answers.put_answer l f d))
        | inr e ↦
            rw (e, after_put)
              (moved reply n _ _ _ refl
                (reply_to_put-Keeps reply locks other _ answers.put_answer l f d))
      ]
    where
      moved :
          (reply : Reply) (n m after : Node p fl sled) (more : ℕ)
          → held p fl sled reply n ≡ held p fl sled reply m
          → Keeps reply m after more
          → Keeps reply n after more
      moved reply n m after more e k = record {
        kept = omega (arith, e, k.kept);
        distinct = k.distinct;
      }
  after_put-Keeps reply locks answers other n store (err e) l f d = record {
    kept = omega arith;
    distinct = d;
  }

  after_get-Keeps :
      (reply : Reply) (locks : Locks) (answers : Answers p fl sled) (other : Reply)
      (n : Node p fl sled) (o : Option KadRecord)
      → locks.pending_queries ≡ true
      → IsFree (ok answers.get_answer) n.pending
      → HasDistinctKeys n.pending
      → Keeps reply n (after_get p fl sled locks answers other n o) (same reply other)
  unfolding after_get send
  after_get-Keeps reply locks answers other n (some r) l f d = record {
    kept = omega arith;
    distinct = d;
  }
  after_get-Keeps reply locks answers other n none l f d =
      let asked : Node p fl sled = record n { store = run p fl sled n.store answers.get_calls } in
      let k = await_query-Keeps reply locks answers.get_answer other asked l f d in
      record { kept = k.kept; distinct = k.distinct }

  turn-Keeps :
      (reply : Reply) (locks : Locks) (t : Turn p fl sled) (n : Node p fl sled)
      → locks.pending_queries ≡ true
      → StartsNew t n
      → HasDistinctKeys n.pending
      → Keeps reply n (turn p fl sled locks t n) (turn_brings p fl sled reply t)
  unfolding turn handle_command handle_put handle_get after_get send
  turn-Keeps reply locks (swarm_event e) n l f d = swarm-Keeps reply locks e n d
  turn-Keeps reply locks (store_calls calls) n l f d = record { kept = omega arith; distinct = d }
  turn-Keeps reply locks (command answers (put_record key value other)) n l f d =
      after_put-Keeps reply locks answers other n (put p fl sled n.store (disk_record key value)).0
        (put p fl sled n.store (disk_record key value)).1 l f d
  turn-Keeps reply locks (command answers (get_record key other)) n l f d =
      after_get-Keeps reply locks answers other n (get p fl sled n.store key) l f d

  held-run_kept :
      (reply : Reply) (turns : List (Locks × Turn p fl sled)) (n : Node p fl sled)
      → AllNew turns n
      → HasDistinctKeys n.pending
      → held p fl sled reply n + brought p fl sled reply turns
        ≤ held p fl sled reply (run_event_loop p fl sled turns n)
  unfolding run_event_loop
  held-run_kept reply [] n a d = omega arith
  held-run_kept reply ((locks, t) ∷ turns) n a d =
      let k = turn-Keeps reply locks t n a.0 a.1 d in
      let rest = held-run_kept reply turns (turn p fl sled locks t n) a.2 k.distinct in
      omega (arith, k.kept, rest)

  -- While the lock on the pending queries can be taken and every query that Kademlia starts is new
  -- among the pending ones: after any turns, the replies that were sent on a channel and the queries
  -- that still wait to answer on it are together exactly as many as before, and one more for each
  -- command that brought it.
  pub replies_accounted :
      (reply : Reply) (turns : List (Locks × Turn p fl sled)) (n : Node p fl sled)
      → HasDistinctKeys n.pending
      → AllNew turns n
      → let after = run_event_loop p fl sled turns n in
        waiting reply after.pending + sent_to reply after.sent
        ≡ waiting reply n.pending + sent_to reply n.sent + brought p fl sled reply turns
  replies_accounted reply turns n d a =
      omega (arith, held-run p fl sled reply turns n, held-run_kept reply turns n a d)
