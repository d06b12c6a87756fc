-- ===== src/Node/EventLoop/Answered.antt =====
-- No command is lost: it is answered at once or its query waits for an event, which answers it.
use p2s.Prelude.{
  ◌≡◌, refl, ap, ◌∙◌, inl, inr, true, Option, none, some, ◌∷◌, arith, ◌==◌, if◌then◌else◌,
  Bool-cases, nat_eq, list_eq, Result, ok, err, lookup, beq_refl, lookup-insert, lookup-erase, Text,
}
use p2s.Platform.{Platform}
use p2s.Float.{Float}
use p2s.Node.Sled.{Sled}
use p2s.Node.RecordStore.{KadRecord, KadStoreError, CardRecordStore, disk_record, put}
use p2s.Node.RecordStore.Validity.{run}
use p2s.Node.EventLoop.{
  Node, Locks, Answers, QueryId, Reply, QueryResult, SwarmCommand, KadEvent, put_ok, found,
  not_found, put_record, get_record, get_found, get_finished, get_failed, put_succeeded, put_failed,
  other_kad, send, answer, handle_kad_event, await_query, count_record, handle_put, handle_get,
  handle_command, after_put, after_get, reply_to_put,
}

-- The query that an event is about.
abbrev pub query_id : KadEvent → Option QueryId
query_id (get_found id value) = some id
query_id (get_finished id) = some id
query_id (get_failed id) = some id
query_id (put_succeeded id) = some id
query_id (put_failed id) = some id
query_id other_kad = none

abbrev ok_of : Result Text QueryId → Option QueryId
ok_of (ok id) = some id
ok_of (err e) = none

abbrev pub channel : SwarmCommand → Reply
channel (put_record key value reply) = reply
channel (get_record key reply) = reply

module _ (p : Platform) (fl : Float) (sled : Sled) where
  -- The query that Kademlia starts for a command that comes to it.
  abbrev pub started_for : Answers p fl sled → SwarmCommand → Option QueryId
  started_for answers (put_record key value reply) = ok_of answers.put_answer
  started_for answers (get_record key reply) = some answers.get_answer

  -- What a command has done for its requester, when `before` has become `after` and `query` is the
  -- query that Kademlia starts for it, if any.
  pub data CommandOutcome (reply : Reply) (query : Option QueryId) (before after : Node p fl sled)
      : Type 0 where
    replied :
        (result : QueryResult)
        → after.sent ≡ (reply, result) ∷ before.sent
        → after.pending ≡ before.pending
        → CommandOutcome reply query before after
    awaits :
        (id : QueryId)
        → after.sent ≡ before.sent
        → query ≡ some id
        → ((other : QueryId)
            → lookup other after.pending
              ≡ (if id == other then some reply else lookup other before.pending))
        → CommandOutcome reply query before after

  await_query-outcome :
      (locks : Locks) (id : QueryId) (reply : Reply) (before n : Node p fl sled)
      → locks.pending_queries ≡ true
      → n.sent ≡ before.sent
      → n.pending ≡ before.pending
      → CommandOutcome reply (some id) before (await_query p fl sled locks id reply n)
  unfolding await_query
  await_query-outcome locks id reply before n ok_lock s e = rw ok_lock (
      awaits id s refl (λ other.
        lookup-insert id other reply n.pending
        ∙ ap (λ m. if id == other then some reply else lookup other m) e))

  same_after_count :
      (locks : Locks) (n : Node p fl sled)
      → ((count_record p fl sled locks n).sent ≡ n.sent)
        × ((count_record p fl sled locks n).pending ≡ n.pending)
  unfolding count_record
  same_after_count locks n = elim (Bool-cases locks.stored_records) [
    | inl e ↦ rw e (refl, refl)
    | inr e ↦ rw e (refl, refl)
  ]

  reply_to_put-outcome :
      (locks : Locks) (reply : Reply) (before n : Node p fl sled) (r : Result Text QueryId)
      → locks.pending_queries ≡ true
      → n.sent ≡ before.sent
      → n.pending ≡ before.pending
      → CommandOutcome reply (ok_of r) before (reply_to_put p fl sled locks reply n r)
  unfolding reply_to_put send
  reply_to_put-outcome locks reply before n (ok id) l s e =
      await_query-outcome locks id reply before n l s e
  reply_to_put-outcome locks reply before n (err x) l s e =
      replied put_ok (ap (λ l. (reply, put_ok) ∷ l) s) e

  after_put-outcome :
      (locks : Locks) (answers : Answers p fl sled) (reply : Reply) (n : Node p fl sled)
      (store : CardRecordStore p fl sled) (r : Result KadStoreError (Unit {0}))
      → locks.pending_queries ≡ true
      → CommandOutcome reply
          (ok_of answers.put_answer)
          n
          (after_put p fl sled locks answers reply n store r)
  unfolding after_put send
  after_put-outcome locks answers reply n store (ok t) l =
      let taken : Node p fl sled = record n { store = run p fl sled store answers.put_calls } in
      let (s, e) = same_after_count locks taken in
      reply_to_put-outcome locks reply n (count_record p fl sled locks taken) answers.put_answer l s
        e
  after_put-outcome locks answers reply n store (err x) l = replied _ refl refl

  after_get-outcome :
      (locks : Locks) (answers : Answers p fl sled) (reply : Reply) (n : Node p fl sled)
      (o : Option KadRecord)
      → locks.pending_queries ≡ true
      → CommandOutcome reply
          (some answers.get_answer)
          n
          (after_get p fl sled locks answers reply n o)
  unfolding after_get send
  after_get-outcome locks answers reply n (some r) l = replied (found r.value) refl refl
  after_get-outcome locks answers reply n none l =
      let asked : Node p fl sled = record n { store = run p fl sled n.store answers.get_calls } in
      await_query-outcome locks answers.get_answer reply n asked l refl refl

  -- While the lock on the pending queries can be taken, every command has one of two outcomes: one
  -- reply is sent on its channel at once and no query is filed, or nothing is sent and its channel is
  -- filed under the query that Kademlia started for the command, the other queries left alone.
  pub handle_command-CommandOutcome :
      (locks : Locks) (answers : Answers p fl sled) (c : SwarmCommand) (n : Node p fl sled)
      → locks.pending_queries ≡ true
      → CommandOutcome
          (channel c)
          (started_for answers c)
          n
          (handle_command p fl sled locks answers c n)
  unfolding handle_command handle_put handle_get
  handle_command-CommandOutcome locks answers (put_record key value reply) n l =
      after_put-outcome locks answers reply n (put p fl sled n.store (disk_record key value)).0
        (put p fl sled n.store (disk_record key value)).1 l
  handle_command-CommandOutcome locks answers (get_record key reply) n l =
      after_get-outcome locks answers reply n _ l

  answer_lem :
      (locks : Locks) (id : QueryId) (result : QueryResult) (reply : Reply) (n : Node p fl sled)
      → locks.pending_queries ≡ true
      → lookup id n.pending ≡ some reply
      → let after = answer p fl sled locks id result n in
        (after.sent ≡ (reply, result) ∷ n.sent) × (lookup id after.pending ≡ none)
  unfolding answer send
  answer_lem locks id result reply n l h =
      rw (l, h) (refl, ground (arith, lookup-erase id id n.pending, beq_refl id))

  -- An event about a query that is filed, while the lock can be taken, sends one reply, on the query's
  -- channel, and removes the query, so that no later event answers it again.
  pub handle_kad_event-answers :
      (locks : Locks) (e : KadEvent) (id : QueryId) (reply : Reply) (n : Node p fl sled)
      → locks.pending_queries ≡ true
      → query_id e ≡ some id
      → lookup id n.pending ≡ some reply
      → let after = handle_kad_event p fl sled locks e n in
        (result : QueryResult) × (after.sent ≡ (reply, result) ∷ n.sent)
        × (lookup id after.pending ≡ none)
  unfolding handle_kad_event
  handle_kad_event-answers locks (get_found i v) id reply n l q h =
      let (s, g) = answer_lem locks id (found v) reply n l h in
      (found v, ground (arith, q, s), ground (arith, q, g))
  handle_kad_event-answers locks (get_finished i) id reply n l q h =
      let (s, g) = answer_lem locks id not_found reply n l h in
      (not_found, ground (arith, q, s), ground (arith, q, g))
  handle_kad_event-answers locks (get_failed i) id reply n l q h =
      let (s, g) = answer_lem locks id not_found reply n l h in
      (not_found, ground (arith, q, s), ground (arith, q, g))
  handle_kad_event-answers locks (put_succeeded i) id reply n l q h =
      let (s, g) = answer_lem locks id put_ok reply n l h in
      (put_ok, ground (arith, q, s), ground (arith, q, g))
  handle_kad_event-answers locks (put_failed i) id reply n l q h =
      let (s, g) = answer_lem locks id put_ok reply n l h in
      (put_ok, ground (arith, q, s), ground (arith, q, g))
  handle_kad_event-answers locks other_kad id reply n l q h = absurd (ground arith)
