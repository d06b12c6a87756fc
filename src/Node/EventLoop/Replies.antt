-- ===== src/Node/EventLoop/Replies.antt =====
-- The replies of the event loop: how many there are on one channel.
use p2s.Prelude.{
  ℕ, ◌+◌, ◌≤◌, ◌≡◌, refl, inl, inr, Option, none, some, List, [], ◌∷◌, arith, ◌==◌, if◌then◌else◌,
  Bool-cases, Option-cases, nat_eq, list_eq, Result, ok, err, HashMap, lookup, insert, erase, Text,
}
use p2s.Platform.{Platform}
use p2s.Float.{Float}
use p2s.Node.Sled.{Sled}
use p2s.Node.RecordStore.{KadRecord, KadStoreError, CardRecordStore}
use p2s.Node.RecordStore.Validity.{run}
use p2s.Node.EventLoop.{
  Node, Locks, Answers, QueryId, Reply, QueryResult, SwarmCommand, SwarmEvent, KadEvent, Turn,
  put_record, get_record, get_found, get_finished, get_failed, put_succeeded, put_failed, other_kad,
  kademlia, identify_received, new_listen_addr, connection_established, connection_closed,
  other_event, swarm_event, command, store_calls, send, answer, handle_kad_event,
  handle_swarm_event, await_query, count_record, handle_put, handle_get, after_put, after_get,
  reply_to_put, handle_command, turn, run_event_loop,
}

-- One if the two are the same.
abbrev pub same : Reply → Reply → ℕ
same reply other = if other == reply then 1 else 0

-- How many queries wait to answer on a channel.
abbrev pub waiting : Reply → HashMap QueryId Reply → ℕ
waiting reply [] = 0
waiting reply ((id, other) ∷ pending) = same reply other + waiting reply pending

-- How many answers were sent on a channel.
abbrev pub sent_to : Reply → List (Reply × QueryResult) → ℕ
sent_to reply [] = 0
sent_to reply ((other, result) ∷ sent) = same reply other + sent_to reply sent

waiting-insert :
    (reply : Reply) (id : QueryId) (other : Reply) (pending : HashMap QueryId Reply)
    → waiting reply (insert id other pending) ≤ waiting reply pending + same reply other
unfolding insert
waiting-insert reply id other [] = ground arith
waiting-insert reply id other ((j, r) ∷ pending) =
    ground (arith, waiting-insert reply id other pending)

waiting-erase :
    (reply : Reply) (id : QueryId) (pending : HashMap QueryId Reply)
    → waiting reply (erase id pending) ≤ waiting reply pending
unfolding erase
waiting-erase reply id [] = omega arith
waiting-erase reply id ((j, r) ∷ pending) = ground (arith, waiting-erase reply id pending)

waiting-erase_found :
    (reply : Reply) (id : QueryId) (other : Reply) (pending : HashMap QueryId Reply)
    → lookup id pending ≡ some other
    → waiting reply (erase id pending) + same reply other ≤ waiting reply pending
unfolding erase lookup
waiting-erase_found reply id other [] h = absurd (ground arith)
waiting-erase_found reply id other ((j, r) ∷ pending) h =
    ground (arith, waiting-erase reply id pending, waiting-erase_found reply id other pending)

module _ (p : Platform) (fl : Float) (sled : Sled) where
  -- The answers on a channel that were sent or are due.
  abbrev pub held : Reply → Node p fl sled → ℕ
  held reply n = waiting reply n.pending + sent_to reply n.sent

  -- How many commands bring a channel.
  abbrev pub brings : Reply → SwarmCommand → ℕ
  brings reply (put_record key value other) = same reply other
  brings reply (get_record key other) = same reply other

  abbrev pub turn_brings : Reply → Turn p fl sled → ℕ
  turn_brings reply (swarm_event e) = 0
  turn_brings reply (command answers c) = brings reply c
  turn_brings reply (store_calls calls) = 0

  abbrev pub brought : Reply → List (Locks × Turn p fl sled) → ℕ
  brought reply [] = 0
  brought reply ((locks, t) ∷ turns) = turn_brings reply t + brought reply turns

  held-answer :
      (reply : Reply) (locks : Locks) (id : QueryId) (result : QueryResult) (n : Node p fl sled)
      → held reply (answer p fl sled locks id result n) ≤ held reply n
  unfolding answer send
  held-answer reply locks id result n = elim (Bool-cases locks.pending_queries) [
    | inr e ↦ rw e (omega arith)
    | inl e ↦ elim (Option-cases (lookup id n.pending)) [
      | inl f ↦ rw (e, f) (omega arith)
      | inr (other, f) ↦ rw (e, f) (ground (arith, waiting-erase_found reply id other n.pending f))
    ]
  ]

  held-kad :
      (reply : Reply) (locks : Locks) (e : KadEvent) (n : Node p fl sled)
      → held reply (handle_kad_event p fl sled locks e n) ≤ held reply n
  unfolding handle_kad_event
  held-kad reply locks (get_found id value) n = held-answer reply locks id _ n
  held-kad reply locks (get_finished id) n = held-answer reply locks id _ n
  held-kad reply locks (get_failed id) n = held-answer reply locks id _ n
  held-kad reply locks (put_succeeded id) n = held-answer reply locks id _ n
  held-kad reply locks (put_failed id) n = held-answer reply locks id _ n
  held-kad reply locks other_kad n = omega arith

  held-swarm :
      (reply : Reply) (locks : Locks) (e : SwarmEvent) (n : Node p fl sled)
      → held reply (handle_swarm_event p fl sled locks e n) ≤ held reply n
  unfolding handle_swarm_event
  held-swarm reply locks (kademlia e) n = held-kad reply locks e n
  held-swarm reply locks (identify_received c) n = omega arith
  held-swarm reply locks (new_listen_addr a) n = ground arith
  held-swarm reply locks (connection_established c) n = omega arith
  held-swarm reply locks (connection_closed c) n = omega arith
  held-swarm reply locks other_event n = omega arith

  held-await_query :
      (reply : Reply) (locks : Locks) (id : QueryId) (other : Reply) (n : Node p fl sled)
      → held reply (await_query p fl sled locks id other n) ≤ held reply n + same reply other
  unfolding await_query
  held-await_query reply locks id other n = elim (Bool-cases locks.pending_queries) [
    | inl e ↦ rw e (omega (arith, waiting-insert reply id other n.pending))
    | inr e ↦ rw e (omega arith)
  ]

  pub held-count_record :
      (reply : Reply) (locks : Locks) (n : Node p fl sled)
      → held reply (count_record p fl sled locks n) ≡ held reply n
  unfolding count_record
  held-count_record reply locks n = elim (Bool-cases locks.stored_records) [
    | inl e ↦ rw e refl
    | inr e ↦ rw e refl
  ]

  held-reply_to_put :
      (reply : Reply) (locks : Locks) (other : Reply) (n : Node p fl sled) (r : Result Text QueryId)
      → held reply (reply_to_put p fl sled locks other n r) ≤ held reply n + same reply other
  unfolding reply_to_put send
  held-reply_to_put reply locks other n (ok id) = held-await_query reply locks id other n
  held-reply_to_put reply locks other n (err e) = omega arith

  held-after_put :
      (reply : Reply) (locks : Locks) (answers : Answers p fl sled) (other : Reply)
      (n : Node p fl sled) (store : CardRecordStore p fl sled) (r : Result KadStoreError (Unit {0}))
      → held reply (after_put p fl sled locks answers other n store r)
        ≤ held reply n + same reply other
  unfolding after_put send
  held-after_put reply locks answers other n store (ok t) =
      let taken : Node p fl sled = record n { store = run p fl sled store answers.put_calls } in
      omega (
        arith,
        held-reply_to_put reply locks other (count_record p fl sled locks taken) answers.put_answer,
        held-count_record reply locks taken,
      )
  held-after_put reply locks answers other n store (err e) = omega arith

  held-after_get :
      (reply : Reply) (locks : Locks) (answers : Answers p fl sled) (other : Reply)
      (n : Node p fl sled) (o : Option KadRecord)
      → held reply (after_get p fl sled locks answers other n o) ≤ held reply n + same reply other
  unfolding after_get send
  held-after_get reply locks answers other n (some r) = omega arith
  held-after_get reply locks answers other n none =
      let asked : Node p fl sled = record n { store = run p fl sled n.store answers.get_calls } in
      held-await_query reply locks answers.get_answer other asked

  held-turn :
      (reply : Reply) (locks : Locks) (t : Turn p fl sled) (n : Node p fl sled)
      → held reply (turn p fl sled locks t n) ≤ held reply n + turn_brings reply t
  unfolding turn handle_command handle_put handle_get
  held-turn reply locks (swarm_event e) n = omega (arith, held-swarm reply locks e n)
  held-turn reply locks (store_calls calls) n = omega arith
  held-turn reply locks (command answers (put_record key value other)) n =
      held-after_put reply locks answers other n _ _
  held-turn reply locks (command answers (get_record key other)) n =
      held-after_get reply locks answers other n _

  pub held-run :
      (reply : Reply) (turns : List (Locks × Turn p fl sled)) (n : Node p fl sled)
      → held reply (run_event_loop p fl sled turns n) ≤ held reply n + brought reply turns
  unfolding run_event_loop
  held-run reply [] n = omega arith
  held-run reply ((locks, t) ∷ turns) n =
      omega (arith, held-turn reply locks t n, held-run reply turns (turn p fl sled locks t n))

  -- Whatever happens on the swarm and whichever locks fail: on a channel that one command brings at
  -- most, and that nothing waits on or was sent on before, one reply is sent at most.
  pub sent_once :
      (reply : Reply) (turns : List (Locks × Turn p fl sled)) (n : Node p fl sled)
      → waiting reply n.pending ≡ 0
      → sent_to reply n.sent ≡ 0
      → brought reply turns ≤ 1
      → sent_to reply (run_event_loop p fl sled turns n).sent ≤ 1
  sent_once reply turns n w s b = omega (arith, held-run reply turns n)
