-- ===== src/Node/EventLoop/Stored.antt =====
-- What the event loop does to the store is a run of the store's calls, so that its invariant holds.
use mathlib.Core.Path.{subst}
use p2s.Prelude.{
  ℕ, ◌≡◌, refl, sym, ap, ◌∙◌, inl, inr, Option, none, some, List, [], ◌∷◌, ◌++◌, arith, Bool-cases,
  Option-cases, nat_eq, list_eq, Result, ok, err, lookup, Text,
}
use p2s.Platform.{Platform}
use p2s.Float.{Float}
use p2s.Node.Sled.{Sled, Database}
use p2s.Node.RecordStore.{
  RecordKey, KadRecord, KadStoreError, CardRecordStore, disk_record, put, with_persistence,
}
use p2s.Node.RecordStore.Validity.{Call, puts, step, run, IsCardAt, run-with_persistence}
use p2s.Node.EventLoop.{
  Node, Locks, Answers, QueryId, Reply, QueryResult, SwarmEvent, KadEvent, Turn, put_record,
  get_record, get_found, get_finished, get_failed, put_succeeded, put_failed, other_kad, kademlia,
  identify_received, new_listen_addr, connection_established, connection_closed, other_event,
  swarm_event, command, store_calls, send, answer, handle_kad_event, handle_swarm_event,
  await_query, count_record, handle_put, handle_get, handle_command, after_put, after_get,
  reply_to_put, turn, run_event_loop,
}

module _ (p : Platform) (fl : Float) (sled : Sled) where
  -- A run of calls leads from one store to the other.
  abbrev pub Reaches : CardRecordStore p fl sled → CardRecordStore p fl sled → Type 0
  Reaches s t = (calls : List (Call p fl sled)) × (t ≡ run p fl sled s calls)

  pub run-append :
      (s : CardRecordStore p fl sled) (a b : List (Call p fl sled))
      → run p fl sled (run p fl sled s a) b ≡ run p fl sled s (a ++ b)
  unfolding run
  run-append s [] b = refl
  run-append s (c ∷ a) b = run-append (step p fl sled s c) a b

  Reaches-trans : (s t u : CardRecordStore p fl sled) → Reaches s t → Reaches t u → Reaches s u
  Reaches-trans s t u (a, e) (b, f) =
      (a ++ b, f ∙ (ap (λ x. run p fl sled x b) e ∙ run-append s a b))

  same_store : (s t : CardRecordStore p fl sled) → t ≡ s → Reaches s t
  unfolding run
  same_store s t e = ([], e)

  answer-store :
      (locks : Locks) (id : QueryId) (result : QueryResult) (n : Node p fl sled)
      → (answer p fl sled locks id result n).store ≡ n.store
  unfolding answer send
  answer-store locks id result n = elim (Bool-cases locks.pending_queries) [
    | inr e ↦ rw e refl
    | inl e ↦ elim (Option-cases (lookup id n.pending)) [
      | inl f ↦ rw (e, f) refl
      | inr (other, f) ↦ rw (e, f) refl
    ]
  ]

  kad-store :
      (locks : Locks) (e : KadEvent) (n : Node p fl sled)
      → (handle_kad_event p fl sled locks e n).store ≡ n.store
  unfolding handle_kad_event
  kad-store locks (get_found id value) n = answer-store locks id _ n
  kad-store locks (get_finished id) n = answer-store locks id _ n
  kad-store locks (get_failed id) n = answer-store locks id _ n
  kad-store locks (put_succeeded id) n = answer-store locks id _ n
  kad-store locks (put_failed id) n = answer-store locks id _ n
  kad-store locks other_kad n = refl

  swarm-store :
      (locks : Locks) (e : SwarmEvent) (n : Node p fl sled)
      → (handle_swarm_event p fl sled locks e n).store ≡ n.store
  unfolding handle_swarm_event
  swarm-store locks (kademlia e) n = kad-store locks e n
  swarm-store locks (identify_received c) n = refl
  swarm-store locks (new_listen_addr a) n = ground arith
  swarm-store locks (connection_established c) n = refl
  swarm-store locks (connection_closed c) n = refl
  swarm-store locks other_event n = refl

  await_query-store :
      (locks : Locks) (id : QueryId) (reply : Reply) (n : Node p fl sled)
      → (await_query p fl sled locks id reply n).store ≡ n.store
  unfolding await_query
  await_query-store locks id reply n = ground arith

  pub count_record-store :
      (locks : Locks) (n : Node p fl sled) → (count_record p fl sled locks n).store ≡ n.store
  unfolding count_record
  count_record-store locks n = ground arith

  pub reply_to_put-store :
      (locks : Locks) (reply : Reply) (n : Node p fl sled) (r : Result Text QueryId)
      → (reply_to_put p fl sled locks reply n r).store ≡ n.store
  unfolding reply_to_put send
  reply_to_put-store locks reply n (ok id) = await_query-store locks id reply n
  reply_to_put-store locks reply n (err e) = refl

  after_put-store :
      (locks : Locks) (answers : Answers p fl sled) (reply : Reply) (n : Node p fl sled)
      (store : CardRecordStore p fl sled) (r : Result KadStoreError (Unit {0}))
      → Reaches store (after_put p fl sled locks answers reply n store r).store
  unfolding after_put send
  after_put-store locks answers reply n store (ok t) =
      let taken : Node p fl sled = record n { store = run p fl sled store answers.put_calls } in
      (
        answers.put_calls,
        reply_to_put-store locks reply (count_record p fl sled locks taken) answers.put_answer
            ∙ count_record-store locks taken,
      )
  after_put-store locks answers reply n store (err e) = same_store store store refl

  after_get-store :
      (locks : Locks) (answers : Answers p fl sled) (reply : Reply) (n : Node p fl sled)
      (o : Option KadRecord)
      → Reaches n.store (after_get p fl sled locks answers reply n o).store
  unfolding after_get send
  after_get-store locks answers reply n (some r) = same_store n.store n.store refl
  after_get-store locks answers reply n none =
      (answers.get_calls, await_query-store locks answers.get_answer reply _)

  one_put : (s : CardRecordStore p fl sled) (r : KadRecord) → Reaches s (put p fl sled s r).0
  unfolding run step
  one_put s r = (puts r ∷ [], refl)

  turn-store :
      (locks : Locks) (t : Turn p fl sled) (n : Node p fl sled)
      → Reaches n.store (turn p fl sled locks t n).store
  unfolding turn handle_command handle_put handle_get
  turn-store locks (swarm_event e) n = same_store n.store _ (swarm-store locks e n)
  turn-store locks (store_calls calls) n = (calls, refl)
  turn-store locks (command answers (put_record key value reply)) n =
      Reaches-trans n.store (put p fl sled n.store (disk_record key value)).0 _
        (one_put n.store (disk_record key value))
        (after_put-store locks answers reply n (put p fl sled n.store (disk_record key value)).0
          (put p fl sled n.store (disk_record key value)).1)
  turn-store locks (command answers (get_record key reply)) n =
      after_get-store locks answers reply n _

  pub run_event_loop-store :
      (turns : List (Locks × Turn p fl sled)) (n : Node p fl sled)
      → Reaches n.store (run_event_loop p fl sled turns n).store
  unfolding run_event_loop
  run_event_loop-store [] n = same_store n.store n.store refl
  run_event_loop-store ((locks, t) ∷ turns) n =
      Reaches-trans n.store (turn p fl sled locks t n).store _ (turn-store locks t n)
        (run_event_loop-store turns (turn p fl sled locks t n))

  -- However long the loop of a node runs that has started from a database, and whatever peers, clients
  -- and failing locks do: a record in its store is an authentic card under the address of its key.
  pub run_event_loop-IsCardAt :
      (max : ℕ) (db : Option (Database sled)) (n : Node p fl sled)
      (turns : List (Locks × Turn p fl sled)) (k : RecordKey) (r : KadRecord)
      → n.store ≡ with_persistence p fl sled max db
      → lookup k (run_event_loop p fl sled turns n).store.records ≡ some r
      → IsCardAt p fl sled (run_event_loop p fl sled turns n).store k r
  run_event_loop-IsCardAt max db n turns k r start h =
      let (calls, e) = run_event_loop-store turns n in
      let same = e ∙ ap (λ s. run p fl sled s calls) start in
      subst (λ s. IsCardAt p fl sled s k r) (sym same)
        (run-with_persistence p fl sled max db calls k r
          (ap (λ (s : CardRecordStore p fl sled). lookup k s.records) (sym same) ∙ h))
