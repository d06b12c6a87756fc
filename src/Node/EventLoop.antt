-- ===== src/Node/EventLoop.antt =====
-- node/src/event_loop.rs and node_state.rs: the loop that owns the swarm. An event or a command is
-- handled at a time; the replies that were sent are a list, the oneshot channel of a reply is a
-- number, and what libp2p's Kademlia does with a command is an argument of the handler.
pub mod Replies
pub mod Accounted
pub mod Answered
pub mod Stored
pub mod Found
use p2s.Prelude.{
  ℕ, ◌+◌, ◌-◌, ◌%◌, ◌^◌, Bool, Option, none, some, List, [], ◌∷◌, ◌++◌, if◌then◌else◌, nat_eq,
  list_eq, Result, ok, err, HashMap, lookup, insert, erase, Text, Bytes, codes,
}
use p2s.Platform.{Platform}
use p2s.Float.{Float}
use p2s.Node.Sled.{Sled}
use p2s.Node.RecordStore.{
  RecordKey, KadRecord, KadStoreError, CardRecordStore, disk_record, get, put,
}
use p2s.Node.RecordStore.Validity.{Call, run}
use p2s.Node.Metrics.{Metrics, set_peers, set_records}

abbrev pub QueryId : Type 0
QueryId = ℕ

-- `oneshot::Sender<QueryResult>`
abbrev pub Reply : Type 0
Reply = ℕ

pub data SwarmCommand : Type 0 where
  put_record : (key value : Bytes) (reply : Reply) → SwarmCommand
  get_record : (key : Bytes) (reply : Reply) → SwarmCommand

pub data QueryResult : Type 0 where
  put_ok : QueryResult
  found : Bytes → QueryResult
  not_found : QueryResult
  error : Text → QueryResult

-- The events of Kademlia that the loop looks at, by the query they belong to.
pub data KadEvent : Type 0 where
  get_found : QueryId → Bytes → KadEvent
  get_finished : QueryId → KadEvent
  get_failed : QueryId → KadEvent
  put_succeeded : QueryId → KadEvent
  put_failed : QueryId → KadEvent
  other_kad : KadEvent

-- The events of the swarm, with the number of peers connected where the handler asks for it.
pub data SwarmEvent : Type 0 where
  kademlia : KadEvent → SwarmEvent
  identify_received : (connected : ℕ) → SwarmEvent
  new_listen_addr : Text → SwarmEvent
  connection_established : (connected : ℕ) → SwarmEvent
  connection_closed : (connected : ℕ) → SwarmEvent
  other_event : SwarmEvent

-- Whether a lock can be taken; a lock that a panic has poisoned cannot.
pub record Locks : Type 0 where
  pub pending_queries : Bool
  pub stored_records : Bool
  pub listen_addrs : Bool
  pub connected_peers : Bool

-- What libp2p answers to a command: the calls that it makes of the store on the way, and the number of
-- the query that it starts.
pub record Answers (p : Platform) (fl : Float) (sled : Sled) : Type 0 where
  pub put_calls : List (Call p fl sled)
  pub put_answer : Result Text QueryId
  pub get_calls : List (Call p fl sled)
  pub get_answer : QueryId

-- `{e:?}`
abbrev store_error_debug : KadStoreError → Text
store_error_debug KadStoreError.max_records_reached = codes "MaxRecords"
store_error_debug KadStoreError.value_too_large = codes "ValueTooLarge"

module _ (p : Platform) (fl : Float) (sled : Sled) where
  -- The shared state, the store in the swarm's behaviour, and the replies sent, the last one first.
  pub record Node : Type 0 where
    pub store : CardRecordStore p fl sled
    pub listen_addrs : List Text
    pub connected_peers : ℕ
    pub stored_records : ℕ
    pub pending : HashMap QueryId Reply
    pub metrics : Metrics
    pub sent : List (Reply × QueryResult)

  unfoldable pub send : Reply → QueryResult → Node → Node
  send reply result n = record n { sent = (reply, result) ∷ n.sent }

  -- `pending.remove(&id)`, and the reply if there was an entry
  unfoldable pub answer : Locks → QueryId → QueryResult → Node → Node
  unfolding send
  answer locks id result n =
      if locks.pending_queries
      then (elim (lookup id n.pending) [
        | none ↦ n
        | some reply ↦ send reply result (record n { pending = erase id n.pending })
      ])
      else n

  unfoldable pub handle_kad_event : Locks → KadEvent → Node → Node
  unfolding answer
  handle_kad_event locks (get_found id value) n = answer locks id (found value) n
  handle_kad_event locks (get_finished id) n = answer locks id not_found n
  handle_kad_event locks (get_failed id) n = answer locks id not_found n
  handle_kad_event locks (put_succeeded id) n = answer locks id put_ok n
  handle_kad_event locks (put_failed id) n = answer locks id put_ok n
  handle_kad_event locks other_kad n = n

  unfoldable pub handle_swarm_event : Locks → SwarmEvent → Node → Node
  unfolding handle_kad_event
  handle_swarm_event locks (kademlia e) n = handle_kad_event locks e n
  handle_swarm_event locks (identify_received c) n = record n { metrics = set_peers c n.metrics }
  handle_swarm_event locks (new_listen_addr a) n =
      if locks.listen_addrs then record n { listen_addrs = n.listen_addrs ++ a ∷ [] } else n
  handle_swarm_event locks (connection_established c) n = record n {
    connected_peers =
        if locks.connected_peers then (n.connected_peers + 1) % 2 ^ 64 else n.connected_peers;
    metrics = set_peers c n.metrics;
  }
  handle_swarm_event locks (connection_closed c) n = record n {
    connected_peers = if locks.connected_peers then n.connected_peers - 1 else n.connected_peers;
    metrics = set_peers c n.metrics;
  }
  handle_swarm_event locks other_event n = n

  -- `pending.insert(query_id, PendingQuery { reply })`
  unfoldable pub await_query : Locks → QueryId → Reply → Node → Node
  await_query locks id reply n =
      if locks.pending_queries then record n { pending = insert id reply n.pending } else n

  -- The counters after a put that the store took.
  unfoldable pub count_record : Locks → Node → Node
  count_record locks n =
      if locks.stored_records
      then record n {
        stored_records = (n.stored_records + 1) % 2 ^ 64;
        metrics = set_records ((n.stored_records + 1) % 2 ^ 64) n.metrics;
      }
      else record n { metrics = set_records 0 n.metrics }

  -- What `kademlia.put_record` answers: the reply waits for the query, or is sent at once.
  unfoldable pub reply_to_put : Locks → Reply → Node → Result Text QueryId → Node
  unfolding send await_query
  reply_to_put locks reply n (ok id) = await_query locks id reply n
  reply_to_put locks reply n (err e) = send reply put_ok n

  -- The match on the store's result.
  unfoldable pub after_put :
      Locks
      → Answers p fl sled
      → Reply
      → Node
      → CardRecordStore p fl sled
      → Result KadStoreError (Unit {0})
      → Node
  unfolding reply_to_put count_record send
  after_put locks answers reply n store (ok t) =
      reply_to_put locks reply
        (count_record locks (record n { store = run p fl sled store answers.put_calls }))
        answers.put_answer
  after_put locks answers reply n store (err e) =
      send reply (error (store_error_debug e)) (record n { store = store })

  unfoldable pub handle_put : Locks → Answers p fl sled → Bytes → Bytes → Reply → Node → Node
  unfolding after_put
  handle_put locks answers key value reply n =
      let (store, result) = put p fl sled n.store (disk_record key value) in
      after_put locks answers reply n store result

  -- What the local store has for a key, or else the query for it.
  pub after_get : Locks → Answers p fl sled → Reply → Node → Option KadRecord → Node
  unfolding send await_query
  after_get locks answers reply n (some r) = send reply (found r.value) n
  after_get locks answers reply n none =
      await_query locks answers.get_answer reply
        (record n { store = run p fl sled n.store answers.get_calls })

  pub handle_get : Locks → Answers p fl sled → Bytes → Reply → Node → Node
  unfolding after_get
  handle_get locks answers key reply n = after_get locks answers reply n (get p fl sled n.store key)

  unfoldable pub handle_command : Locks → Answers p fl sled → SwarmCommand → Node → Node
  unfolding handle_put handle_get
  handle_command locks answers (put_record key value reply) n =
      handle_put locks answers key value reply n
  handle_command locks answers (get_record key reply) n = handle_get locks answers key reply n

  -- What `select!` takes in one round. A poll of the swarm that gives no event to the loop can still
  -- call the store: `store_calls`.
  pub data Turn : Type 0 where
    swarm_event : SwarmEvent → Turn
    command : Answers p fl sled → SwarmCommand → Turn
    store_calls : List (Call p fl sled) → Turn

  unfoldable pub turn : Locks → Turn → Node → Node
  unfolding handle_swarm_event handle_command
  turn locks (swarm_event e) n = handle_swarm_event locks e n
  turn locks (command answers c) n = handle_command locks answers c n
  turn locks (store_calls calls) n = record n { store = run p fl sled n.store calls }

  -- The loop up to its shutdown, over the turns and the locks that they meet.
  unfoldable pub run_event_loop : List (Locks × Turn) → Node → Node
  unfolding turn
  run_event_loop [] n = n
  run_event_loop ((locks, t) ∷ turns) n = run_event_loop turns (turn locks t n)
