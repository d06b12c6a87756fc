-- ===== src/Node/Startup/Running.antt =====
-- A node that has started, and what holds of it from then on (main.rs).
use p2s.Prelude.{
  ◌≡◌, refl, sym, ap, inl, inr, Option, some, List, [], arith, nat_eq, list_eq, Result, ok, err,
  Result-cases, lookup, Text, Bytes, AnyError, Zips,
}
use mathlib.Core.Path.{subst}
use p2s.Platform.{Platform}
use p2s.Float.{Float}
use p2s.Node.Sled.{Sled}
use p2s.Node.KeyFile.{FileSystem, Identity, load_or_generate}
use p2s.Node.Config.{Addresses, Cli, StartError, max_records, build_swarm, swarm_store}
use p2s.Node.RecordStore.{RecordKey, KadRecord, CardRecordStore, with_persistence}
use p2s.Node.RecordStore.Validity.{IsCardAt}
use p2s.Node.EventLoop.{Locks, Turn, run_event_loop}
use p2s.Node.EventLoop.Stored.{run_event_loop-IsCardAt}
use p2s.Node.TrustWeight.{TrustWeightStore}
use p2s.Node.Request.{HexReader}
use p2s.Node.Startup.{
  parse_bootstrap_peers, parse_validator_keys, Machine, Started, open_meta, state_of,
  start_with_key, with_key, start,
}
use p2s.Node.Startup.Parsed.{IsPeer, IsKey, parse_bootstrap_peers_iff, parse_validator_keys_iff}

module _ (p : Platform) (addresses : Addresses) (hex_decode : HexReader) (fs : FileSystem)
    (identity : Identity) (fl : Float) (sled : Sled) (from_utf8 : Bytes → Option Text) where
  abbrev TheMachine : Type 0
  TheMachine = Machine p addresses hex_decode fs identity fl sled

  abbrev TheStarted : Type 0
  TheStarted = Started p addresses hex_decode fs identity fl sled

  abbrev start_from :
      TheMachine
      → Cli fs.FilePath
      → fs.State
      → fs.State × Result (StartError p addresses fs.FilePath) TheStarted
  start_from = start p addresses hex_decode fs identity fl sled from_utf8

  -- A node that stands as its command line says.
  pub record IsStarted (machine : TheMachine) (cli : Cli fs.FilePath) (s : fs.State)
      (node : TheStarted) : Type 0 where
    pub key : identity.Keypair
    pub has_key : (load_or_generate fs identity s cli.data_dir machine.generated).1 ≡ ok key
    pub peer : node.peer_id ≡ machine.to_peer_id key
    pub peers : Zips (IsPeer p addresses hex_decode) cli.bootstrap_peer node.config.bootstrap_peers
    pub routed : node.routing ≡ node.config.bootstrap_peers
    pub keys : Zips (IsKey p addresses hex_decode) cli.validator_key node.config.validator_keys
    pub listen_addr : addresses.Multiaddr
    pub listens : addresses.parse cli.listen ≡ ok listen_addr
    pub bound : machine.listen_on listen_addr ≡ ok tt
    pub store : node.node.store ≡ with_persistence p fl sled 100000 (machine.cards_db cli.data_dir)
    pub none_pending : node.node.pending ≡ []
    pub none_sent : node.node.sent ≡ []

  abbrev loaded_store : TheMachine → Cli fs.FilePath → CardRecordStore p fl sled
  loaded_store machine cli = with_persistence p fl sled max_records (machine.cards_db cli.data_dir)

  state_of-IsStarted :
      (machine : TheMachine) (cli : Cli fs.FilePath) (s : fs.State) (key : identity.Keypair)
      (peers : List (addresses.PeerId × addresses.Multiaddr)) (keys : List p.VerifyingKey)
      (addr : addresses.Multiaddr) (meta : TrustWeightStore fl sled × Option sled.Tree)
      → (load_or_generate fs identity s cli.data_dir machine.generated).1 ≡ ok key
      → parse_bootstrap_peers p addresses hex_decode cli.bootstrap_peer ≡ ok peers
      → parse_validator_keys p addresses hex_decode machine.point_error cli.validator_key ≡ ok keys
      → addresses.parse cli.listen ≡ ok addr
      → machine.listen_on addr ≡ ok tt
      → IsStarted machine cli s (
          state_of p addresses hex_decode fs identity fl sled from_utf8 machine cli key peers keys
            (loaded_store machine cli)
            meta)
  state_of-IsStarted machine cli s key peers keys addr meta k e1 e2 e3 e5 = record {
    key = key;
    has_key = k;
    peer = refl;
    peers = (parse_bootstrap_peers_iff p addresses hex_decode cli.bootstrap_peer peers).0 e1;
    routed = refl;
    keys =
        (parse_validator_keys_iff p addresses hex_decode machine.point_error cli.validator_key
            keys).0
          e2;
    listen_addr = addr;
    listens = e3;
    bound = e5;
    store = refl;
    none_pending = refl;
    none_sent = refl;
  }

  start_with_key-IsStarted :
      (machine : TheMachine) (cli : Cli fs.FilePath) (s : fs.State) (key : identity.Keypair)
      (node : TheStarted)
      → (load_or_generate fs identity s cli.data_dir machine.generated).1 ≡ ok key
      → start_with_key p addresses hex_decode fs identity fl sled from_utf8 machine cli key
        ≡ ok node
      → IsStarted machine cli s node
  unfolding start_with_key build_swarm swarm_store
  start_with_key-IsStarted machine cli s key node k h =
      elim (Result-cases (parse_bootstrap_peers p addresses hex_decode cli.bootstrap_peer)) [
        | inr (e, e1) ↦ absurd (ground arith)
        | inl (peers, e1) ↦
            elim (Result-cases
              (parse_validator_keys p addresses hex_decode machine.point_error cli.validator_key)) [
                | inr (e, e2) ↦ absurd (ground arith)
                | inl (keys, e2) ↦ elim (Result-cases (addresses.parse cli.listen)) [
                  | inr (e, e3) ↦ absurd (ground arith)
                  | inl (addr, e3) ↦ elim (Result-cases machine.transport) [
                    | inr (e, e4) ↦ absurd (ground arith)
                    | inl (u, e4) ↦ elim (Result-cases (machine.listen_on addr)) [
                      | inr (e, e5) ↦ absurd (ground arith)
                      | inl (v, e5) ↦
                          elim (Result-cases (
                            open_meta p addresses hex_decode fs identity fl sled from_utf8
                              (machine.meta_db cli.data_dir))) [
                                | inr (e, e6) ↦ absurd (ground arith)
                                | inl (meta, e6) ↦ subst (IsStarted machine cli s) (ground arith) (
                                    state_of-IsStarted machine cli s key peers keys addr meta k e1
                                      e2 e3 (ground arith))
                              ]
                    ]
                  ]
                ]
              ]
      ]

  with_key-IsStarted :
      (machine : TheMachine) (cli : Cli fs.FilePath) (s : fs.State) (node : TheStarted)
      (loaded : fs.State × Result AnyError identity.Keypair)
      → loaded ≡ load_or_generate fs identity s cli.data_dir machine.generated
      → (with_key p addresses hex_decode fs identity fl sled from_utf8 machine cli loaded).1
        ≡ ok node
      → IsStarted machine cli s node
  unfolding with_key
  with_key-IsStarted machine cli s node (s', err e) l h = cc
  with_key-IsStarted machine cli s node (s', ok key) l h =
      start_with_key-IsStarted machine cli s key node (ap (λ w. w.1) (sym l)) h

  -- A node that starts has the key of its data directory and the identity of this key, the bootstrap
  -- peers of its command line, which are the peers that libp2p is given, and the validators' keys; it
  -- listens on the address of its command line, its store is the one that is loaded from its database
  -- with a limit of 100,000 records, and no query waits and no reply has been sent.
  pub start-IsStarted :
      (machine : TheMachine) (cli : Cli fs.FilePath) (s : fs.State) (node : TheStarted)
      → (start_from machine cli s).1 ≡ ok node
      → IsStarted machine cli s node
  unfolding start
  start-IsStarted machine cli s node h =
      with_key-IsStarted machine cli s node
        (load_or_generate fs identity s cli.data_dir machine.generated) refl h

  -- From the command line to any later moment: whatever the file system, the database, peers, clients
  -- and failing locks do, a record in the store of a node that has started is an authentic card under
  -- the address of its key.
  pub start-run_event_loop :
      (machine : TheMachine) (cli : Cli fs.FilePath) (s : fs.State) (node : TheStarted)
      (turns : List (Locks × Turn p fl sled)) (k : RecordKey) (r : KadRecord)
      → (start_from machine cli s).1 ≡ ok node
      → lookup k (run_event_loop p fl sled turns node.node).store.records ≡ some r
      → IsCardAt p fl sled (run_event_loop p fl sled turns node.node).store k r
  start-run_event_loop machine cli s node turns k r h found =
      run_event_loop-IsCardAt p fl sled max_records (machine.cards_db cli.data_dir) node.node turns
        k r (start-IsStarted machine cli s node h).store found
