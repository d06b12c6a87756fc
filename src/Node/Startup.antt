-- ===== src/Node/Startup.antt =====
-- node/src/main.rs: what a node is made of when it starts. What the machine answers on the way is a
-- record of arguments; the tasks that run afterwards are the event loop's and the HTTP interface's.
pub mod Parsed
pub mod Running
use p2s.Prelude.{
  not, Option, none, some, List, [], ◌∷◌, ◌++◌, ◌==◌, nat_eq, list_eq, length, Result, ok, err,
  ◌>>=◌, ◌>>◌, map_err, reject_if, ok_or, Text, Bytes, codes, decimal, AnyError, from_error,
  context, collect,
}
use p2s.Platform.{Platform}
use p2s.Float.{Float}
use p2s.Node.Sled.{Sled, Database}
use p2s.Node.KeyFile.{FileSystem, Identity, load_or_generate}
use p2s.Node.Config.{
  Protocol, p2p, other_protocol, Addresses, Cli, NodeConfig, StartError, panicked, failed,
  build_swarm,
}
use p2s.Node.RecordStore.{CardRecordStore}
use p2s.Node.Metrics.{new_metrics}
use p2s.Node.EventLoop.{Node}
use p2s.Node.RateLimit.{RateLimiter, new_limiter}
use p2s.Node.TrustWeight.{TrustWeightStore, new_weights, with_persistence}
use p2s.Node.Request.{HexReader}

module _ (p : Platform) (addresses : Addresses) (hex_decode : HexReader) where
  -- `find_map` over the parts of an address
  unfoldable pub extract_peer_id : List (Protocol addresses.PeerId) → Option addresses.PeerId
  extract_peer_id [] = none
  extract_peer_id (p2p peer_id ∷ protos) = some peer_id
  extract_peer_id (other_protocol ∷ protos) = extract_peer_id protos

  unfoldable pub parse_bootstrap_peer :
      Text → Result AnyError (addresses.PeerId × addresses.Multiaddr)
  parse_bootstrap_peer peer_str = do
    addr ← context (codes "invalid bootstrap multiaddr: " ++ peer_str) (addresses.parse peer_str)
    peer_id ←
        ok_or (extract_peer_id (addresses.iter addr))
          ((codes "bootstrap peer must include /p2p/<PeerId>: " ++ peer_str) ∷ [])
    ok (peer_id, addr)

  unfoldable pub parse_bootstrap_peers :
      List Text → Result AnyError (List (addresses.PeerId × addresses.Multiaddr))
  unfolding parse_bootstrap_peer
  parse_bootstrap_peers = collect parse_bootstrap_peer

  -- `point_error` is the message of `VerifyingKey::from_bytes` for bytes that are no point.
  unfoldable pub parse_validator_key : Text → Text → Result AnyError p.VerifyingKey
  parse_validator_key point_error hex_str = do
    bytes ← context (codes "invalid validator key hex: " ++ hex_str) (hex_decode hex_str)
    reject_if (not (length bytes == 32))
        ((codes "validator key must be 32 bytes, got " ++ decimal (length bytes)) ∷ [])
    ok_or (p.from_bytes bytes) (codes "invalid ed25519 public key" ∷ point_error ∷ [])

  -- `collect::<Result<Vec<_>>>()`
  unfoldable pub parse_validator_keys : Text → List Text → Result AnyError (List p.VerifyingKey)
  unfolding parse_validator_key
  parse_validator_keys point_error = collect (parse_validator_key point_error)

  module _ (fs : FileSystem) (identity : Identity) (fl : Float) (sled : Sled) where
    -- The database "node_meta.sled": its trees "trust_weights" and "review_queue", where they open.
    pub record MetaDatabase : Type 0 where
      pub trust_weights : Option sled.Tree
      pub review_queue : Option sled.Tree

    -- What the machine answers while the node starts.
    pub record Machine : Type 0 where
      pub generated : identity.Keypair
      pub to_peer_id : identity.Keypair → addresses.PeerId
      pub point_error : Text
      pub cards_db : fs.FilePath → Option (Database sled)
      pub meta_db : fs.FilePath → Option MetaDatabase
      pub transport : Result Text (Unit {0})
      pub listen_on : addresses.Multiaddr → Result Text (Unit {0})

    -- `NodeState` with the event loop's part of it, and libp2p's routing table, to which the bootstrap
    -- peers are added.
    pub record Started : Type 0 where
      pub peer_id : addresses.PeerId
      pub config : NodeConfig p addresses fs.FilePath
      pub routing : List (addresses.PeerId × addresses.Multiaddr)
      pub node : Node p fl sled
      pub rate_limiter : RateLimiter
      pub trust_weights : TrustWeightStore fl sled
      pub review_queue : Option sled.Tree

    -- `ReviewQueue::new(&db)`, which panics if its tree does not open
    abbrev pub new_queue : Option sled.Tree → Result (StartError p addresses fs.FilePath) sled.Tree
    new_queue tree = ok_or tree (panicked (codes "failed to open review_queue tree"))

    module _ (from_utf8 : Bytes → Option Text) where
      -- The weights and the queue; without the database weights are kept in memory only.
      unfoldable pub open_meta :
          Option MetaDatabase
          → Result
              (StartError p addresses fs.FilePath)
              (TrustWeightStore fl sled × Option sled.Tree)
      open_meta none = ok (new_weights fl sled, none)
      open_meta (some db) = do
        queue ← new_queue db.review_queue
        ok (with_persistence fl sled from_utf8 db.trust_weights, some queue)

      abbrev pub config_of :
          Cli fs.FilePath
          → List (addresses.PeerId × addresses.Multiaddr)
          → List p.VerifyingKey
          → NodeConfig p addresses fs.FilePath
      config_of cli bootstrap_peers validator_keys = record {
        bootstrap_peers = bootstrap_peers;
        listen_addr = codes "0.0.0.0:4001";
        validator_keys = validator_keys;
        replication_factor = 20;
        data_dir = some cli.data_dir;
      }

      abbrev pub new_node : CardRecordStore p fl sled → Node p fl sled
      new_node store = record {
        store = store;
        listen_addrs = [];
        connected_peers = 0;
        stored_records = 0;
        pending = [];
        metrics = new_metrics;
        sent = [];
      }

      -- `Arc::new(NodeState { … })`
      abbrev pub state_of :
          Machine
          → Cli fs.FilePath
          → identity.Keypair
          → List (addresses.PeerId × addresses.Multiaddr)
          → List p.VerifyingKey
          → CardRecordStore p fl sled
          → TrustWeightStore fl sled × Option sled.Tree
          → Started
      state_of machine cli keypair bootstrap_peers validator_keys store meta = record {
        peer_id = machine.to_peer_id keypair;
        config = config_of cli bootstrap_peers validator_keys;
        routing = bootstrap_peers;
        node = new_node store;
        rate_limiter = new_limiter;
        trust_weights = meta.0;
        review_queue = meta.1;
      }

      -- `main` from the key on, up to the state that the two tasks share. A bootstrap that fails is
      -- logged only.
      unfoldable pub start_with_key :
          Machine
          → Cli fs.FilePath
          → identity.Keypair
          → Result (StartError p addresses fs.FilePath) Started
      start_with_key machine cli keypair = do
        bootstrap_peers ← map_err failed (parse_bootstrap_peers cli.bootstrap_peer)
        validator_keys ← map_err failed (parse_validator_keys machine.point_error cli.validator_key)
        listen_addr ← map_err failed (
            context (codes "invalid listen multiaddr: " ++ cli.listen) (addresses.parse cli.listen))
        let config = config_of cli bootstrap_peers validator_keys
        store ←
            build_swarm p addresses fs.FilePath fl sled machine.cards_db machine.transport config
        map_err failed (from_error (machine.listen_on listen_addr))
        meta ← open_meta (machine.meta_db cli.data_dir)
        ok (state_of machine cli keypair bootstrap_peers validator_keys store meta)

      -- What follows `load_or_generate`.
      unfoldable pub with_key :
          Machine
          → Cli fs.FilePath
          → fs.State × Result AnyError identity.Keypair
          → fs.State × Result (StartError p addresses fs.FilePath) Started
      with_key machine cli (s, err e) = (s, err (failed e))
      with_key machine cli (s, ok keypair) = (s, start_with_key machine cli keypair)

      unfoldable pub start :
          Machine
          → Cli fs.FilePath
          → fs.State
          → fs.State × Result (StartError p addresses fs.FilePath) Started
      start machine cli s =
          with_key machine cli (load_or_generate fs identity s cli.data_dir machine.generated)
