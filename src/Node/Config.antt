-- ===== src/Node/Config.antt =====
-- node/src/cli.rs, config.rs and behaviour.rs: the command line, the configuration, and the part of
-- libp2p's swarm that the node sets up itself, its store. libp2p's addresses are a parameter.
use p2s.Prelude.{
  ℕ, Option, none, some, List, [], ◌==◌, nat_eq, list_eq, Result, ok, ◌>>◌, map_err, reject_if,
  Text, codes, AnyError, from_error,
}
use p2s.Platform.{Platform}
use p2s.Float.{Float}
use p2s.Node.Sled.{Sled, Database}
use p2s.Node.RecordStore.{CardRecordStore, new_store, with_persistence}

-- `libp2p::multiaddr::Protocol`, as far as the node looks at it.
pub data Protocol {ℓ} (PeerId : Type ℓ) : Type ℓ where
  p2p : PeerId → Protocol PeerId
  other_protocol : Protocol PeerId

-- `libp2p::Multiaddr` and `PeerId`.
pub record Addresses : Type 1 where
  pub Multiaddr : Type 0
  pub PeerId : Type 0
  pub parse : Text → Result Text Multiaddr
  pub iter : Multiaddr → List (Protocol PeerId)

-- The command line; clap fills in the defaults and rejects a port over 16 bits.
pub record Cli (FilePath : Type 0) : Type 0 where
  pub listen : Text
  pub http_port : ℕ
  pub bootstrap_peer : List Text
  pub data_dir : FilePath
  pub validator_key : List Text

-- The command line without arguments, for a path "./data".
abbrev pub default_cli : (FilePath : Type 0) → FilePath → Cli FilePath
default_cli FilePath data_dir = record {
  listen = codes "/ip4/0.0.0.0/tcp/4001";
  http_port = 8080;
  bootstrap_peer = [];
  data_dir = data_dir;
  validator_key = [];
}

abbrev pub max_records : ℕ
max_records = 100000

module _ (p : Platform) (addresses : Addresses) (FilePath : Type 0) where
  pub record NodeConfig : Type 0 where
    pub bootstrap_peers : List (addresses.PeerId × addresses.Multiaddr)
    -- a `SocketAddr`, as its text
    pub listen_addr : Text
    pub validator_keys : List p.VerifyingKey
    pub replication_factor : ℕ
    pub data_dir : Option FilePath

  abbrev pub default_config : NodeConfig
  default_config = record {
    bootstrap_peers = [];
    listen_addr = codes "0.0.0.0:0";
    validator_keys = [];
    replication_factor = 20;
    data_dir = none;
  }

  -- Why a node does not start: it panics, or `main` returns an error.
  pub data StartError : Type 0 where
    panicked : Text → StartError
    failed : AnyError → StartError

  module _ (fl : Float) (sled : Sled) where
    -- The store; `cards_db` is what `sled::open` gives for the directory's "cards.sled".
    unfoldable pub swarm_store :
        (FilePath → Option (Database sled)) → Option FilePath → CardRecordStore p fl sled
    swarm_store cards_db none = new_store p fl sled max_records
    swarm_store cards_db (some data_dir) =
        with_persistence p fl sled max_records (cards_db data_dir)

    -- `build_swarm`: `NonZero::new(…).unwrap()` panics at 0; `transport` is what the builder's
    -- `with_tcp(…)?` and `with_behaviour(…)?` give.
    unfoldable pub build_swarm :
        (FilePath → Option (Database sled))
        → Result Text (Unit {0})
        → NodeConfig
        → Result StartError (CardRecordStore p fl sled)
    build_swarm cards_db transport config = do
      reject_if (config.replication_factor == 0)
          (panicked (codes "called `Option::unwrap()` on a `None` value"))
      map_err failed (from_error transport)
      ok (swarm_store cards_db config.data_dir)
