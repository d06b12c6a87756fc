-- ===== src/Examples/Starting.antt =====
-- Witnesses of the theorems on the start of a node: a file system in memory, keys that are bytes,
-- and addresses that are names.
use p2s.Prelude.{
  ◌≡◌, refl, sym, true, ◌||◌, Option, none, some, List, [], ◌∷◌, ◌++◌, arith, nat_eq, list_beq,
  list_eq, any, Result, ok, ok_or, HashMap, lookup, insert, contains_key, lookup-insert_self, Text,
  Bytes, codes, collect,
}
use p2s.Proto.{canonical_decode}
use p2s.Card.{verify_card, verify_address, compute_address}
use p2s.Node.TrustWeight.{new_weights}
use p2s.Node.RecordStore.{
  new_store, with_persistence, load_from_disk, put, supersede, write, validate_and_extract_seq,
}
use p2s.Node.RecordStore.Validity.{IsCardAt}
use p2s.Node.EventLoop.{Locks, Turn, store_calls, run_event_loop, turn}
use p2s.Node.KeyFile.{
  FileSystem, Identity, load_key, permitted, written, store_key, in_directory, load_or_generate,
}
use p2s.Node.KeyFile.Restarted.{KeepsFiles, load_or_generate_again}
use p2s.Node.Config.{p2p, other_protocol, Addresses, Cli, build_swarm, swarm_store}
use p2s.Node.Startup.{
  extract_peer_id, parse_bootstrap_peer, parse_bootstrap_peers, parse_validator_key,
  parse_validator_keys, Machine, Started, open_meta, state_of, start_with_key, with_key, start,
}
use p2s.Node.Startup.Running.{IsStarted, start-IsStarted, start-run_event_loop}
use p2s.Node.RecordStore.Validity.{puts, run, step}
use p2s.Examples.Toy.{toy_platform, toy_float, toy_sled}
use p2s.Examples.Data.{toy_address, toy_disk_record}
use p2s.Examples.Running.{toy_hex}

-- Directories and files in memory; restricting a file gives `answer`.
abbrev Disk : Type 0
Disk = List Text × HashMap Text Bytes

abbrev memory : Result Text (Unit {0}) → FileSystem
memory answer = record {
  State = Disk;
  FilePath = Text;
  join = λ dir name. dir ++ codes "/" ++ name;
  display = λ path. path;
  create_dir_all = λ s dir. ((dir ∷ s.0, s.1), ok tt);
  exists = λ s path. contains_key path s.1 || any (λ dir. list_beq dir path) s.0;
  read = λ s path. ok_or (lookup path s.1) (codes "No such file or directory (os error 2)");
  write = λ s path b. ((s.0, insert path b s.1), ok tt);
  set_permissions = λ s path mode. (s, answer);
}

abbrev new_disk : Disk
new_disk = ([], [])

memory-KeepsFiles : (answer : Result Text (Unit {0})) → KeepsFiles (memory answer)
memory-KeepsFiles answer = record {
  kept_written = λ s path b absent w q. (
    ground (arith, lookup-insert_self path b s.1),
    ground (arith, lookup-insert_self path b s.1),
  );
  kept_created = λ s path dir b e r. (ground (arith, e), r);
}

abbrev toy_identity : Identity
toy_identity = record {
  Keypair = Bytes;
  to_protobuf_encoding = ok;
  from_protobuf_encoding = ok;
  decode_encoded = λ k b h. sym h;
}

abbrev data_dir : Text
data_dir = codes "./data"

first_start :
    (load_or_generate (memory (ok tt)) toy_identity new_disk data_dir (1 ∷ 2 ∷ [])).1
    ≡ ok (1 ∷ 2 ∷ [])
unfolding load_or_generate in_directory store_key written permitted lookup
first_start = refl

load_or_generate_again_example :
    let after = (load_or_generate (memory (ok tt)) toy_identity new_disk data_dir (1 ∷ 2 ∷ [])).0 in
    (load_key (memory (ok tt)) toy_identity after (codes "./data/node.key") ≡ ok (1 ∷ 2 ∷ []))
    × ((load_or_generate (memory (ok tt)) toy_identity after data_dir (9 ∷ [])).1 ≡ ok (1 ∷ 2 ∷ []))
load_or_generate_again_example =
    load_or_generate_again (memory (ok tt)) toy_identity (memory-KeepsFiles (ok tt)) new_disk
      data_dir (1 ∷ 2 ∷ []) (9 ∷ []) (1 ∷ 2 ∷ []) first_start refl

-- Addresses that are names: an address names the peer of its own name, behind a transport.
abbrev named : Addresses
named = record {
  Multiaddr = Text;
  PeerId = Text;
  parse = ok;
  iter = λ name. other_protocol ∷ p2p name ∷ [];
}

abbrev seeds : List Text
seeds = codes "a" ∷ codes "b" ∷ []

abbrev seed_peers : List (Text × Text)
seed_peers = (codes "a", codes "a") ∷ (codes "b", codes "b") ∷ []

abbrev machine : Machine toy_platform named toy_hex (memory (ok tt)) toy_identity toy_float toy_sled
machine = record {
  generated = 1 ∷ 2 ∷ [];
  to_peer_id = λ key. key;
  point_error = codes "no point";
  cards_db = λ path. none;
  meta_db = λ path. none;
  transport = ok tt;
  listen_on = λ address. ok tt;
}

abbrev cli : Cli Text
cli = record {
  listen = codes "here";
  http_port = 8080;
  bootstrap_peer = seeds;
  data_dir = data_dir;
  validator_key = codes "07" ∷ [];
}

abbrev no_text : Bytes → Option Text
no_text b = none

abbrev started : Started toy_platform named toy_hex (memory (ok tt)) toy_identity toy_float toy_sled
started =
    state_of toy_platform named toy_hex (memory (ok tt)) toy_identity toy_float toy_sled no_text
      machine cli (1 ∷ 2 ∷ []) seed_peers (7 ∷ [])
      (with_persistence toy_platform toy_float toy_sled 100000 none)
      (new_weights toy_float toy_sled, none)

toy_started :
    (start toy_platform named toy_hex
      (memory (ok tt))
      toy_identity
      toy_float
      toy_sled
      no_text
      machine
      cli
      new_disk).1
    ≡ ok started
unfolding start with_key start_with_key load_or_generate in_directory store_key written permitted
    parse_bootstrap_peers parse_bootstrap_peer extract_peer_id parse_validator_keys
    parse_validator_key collect build_swarm swarm_store open_meta lookup
toy_started = refl

start-IsStarted_example :
    IsStarted toy_platform named toy_hex
      (memory (ok tt))
      toy_identity
      toy_float
      toy_sled
      no_text
      machine
      cli
      new_disk
      started
start-IsStarted_example =
    start-IsStarted toy_platform named toy_hex (memory (ok tt)) toy_identity toy_float toy_sled
      no_text machine cli new_disk started toy_started

-- Kademlia stores a card that a peer sent.
abbrev replicated : List (Locks × Turn toy_platform toy_float toy_sled)
replicated =
    (
      record {
        pending_queries = true;
        stored_records = true;
        listen_addrs = true;
        connected_peers = true;
      },
      store_calls (puts (toy_disk_record 2) ∷ []),
    )
    ∷ []

replicated_found :
    lookup toy_address
      (run_event_loop toy_platform toy_float toy_sled replicated started.node).store.records
    ≡ some (toy_disk_record 2)
unfolding run_event_loop turn run step put supersede write with_persistence load_from_disk new_store
    lookup insert validate_and_extract_seq canonical_decode verify_card verify_address
    compute_address
replicated_found = refl

start-run_event_loop_example :
    IsCardAt toy_platform toy_float toy_sled
      (run_event_loop toy_platform toy_float toy_sled replicated started.node).store
      toy_address
      (toy_disk_record 2)
start-run_event_loop_example =
    start-run_event_loop toy_platform named toy_hex (memory (ok tt)) toy_identity toy_float toy_sled
      no_text machine cli new_disk started replicated toy_address (toy_disk_record 2) toy_started
      replicated_found
