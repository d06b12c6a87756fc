-- ===== src/Lib.antt =====
-- A model of p2s, a registry of service cards kept in a distributed hash table, and the proofs that
-- make it correct.
--
-- A publisher signs a card (proto, card) and proves its domain (publisher). A node (node) takes the
-- card over HTTP, checks it (verifier, stage 1), hands it to the loop that owns the swarm, and the
-- loop puts it in the record store behind Kademlia. An agent assesses the site of a card (verifier,
-- stage 2); it sees filtered content only, and code computes the decision from its answer. Clients
-- (consumer) check what they fetch, and validators (validator) issue mandates to nodes.
--
-- The files, with the code that each is about:
--   Proto         proto/src: the records, canonical_encode, canonical_decode
--   Card          card/src: generate_keypair, compute_address, sign_card, verify_card, verify_address
--   Consumer      consumer/src/resolve.rs
--   Validator     validator/src: MandateIssuer (Issuer), MandateVerifier (Verifier)
--   Publisher     publisher/src: the challenge and its two proofs
--   Verifier      verifier/src: Harden, Manifest, Stage1, Sanitize, Agent, HaikuAgent, Verdict, Pipeline
--                 for the files of these names; Slices for the operations of `str` on byte offsets
--   Node          node/src: RecordStore, RateLimit, Metrics, TrustWeight, ReviewQueue, EventLoop
--                 (with node_state.rs), HttpApi (`publish_card`, with its checks in Request;
--                 Batch, Fetch, Review and Info for the other handlers); KeyFile for keypair_io.rs,
--                 Config for cli.rs, config.rs and behaviour.rs, Startup for main.rs; Sled for the
--                 database. RecordStore.Registry specifies the record store, and `open_run` in
--                 ReviewQueue.Pending the queue
--   Tools         tools/src/card_gen.rs
--   Prelude       lists, results, maps and text; Platform, Net, Float and Json: the crates that the
--                 program calls, and `f64`
--   Examples      concrete instances of these interfaces, and runs of the theorems on them
-- A module below one of these, such as Card.Verify, holds its proofs.
--
-- How code is modelled. A function that returns a `Result` returns one here, and an early return is
-- a step of its `do` block. `&mut self` is a state that is passed on. A `HashMap` is an association
-- list, a `String` a list of scalar values, a `Vec<u8>` a list of numbers. Counters of 64 bits are
-- taken modulo 2^64. A slice of a `str` that Rust would refuse is the value `panic`. Where code awaits,
-- a handler is cut in two, and what others do in between is an argument. What libp2p, sled, the
-- network, the clock, the random source and poisoned locks do are arguments too.
--
-- Fuel. The loops of Sanitize have as fuel one more than the length of the text that they move
-- through, and each round takes one character, or one byte, at least. Running out is a value of its
-- own, `out_of_fuel`, apart from `panic`. The sum of a clock and the time to live of a mandate wraps,
-- and the result on it says where that begins.
--
-- Not modelled: libp2p's own configuration, the logging, the tasks that main.rs spawns and its
-- shutdown, which are calls of other crates, and everything that is not Rust.
pub mod Prelude
pub mod Proto
pub mod Platform
pub mod Net
pub mod Float
pub mod Json
pub mod Card
pub mod Consumer
pub mod Validator
pub mod Publisher
pub mod Tools
pub mod Verifier
pub mod Node
pub mod Examples
