-- ===== src/Tools.antt =====
-- tools/src: the command that makes a signed card for tests. `main.rs` only greets.
pub mod CardGen
