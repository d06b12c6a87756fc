-- ===== src/Validator.antt =====
-- validator/src: mandates for node operators, issued (issuer.rs) and verified (verifier.rs), with
-- their errors (error.rs). The clock is an argument; a time is a `u64` of seconds.
pub mod Issuer
pub mod Verifier
pub mod Lifetime
