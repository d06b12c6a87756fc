-- ===== src/Verifier.antt =====
-- verifier/src: the verification of a card before it is admitted. Deterministic checks first
-- (stage1.rs over harden.rs and manifest.rs), then the agent's assessment of the site's content
-- (sanitize.rs, agent.rs, pipeline.rs) and the decision (verdict.rs).
pub mod Harden
pub mod Manifest
pub mod Stage1
pub mod Slices
pub mod Sanitize
pub mod Verdict
pub mod Agent
pub mod HaikuAgent
pub mod Pipeline
