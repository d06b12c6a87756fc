-- ===== src/Node.antt =====
-- node/src: a node of the registry. Its stores (record_store.rs, trust_weight.rs, review_queue.rs),
-- its limits and counters (rate_limit.rs, metrics.rs), the loop that owns the swarm (event_loop.rs)
-- and the HTTP interface (http_api.rs).
pub mod Sled
pub mod KeyFile
pub mod RecordStore
pub mod RateLimit
pub mod Metrics
pub mod EventLoop
pub mod TrustWeight
pub mod Request
pub mod HttpApi
pub mod ReviewQueue
pub mod Config
pub mod Startup
