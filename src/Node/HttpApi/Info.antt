-- ===== src/Node/HttpApi/Info.antt =====
-- node/src/http_api.rs: the router, and the handlers that only read, `health`, `node_info`,
-- `metrics_prometheus` and `metrics_json`.
use p2s.Prelude.{ℕ, List, [], ◌∷◌, if◌then◌else◌, nat_eq, list_eq, Text, codes}
use p2s.Platform.{Platform}
use p2s.Float.{Float}
use p2s.Node.Sled.{Sled}
use p2s.Node.Metrics.{Metrics}
use p2s.Node.Metrics.Render.{MetricsJson, render_prometheus, render_json}
use p2s.Node.EventLoop.{Node, Locks}

pub data Method : Type 0 where
  post_method get_method : Method

pub data Handler : Type 0 where
  publish_card publish_batch fetch_card health_check node_information : Handler
  prometheus_metrics json_metrics submit_appeal list_reviews resolve_review : Handler

-- The routes of the API; axum takes a segment in braces for a parameter.
abbrev pub build_router : List (Text × Method × Handler)
build_router =
    (codes "/cards", post_method, publish_card)
    ∷ (codes "/cards/batch", post_method, publish_batch)
    ∷ (codes "/cards/{address}", get_method, fetch_card)
    ∷ (codes "/health", get_method, health_check)
    ∷ (codes "/node/info", get_method, node_information)
    ∷ (codes "/metrics", get_method, prometheus_metrics)
    ∷ (codes "/metrics/json", get_method, json_metrics)
    ∷ (codes "/appeals", post_method, submit_appeal)
    ∷ (codes "/admin/reviews", get_method, list_reviews)
    ∷ (codes "/admin/reviews/{address}", post_method, resolve_review)
    ∷ []

-- The field `status` of the answer.
abbrev pub health : Text
health = codes "ok"

pub record NodeInfo : Type 0 where
  pub peer_id : Text
  pub listen_addrs : List Text
  pub connected_peers : ℕ
  pub stored_records : ℕ

-- `metrics_prometheus` and `metrics_json`; the first has the status 200 and the type text/plain.
abbrev pub metrics_prometheus : ℕ → Metrics → ℕ × Text × Text
metrics_prometheus uptime m = (200, codes "text/plain", render_prometheus uptime m)

abbrev pub metrics_json : ℕ → Metrics → MetricsJson
metrics_json uptime m = render_json uptime m

module _ (p : Platform) (fl : Float) (sled : Sled) where
  -- What a lock guards is empty or zero where it cannot be taken.
  pub node_info : Locks → Text → Node p fl sled → NodeInfo
  node_info locks peer_id n = record {
    peer_id = peer_id;
    listen_addrs = if locks.listen_addrs then n.listen_addrs else [];
    connected_peers = if locks.connected_peers then n.connected_peers else 0;
    stored_records = if locks.stored_records then n.stored_records else 0;
  }
