-- ===== src/Node/Metrics/Render.antt =====
-- node/src/metrics.rs: the two forms in which the counters are shown. The uptime in seconds is an
-- argument; a JSON object is a record.
use p2s.Prelude.{
  ℕ, ◌/◌, List, [], ◌∷◌, ◌++◌, ◌==◌, if◌then◌else◌, nat_eq, list_eq, Text, codes, decimal,
}
use p2s.Node.Metrics.{Metrics}

abbrev pub labels : List Text
labels =
    codes "le_1ms"
    ∷ codes "le_5ms"
    ∷ codes "le_10ms"
    ∷ codes "le_50ms"
    ∷ codes "le_100ms"
    ∷ codes "le_500ms"
    ∷ codes "le_1s"
    ∷ codes "gt_1s"
    ∷ []

-- `format!("{name} {}\n", n)`
abbrev pub line : Text → ℕ → Text
line name n = name ++ (codes " " ++ (decimal n ++ (10 ∷ [])))

-- `load(…).max(1)`, and the average of the latencies
abbrev pub at_least_one : ℕ → ℕ
at_least_one n = if n == 0 then 1 else n

pub average : ℕ → ℕ → ℕ
average sum_us count = sum_us / at_least_one count

-- The loop over the labels; a counter stands at the index of its label.
pub bucket_lines : Text → List Text → List ℕ → Text
bucket_lines name [] buckets = []
bucket_lines name (label ∷ ls) [] = []
bucket_lines name (label ∷ ls) (n ∷ buckets) =
    line (name ++ (codes "{bucket=\"" ++ (label ++ codes "\"}"))) n ++ bucket_lines name ls buckets

abbrev help : Text
help = codes "# HELP p2s_uptime_seconds Node uptime" ++ (10 ∷ [])

pub render_prometheus : ℕ → Metrics → Text
unfolding average bucket_lines
render_prometheus uptime m =
    help
    ++ (line (codes "p2s_uptime_seconds") uptime
        ++ (line (codes "p2s_cards_put_total") m.cards_put_total
            ++ (line (codes "p2s_cards_put_success") m.cards_put_success
                ++ (line (codes "p2s_cards_put_rejected") m.cards_put_rejected
                    ++ (line (codes "p2s_cards_get_total") m.cards_get_total
                        ++ (line (codes "p2s_cards_get_found") m.cards_get_found
                            ++ (line (codes "p2s_cards_get_not_found") m.cards_get_not_found
                                ++ (line (codes "p2s_put_latency_avg_us")
                                      (average m.put_latency_sum_us m.cards_put_success)
                                    ++ (bucket_lines (codes "p2s_put_latency_bucket") labels
                                          m.put_latency_buckets
                                        ++ (line (codes "p2s_get_latency_avg_us")
                                              (average m.get_latency_sum_us m.cards_get_found)
                                            ++ (bucket_lines (codes "p2s_get_latency_bucket") labels
                                                  m.get_latency_buckets
                                                ++ (line (codes "p2s_dht_records_stored")
                                                      m.dht_records_stored
                                                    ++ (line (codes "p2s_dht_peers_connected")
                                                          m.dht_peers_connected
                                                        ++ (line (codes "p2s_dht_queries_in")
                                                            m.dht_queries_in
                                                            ++ (line (codes "p2s_dht_queries_out")
                                                            m.dht_queries_out
                                                            ++ (line
                                                            (codes "p2s_http_requests_total")
                                                            m.http_requests_total
                                                            ++ (line (codes "p2s_http_errors_total")
                                                            m.http_errors_total
                                                            ++ (line (codes "p2s_sig_verify_ok")
                                                            m.sig_verify_ok
                                                            ++ line (codes "p2s_sig_verify_fail")
                                                            m.sig_verify_fail))))))))))))))))))

-- The objects of `render_json`.
pub record CardsJson : Type 0 where
  pub put_total : ℕ
  pub put_success : ℕ
  pub put_rejected : ℕ
  pub get_total : ℕ
  pub get_found : ℕ
  pub get_not_found : ℕ

pub record LatencyJson : Type 0 where
  pub put_avg : ℕ
  pub get_avg : ℕ

pub record DhtJson : Type 0 where
  pub records_stored : ℕ
  pub peers_connected : ℕ
  pub queries_in : ℕ
  pub queries_out : ℕ

pub record HttpJson : Type 0 where
  pub requests_total : ℕ
  pub errors_total : ℕ

pub record SignatureJson : Type 0 where
  pub verify_ok : ℕ
  pub verify_fail : ℕ

pub record MetricsJson : Type 0 where
  pub uptime_seconds : ℕ
  pub cards : CardsJson
  pub latency_us : LatencyJson
  pub dht : DhtJson
  pub http : HttpJson
  pub signature : SignatureJson

pub render_json : ℕ → Metrics → MetricsJson
unfolding average
render_json uptime m = record {
  uptime_seconds = uptime;
  cards = record {
    put_total = m.cards_put_total;
    put_success = m.cards_put_success;
    put_rejected = m.cards_put_rejected;
    get_total = m.cards_get_total;
    get_found = m.cards_get_found;
    get_not_found = m.cards_get_not_found;
  };
  latency_us = record {
    put_avg = average m.put_latency_sum_us m.cards_put_success;
    get_avg = average m.get_latency_sum_us m.cards_get_found;
  };
  dht = record {
    records_stored = m.dht_records_stored;
    peers_connected = m.dht_peers_connected;
    queries_in = m.dht_queries_in;
    queries_out = m.dht_queries_out;
  };
  http = record { requests_total = m.http_requests_total; errors_total = m.http_errors_total };
  signature = record { verify_ok = m.sig_verify_ok; verify_fail = m.sig_verify_fail };
}
