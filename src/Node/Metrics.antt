-- ===== src/Node/Metrics.antt =====
-- node/src/metrics.rs: the node's counters. Each is an atomic number of 64 bits that wraps around;
-- the two arrays of latency buckets are lists of eight counters.
pub mod Buckets
pub mod Render
use p2s.Prelude.{
  ℕ, zero, suc, ◌+◌, ◌%◌, ◌^◌, ◌<◌, List, [], ◌∷◌, ltb, if◌then◌else◌, nat_eq, list_eq,
}

pub record Metrics : Type 0 where
  pub cards_put_total : ℕ
  pub cards_put_success : ℕ
  pub cards_put_rejected : ℕ
  pub cards_get_total : ℕ
  pub cards_get_found : ℕ
  pub cards_get_not_found : ℕ
  pub put_latency_buckets : List ℕ
  pub get_latency_buckets : List ℕ
  pub put_latency_sum_us : ℕ
  pub get_latency_sum_us : ℕ
  pub dht_records_stored : ℕ
  pub dht_peers_connected : ℕ
  pub dht_queries_in : ℕ
  pub dht_queries_out : ℕ
  pub http_requests_total : ℕ
  pub http_errors_total : ℕ
  pub sig_verify_ok : ℕ
  pub sig_verify_fail : ℕ

abbrev eight_zeros : List ℕ
eight_zeros = 0 ∷ 0 ∷ 0 ∷ 0 ∷ 0 ∷ 0 ∷ 0 ∷ 0 ∷ []

pub new_metrics : Metrics
new_metrics = record {
  cards_put_total = 0;
  cards_put_success = 0;
  cards_put_rejected = 0;
  cards_get_total = 0;
  cards_get_found = 0;
  cards_get_not_found = 0;
  put_latency_buckets = eight_zeros;
  get_latency_buckets = eight_zeros;
  put_latency_sum_us = 0;
  get_latency_sum_us = 0;
  dht_records_stored = 0;
  dht_peers_connected = 0;
  dht_queries_in = 0;
  dht_queries_out = 0;
  http_requests_total = 0;
  http_errors_total = 0;
  sig_verify_ok = 0;
  sig_verify_fail = 0;
}

-- `fetch_add`
abbrev pub wrapping_add : ℕ → ℕ → ℕ
wrapping_add a b = (a + b) % 2 ^ 64

abbrev pub inc_put_total : Metrics → Metrics
inc_put_total m = record m { cards_put_total = wrapping_add m.cards_put_total 1 }

abbrev pub inc_put_success : Metrics → Metrics
inc_put_success m = record m { cards_put_success = wrapping_add m.cards_put_success 1 }

abbrev pub inc_put_rejected : Metrics → Metrics
inc_put_rejected m = record m { cards_put_rejected = wrapping_add m.cards_put_rejected 1 }

abbrev pub inc_get_total : Metrics → Metrics
inc_get_total m = record m { cards_get_total = wrapping_add m.cards_get_total 1 }

abbrev pub inc_get_found : Metrics → Metrics
inc_get_found m = record m { cards_get_found = wrapping_add m.cards_get_found 1 }

abbrev pub inc_get_not_found : Metrics → Metrics
inc_get_not_found m = record m { cards_get_not_found = wrapping_add m.cards_get_not_found 1 }

abbrev pub inc_http_requests : Metrics → Metrics
inc_http_requests m = record m { http_requests_total = wrapping_add m.http_requests_total 1 }

abbrev pub inc_http_errors : Metrics → Metrics
inc_http_errors m = record m { http_errors_total = wrapping_add m.http_errors_total 1 }

abbrev pub inc_sig_ok : Metrics → Metrics
inc_sig_ok m = record m { sig_verify_ok = wrapping_add m.sig_verify_ok 1 }

abbrev pub inc_sig_fail : Metrics → Metrics
inc_sig_fail m = record m { sig_verify_fail = wrapping_add m.sig_verify_fail 1 }

abbrev pub inc_dht_queries_in : Metrics → Metrics
inc_dht_queries_in m = record m { dht_queries_in = wrapping_add m.dht_queries_in 1 }

abbrev pub inc_dht_queries_out : Metrics → Metrics
inc_dht_queries_out m = record m { dht_queries_out = wrapping_add m.dht_queries_out 1 }

abbrev pub set_peers : ℕ → Metrics → Metrics
set_peers n m = record m { dht_peers_connected = n }

abbrev pub set_records : ℕ → Metrics → Metrics
set_records n m = record m { dht_records_stored = n }

abbrev pub bucket_bounds_us : List ℕ
bucket_bounds_us = 1000 ∷ 5000 ∷ 10000 ∷ 50000 ∷ 100000 ∷ 500000 ∷ 1000000 ∷ []

-- `position(|&b| us < b).unwrap_or(7)`, over the bounds from the `i`-th on
pub bucket_from : ℕ → List ℕ → ℕ → ℕ
bucket_from i [] us = 7
bucket_from i (b ∷ bounds) us =
    let later = bucket_from (suc i) bounds us in if ltb us b then i else later

pub bucket_index : ℕ → ℕ
unfolding bucket_from
bucket_index us = bucket_from 0 bucket_bounds_us us

-- `buckets[i].fetch_add(1)`
pub bump : ℕ → List ℕ → List ℕ
bump i [] = []
bump zero (n ∷ ns) = wrapping_add n 1 ∷ ns
bump (suc i) (n ∷ ns) = n ∷ bump i ns

pub record_put_latency : ℕ → Metrics → Metrics
record_put_latency us m = record m {
  put_latency_sum_us = wrapping_add m.put_latency_sum_us us;
  put_latency_buckets = bump (bucket_index us) m.put_latency_buckets;
}

pub record_get_latency : ℕ → Metrics → Metrics
record_get_latency us m = record m {
  get_latency_sum_us = wrapping_add m.get_latency_sum_us us;
  get_latency_buckets = bump (bucket_index us) m.get_latency_buckets;
}
