-- ===== src/Node/Metrics/Buckets.antt =====
-- The latency histogram: each bucket counts the latencies between two bounds.
use p2s.Prelude.{
  ℕ, zero, suc, ◌^◌, ◌≤◌, ◌<◌, ◌≡◌, refl, ap, ◌∙◌, Bool, true, ◌&&◌, ◌||◌, List, [], ◌∷◌, arith,
  ltb, leb, ◌==◌, if◌then◌else◌, nat_eq, list_eq, length, all,
}
use p2s.Node.Metrics.{
  Metrics, new_metrics, bucket_index, bucket_from, bucket_bounds_us, bump, record_put_latency,
  wrapping_add,
}

-- The `i`-th element, or a default.
abbrev pub nth : ℕ → ℕ → List ℕ → ℕ
nth d i [] = d
nth d zero (x ∷ xs) = x
nth d (suc i) (x ∷ xs) = nth d i xs

-- A latency from the bound before bucket `i` (0 for the first) to below the bound of bucket `i` (the
-- last bucket has none).
abbrev pub in_bucket : ℕ → ℕ → Bool
in_bucket i us =
    leb (nth 0 i (0 ∷ bucket_bounds_us)) us && (leb 7 i || ltb us (nth 0 i bucket_bounds_us))

bucket_index_lem : (i us : ℕ) → i ≤ 7 → (bucket_index us == i) ≡ in_bucket i us
unfolding bucket_index bucket_from
bucket_index_lem zero us h = ground arith
bucket_index_lem (suc zero) us h = ground arith
bucket_index_lem (suc (suc zero)) us h = ground arith
bucket_index_lem (suc (suc (suc zero))) us h = ground arith
bucket_index_lem (suc (suc (suc (suc zero)))) us h = ground arith
bucket_index_lem (suc (suc (suc (suc (suc zero))))) us h = ground arith
bucket_index_lem (suc (suc (suc (suc (suc (suc zero)))))) us h = ground arith
bucket_index_lem (suc (suc (suc (suc (suc (suc (suc zero))))))) us h = ground arith
bucket_index_lem (suc (suc (suc (suc (suc (suc (suc (suc i)))))))) us h = absurd (omega (arith, h))

nth-bump :
    (i j : ℕ) (ns : List ℕ)
    → i < length ns
    → nth 0 i (bump j ns) ≡ (if j == i then wrapping_add (nth 0 i ns) 1 else nth 0 i ns)
unfolding bump
nth-bump i j [] h = absurd (omega (arith, h))
nth-bump zero zero (n ∷ ns) h = refl
nth-bump zero (suc j) (n ∷ ns) h = ground arith
nth-bump (suc i) zero (n ∷ ns) h = ground arith
nth-bump (suc i) (suc j) (n ∷ ns) h = ground (arith, nth-bump i j ns)

length-bump : (j : ℕ) (ns : List ℕ) → length (bump j ns) ≡ length ns
unfolding bump
length-bump j [] = refl
length-bump zero (n ∷ ns) = refl
length-bump (suc j) (n ∷ ns) = ap suc (length-bump j ns)

-- The latencies in the `i`-th bucket.
abbrev pub count_in : ℕ → List ℕ → ℕ
count_in i [] = 0
count_in i (us ∷ latencies) =
    if in_bucket i us then suc (count_in i latencies) else count_in i latencies

-- A run of puts: the first latency of the list is recorded last.
abbrev pub record_puts : List ℕ → Metrics → Metrics
record_puts [] m = m
record_puts (us ∷ latencies) m = record_put_latency us (record_puts latencies m)

count_in-bound : (i : ℕ) (latencies : List ℕ) → count_in i latencies ≤ length latencies
count_in-bound i [] = omega arith
count_in-bound i (us ∷ latencies) = ground (arith, count_in-bound i latencies)

length-record_puts :
    (latencies : List ℕ) → length (record_puts latencies new_metrics).put_latency_buckets ≡ 8
unfolding record_put_latency new_metrics
length-record_puts [] = refl
length-record_puts (us ∷ latencies) = length-bump (bucket_index us) _ ∙ length-record_puts latencies

nth-zeros : (i : ℕ) (ns : List ℕ) → all (λ n. n == 0) ns ≡ true → nth 0 i ns ≡ 0
nth-zeros i [] h = refl
nth-zeros zero (n ∷ ns) h = ground arith
nth-zeros (suc i) (n ∷ ns) h = nth-zeros i ns (ground arith)

fresh_bucket : (i : ℕ) → nth 0 i new_metrics.put_latency_buckets ≡ 0
unfolding new_metrics
fresh_bucket i = nth-zeros i new_metrics.put_latency_buckets refl

-- After any run of fewer than 2^64 puts from a fresh start, each of the eight buckets holds the number
-- of latencies between its bounds.
pub record_puts_lem :
    (i : ℕ) (latencies : List ℕ)
    → i ≤ 7
    → length latencies < 2 ^ 64
    → nth 0 i (record_puts latencies new_metrics).put_latency_buckets ≡ count_in i latencies
unfolding record_put_latency
record_puts_lem i [] h k = fresh_bucket i
record_puts_lem i (us ∷ latencies) h k = ground (
  arith,
  nth-bump i (bucket_index us) (record_puts latencies new_metrics).put_latency_buckets,
  length-record_puts latencies,
  record_puts_lem i latencies h,
  count_in-bound i latencies,
  bucket_index_lem i us h,
)
