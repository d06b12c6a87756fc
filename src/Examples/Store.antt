-- ===== src/Examples/Store.antt =====
-- Witnesses of the theorems on the record store and the rate limiter.
use p2s.Prelude.{
  ℕ, ◌+◌, ◌*◌, ◌≤◌, ◌≡◌, refl, ◌↔◌, Option, none, some, [], ◌∷◌, arith, nat_eq, list_eq, ok, lookup,
  insert, Text, codes,
}
use p2s.Card.{verify_card, verify_address, compute_address}
use p2s.Proto.{canonical_decode}
use p2s.Node.RecordStore.{
  new_store, validate_and_extract_seq, put, write, supersede, with_persistence, load_from_disk,
  load_entries, load_entry, load_weight_tree,
}
use p2s.Node.RecordStore.Validity.{Call, puts, run, step, IsCardAt, run-with_persistence}
use p2s.Node.RecordStore.Versions.{Store, put_order}
use p2s.Node.Sled.{Database}
use p2s.Node.RateLimit.{
  RateLimiter, allowed, cooldown_active, with_params, check, check_count, check_cooldown,
  record_publish, nanos, count_or_zero,
}
use p2s.Node.RateLimit.Quota.{IsWithin, all_guarded, all_guarded-IsWithin}
use p2s.Node.RateLimit.Limits.{count_of, HasSlot, Rested, check_iff, check-wait}
use p2s.Examples.Toy.{toy_platform, toy_float, toy_sled, signed_card_coding}
use p2s.Examples.Data.{toy_card, toy_address, toy_disk_record}

toy_valid :
    (n : ℕ) → validate_and_extract_seq toy_platform toy_float toy_sled (toy_disk_record n) ≡ ok n
unfolding validate_and_extract_seq canonical_decode verify_card verify_address compute_address
toy_valid n = ground arith

-- A database that holds version 1 of the card.
abbrev toy_database : Option (Database toy_sled)
toy_database = some (record {
  cards = (toy_address, signed_card_coding.write (toy_card 1) []) ∷ [];
  weights = none;
})

abbrev started : Store toy_platform toy_float toy_sled
started = with_persistence toy_platform toy_float toy_sled 10 toy_database

abbrev update : Call toy_platform toy_float toy_sled
update = puts (toy_disk_record 2)

toy_stored :
    lookup toy_address (run toy_platform toy_float toy_sled started (update ∷ [])).records
    ≡ some (toy_disk_record 2)
unfolding run step with_persistence load_from_disk load_entries load_entry load_weight_tree put
    supersede write new_store lookup insert validate_and_extract_seq canonical_decode verify_card
    verify_address compute_address
toy_stored = refl

run-with_persistence_example :
    IsCardAt toy_platform toy_float toy_sled
      (run toy_platform toy_float toy_sled started (update ∷ []))
      toy_address
      (toy_disk_record 2)
run-with_persistence_example =
    run-with_persistence toy_platform toy_float toy_sled 10 toy_database (update ∷ []) toy_address
      (toy_disk_record 2) toy_stored

abbrev empty_store : Store toy_platform toy_float toy_sled
empty_store = new_store toy_platform toy_float toy_sled 10

abbrev put_toy : Store toy_platform toy_float toy_sled → ℕ → Store toy_platform toy_float toy_sled
put_toy s n = (put toy_platform toy_float toy_sled s (toy_disk_record n)).0

put_order_example :
    (lookup toy_address (put_toy (put_toy empty_store 2) 5).records
      ≡ lookup toy_address (put_toy (put_toy empty_store 5) 2).records)
    × (lookup toy_address (put_toy (put_toy empty_store 2) 5).seq_cache
        ≡ lookup toy_address (put_toy (put_toy empty_store 5) 2).seq_cache)
unfolding new_store
put_order_example =
    put_order toy_platform toy_float toy_sled empty_store (toy_disk_record 2) (toy_disk_record 5) 2
      5 toy_address (toy_valid 2) (toy_valid 5) refl (λ e. ground (arith, e)) refl

abbrev limiter : RateLimiter
limiter = with_params 2 (60 * nanos)

abbrev a_domain : Text
a_domain = codes "a.example"

abbrev published : RateLimiter
published = record_publish limiter a_domain nanos

check_iff_example : (check published a_domain (90 * nanos) ≡ allowed) ↔ (
    HasSlot published.max_cards (lookup a_domain published.domain_card_count)
    × Rested published.cooldown (90 * nanos) (lookup a_domain published.domain_last_publish))
check_iff_example = check_iff published a_domain (90 * nanos)

toy_denied : check published a_domain (31 * nanos) ≡ cooldown_active a_domain 31
unfolding check check_count check_cooldown record_publish with_params lookup insert count_or_zero
toy_denied = refl

toy_past :
    (last : ℕ) → lookup a_domain published.domain_last_publish ≡ some last → last ≤ 31 * nanos
unfolding record_publish with_params lookup insert
toy_past last e = ground (arith, e)

check-wait_example : check published a_domain (31 * nanos + 31 * nanos) ≡ allowed
check-wait_example = check-wait published a_domain (31 * nanos) 31 toy_past toy_denied

published-IsWithin : IsWithin published a_domain
unfolding record_publish with_params lookup insert count_or_zero count_of
published-IsWithin = record { positive = omega arith; small = omega arith; within = omega arith }

all_guarded-IsWithin_example :
    IsWithin
      (all_guarded published ((a_domain, 90 * nanos) ∷ (a_domain, 200 * nanos) ∷ []))
      a_domain
    × ((all_guarded published ((a_domain, 90 * nanos) ∷ (a_domain, 200 * nanos) ∷ [])).max_cards
        ≡ 2)
unfolding record_publish with_params
all_guarded-IsWithin_example =
    all_guarded-IsWithin published a_domain ((a_domain, 90 * nanos) ∷ (a_domain, 200 * nanos) ∷ [])
      published-IsWithin
