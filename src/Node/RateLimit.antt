-- ===== src/Node/RateLimit.antt =====
-- node/src/rate_limit.rs: at most so many cards for a domain, and a pause between two publications.
-- An `Instant` and a `Duration` are numbers of nanoseconds, the clock is an argument, and a count is
-- a `usize` of 64 bits.
pub mod Limits
pub mod Quota
use p2s.Prelude.{
  ℕ, zero, ◌+◌, ◌-◌, ◌*◌, ◌/◌, ◌%◌, ◌^◌, Option, none, some, [], ltb, leb, if◌then◌else◌, nat_eq,
  list_eq, HashMap, lookup, insert, Text,
}

abbrev pub nanos : ℕ
nanos = 1000000000

abbrev pub max_cards_per_domain : ℕ
max_cards_per_domain = 10

abbrev pub publish_cooldown : ℕ
publish_cooldown = 60 * nanos

pub record RateLimiter : Type 0 where
  pub domain_card_count : HashMap Text ℕ
  pub domain_last_publish : HashMap Text ℕ
  pub max_cards : ℕ
  pub cooldown : ℕ

pub data RateLimitResult : Type 0 where
  allowed : RateLimitResult
  too_many_cards : (domain : Text) (count max : ℕ) → RateLimitResult
  cooldown_active : (domain : Text) (remaining_secs : ℕ) → RateLimitResult

unfoldable pub with_params : ℕ → ℕ → RateLimiter
with_params max_cards cooldown = record {
  domain_card_count = [];
  domain_last_publish = [];
  max_cards = max_cards;
  cooldown = cooldown;
}

unfoldable pub new_limiter : RateLimiter
new_limiter = record {
  domain_card_count = [];
  domain_last_publish = [];
  max_cards = max_cards_per_domain;
  cooldown = publish_cooldown;
}

-- The second half of `check`: the pause since the last publication. `elapsed` saturates at zero.
unfoldable pub check_cooldown : RateLimiter → Text → ℕ → Option ℕ → RateLimitResult
check_cooldown l domain now none = allowed
check_cooldown l domain now (some last) =
    let elapsed = now - last in
    if ltb elapsed l.cooldown
    then cooldown_active domain ((l.cooldown - elapsed) / nanos + 1)
    else allowed

-- The first half: the number of cards.
unfoldable pub check_count : RateLimiter → Text → ℕ → Option ℕ → RateLimitResult
check_count l domain now none = check_cooldown l domain now (lookup domain l.domain_last_publish)
check_count l domain now (some count) =
    if leb l.max_cards count
    then too_many_cards domain count l.max_cards
    else check_cooldown l domain now (lookup domain l.domain_last_publish)

unfoldable pub check : RateLimiter → Text → ℕ → RateLimitResult
check l domain now = check_count l domain now (lookup domain l.domain_card_count)

-- `entry(domain).or_insert(0)`
unfoldable pub count_or_zero : Option ℕ → ℕ
count_or_zero none = 0
count_or_zero (some n) = n

unfoldable pub record_publish : RateLimiter → Text → ℕ → RateLimiter
record_publish l domain now = record l {
  domain_card_count =
      insert domain ((count_or_zero (lookup domain l.domain_card_count) + 1) % 2 ^ 64)
        l.domain_card_count;
  domain_last_publish = insert domain now l.domain_last_publish;
}

decremented : Text → Option ℕ → HashMap Text ℕ → HashMap Text ℕ
decremented domain none m = m
decremented domain (some count) m = insert domain (count - 1) m

pub remove_card : RateLimiter → Text → RateLimiter
remove_card l domain = record l {
  domain_card_count = decremented domain (lookup domain l.domain_card_count) l.domain_card_count;
}
