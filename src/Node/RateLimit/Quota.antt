-- ===== src/Node/RateLimit/Quota.antt =====
-- Publications one after another, each asked for before it is recorded, stay within the quota.
use p2s.Prelude.{
  ℕ, ◌+◌, ◌%◌, ◌^◌, ◌≤◌, ◌<◌, ◌≡◌, refl, ◌∙◌, inl, inr, Bool, true, false, Option, none, some, List,
  [], ◌∷◌, arith, if◌then◌else◌, Bool-cases, nat_eq, list_beq, list_eq, lookup, lookup-insert, Text,
}
use p2s.Node.RateLimit.{
  RateLimiter, RateLimitResult, allowed, too_many_cards, cooldown_active, check, count_or_zero,
  record_publish,
}
use p2s.Node.RateLimit.Limits.{count_of, check_iff, HasSlot}

abbrev pub is_allowed : RateLimitResult → Bool
is_allowed allowed = true
is_allowed (too_many_cards d c m) = false
is_allowed (cooldown_active d s) = false

is_allowed-allowed : (r : RateLimitResult) → is_allowed r ≡ true → r ≡ allowed
is_allowed-allowed allowed h = refl
is_allowed-allowed (too_many_cards d c m) h = cc
is_allowed-allowed (cooldown_active d s) h = cc

-- A publication for a domain at a time, recorded if it is allowed.
abbrev pub guarded : RateLimiter → Text × ℕ → RateLimiter
guarded l (domain, now) = if is_allowed (check l domain now) then record_publish l domain now else l

abbrev pub all_guarded : RateLimiter → List (Text × ℕ) → RateLimiter
all_guarded l [] = l
all_guarded l (publication ∷ publications) = all_guarded (guarded l publication) publications

count-HasSlot : (max : ℕ) (o : Option ℕ) → 1 ≤ max → HasSlot max o → count_or_zero o < max
unfolding count_or_zero
count-HasSlot max none m s = omega (arith, m)
count-HasSlot max (some n) m s = s n refl

count-record_publish :
    (l : RateLimiter) (domain other : Text) (now : ℕ)
    → count_of (record_publish l domain now) other
      ≡ (if list_beq domain other then (count_of l domain + 1) % 2 ^ 64 else count_of l other)
unfolding record_publish count_of count_or_zero
count-record_publish l domain other now = ground (
  arith,
  lookup-insert domain other ((count_or_zero (lookup domain l.domain_card_count) + 1) % 2 ^ 64)
      l.domain_card_count,
)

record-Within :
    (l : RateLimiter) (domain other : Text) (now : ℕ)
    → count_of l domain < l.max_cards
    → l.max_cards < 2 ^ 64
    → count_of l other ≤ l.max_cards
    → count_of (record_publish l domain now) other ≤ l.max_cards
record-Within l domain other now slot small within =
    ground (arith, count-record_publish l domain other now)

-- The count of a domain is within the quota, and the quota fits a counter of 64 bits and allows one.
pub record IsWithin (l : RateLimiter) (other : Text) : Type 0 where
  pub positive : 1 ≤ l.max_cards
  pub small : l.max_cards < 2 ^ 64
  pub within : count_of l other ≤ l.max_cards

same_quota :
    (l : RateLimiter) (domain : Text) (now : ℕ)
    → (record_publish l domain now).max_cards ≡ l.max_cards
unfolding record_publish
same_quota l domain now = refl

recorded-IsWithin :
    (l : RateLimiter) (other domain : Text) (now : ℕ)
    → IsWithin l other
    → check l domain now ≡ allowed
    → IsWithin (record_publish l domain now) other
unfolding count_of
recorded-IsWithin l other domain now w h =
    let quota = same_quota l domain now in
    let slot =
      count-HasSlot l.max_cards (lookup domain l.domain_card_count) w.positive
        ((check_iff l domain now).0 h).0 in
    record {
      positive = rw quota w.positive;
      small = rw quota w.small;
      within = rw quota (record-Within l domain other now slot w.small w.within);
    }

guarded-IsWithin :
    (l : RateLimiter) (other domain : Text) (now : ℕ)
    → IsWithin l other
    → IsWithin (guarded l (domain, now)) other × ((guarded l (domain, now)).max_cards ≡ l.max_cards)
guarded-IsWithin l other domain now w = elim (Bool-cases (is_allowed (check l domain now))) [
  | inr e ↦ rw e (w, refl)
  | inl e ↦
      rw e
        (recorded-IsWithin l other domain now w (is_allowed-allowed _ e), same_quota l domain now)
]

-- From a state in which a domain is within the quota, any publications for any domains, each asked for
-- and then recorded before the next one is asked for, leave it within the same quota.
pub all_guarded-IsWithin :
    (l : RateLimiter) (other : Text) (publications : List (Text × ℕ))
    → IsWithin l other
    → IsWithin (all_guarded l publications) other
      × ((all_guarded l publications).max_cards ≡ l.max_cards)
all_guarded-IsWithin l other [] w = (w, refl)
all_guarded-IsWithin l other ((domain, now) ∷ publications) w =
    let (after, quota) = guarded-IsWithin l other domain now w in
    let (rest, same) = all_guarded-IsWithin (guarded l (domain, now)) other publications after in
    (rest, same ∙ quota)
