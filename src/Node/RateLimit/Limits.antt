-- ===== src/Node/RateLimit/Limits.antt =====
-- What the limiter enforces.
use p2s.Prelude.{
  ℕ, ◌+◌, ◌-◌, ◌*◌, ◌≤◌, ◌<◌, ◌≡◌, refl, ◌≢◌, ◌↔◌, inl, inr, Option, none, some, arith, ltb, leb,
  Bool-cases, nat_eq, list_beq_iff, list_eq, HashMap, lookup, insert, lookup-insert,
  lookup-insert_self, Text,
}
use p2s.Node.RateLimit.{
  RateLimiter, allowed, cooldown_active, nanos, check, check_count, check_cooldown, count_or_zero,
  record_publish,
}

-- The number of publications that the limiter has counted for a domain.
unfoldable pub count_of : RateLimiter → Text → ℕ
count_of l domain = count_or_zero (lookup domain l.domain_card_count)

-- The pause since the domain's last publication is over.
abbrev pub Rested : ℕ → ℕ → Option ℕ → Type 0
Rested cooldown now o = (last : ℕ) → o ≡ some last → cooldown ≤ now - last

check_cooldown-Rested :
    (l : RateLimiter) (domain : Text) (now : ℕ) (o : Option ℕ)
    → check_cooldown l domain now o ≡ allowed
    → Rested l.cooldown now o
unfolding check_cooldown
check_cooldown-Rested l domain now none h last e = absurd (ground (arith, e))
check_cooldown-Rested l domain now (some x) h last e =
    elim (Bool-cases (ltb (now - x) l.cooldown)) [
      | inl t ↦ absurd (ground (arith, h, t))
      | inr f ↦ ground (arith, e, f)
    ]

Rested-check_cooldown :
    (l : RateLimiter) (domain : Text) (now : ℕ) (o : Option ℕ)
    → Rested l.cooldown now o
    → check_cooldown l domain now o ≡ allowed
unfolding check_cooldown
Rested-check_cooldown l domain now none h = refl
Rested-check_cooldown l domain now (some x) h = ground (arith, h x refl)

-- No publication of the domain is counted, or fewer than the maximum.
abbrev pub HasSlot : ℕ → Option ℕ → Type 0
HasSlot max o = (count : ℕ) → o ≡ some count → count < max

check_count_sound :
    (l : RateLimiter) (domain : Text) (now : ℕ) (o : Option ℕ)
    → check_count l domain now o ≡ allowed
    → HasSlot l.max_cards o × Rested l.cooldown now (lookup domain l.domain_last_publish)
unfolding check_count
check_count_sound l domain now none h =
    ((λ count e. absurd (ground (arith, e))), check_cooldown-Rested l domain now _ h)
check_count_sound l domain now (some x) h = elim (Bool-cases (leb l.max_cards x)) [
  | inl t ↦ absurd (ground (arith, h, t))
  | inr f ↦ (
    (λ count e. ground (arith, e, f)),
    check_cooldown-Rested l domain now _ (ground (arith, h, f)),
  )
]

check_count_complete :
    (l : RateLimiter) (domain : Text) (now : ℕ) (o : Option ℕ)
    → HasSlot l.max_cards o
    → Rested l.cooldown now (lookup domain l.domain_last_publish)
    → check_count l domain now o ≡ allowed
unfolding check_count
check_count_complete l domain now none s r = Rested-check_cooldown l domain now _ r
check_count_complete l domain now (some x) s r =
    ground (arith, s x refl, Rested-check_cooldown l domain now _ r)

-- A publication is allowed exactly if the domain has counted fewer publications than the maximum (or
-- has no count) and its pause is over (or it has not published).
pub check_iff :
    (l : RateLimiter) (domain : Text) (now : ℕ)
    → (check l domain now ≡ allowed) ↔ (
        HasSlot l.max_cards (lookup domain l.domain_card_count)
        × Rested l.cooldown now (lookup domain l.domain_last_publish))
unfolding check
check_iff l domain now =
    (check_count_sound l domain now _, λ p. check_count_complete l domain now _ p.0 p.1)

lookup_other :
    {V : Type 0} (k j : Text) (v : V) (m : HashMap Text V)
    → j ≢ k
    → lookup j (insert k v m) ≡ lookup j m
lookup_other k j v m h = ground (arith, lookup-insert k j v m, list_beq_iff k j, h)

check_cooldown-record_publish :
    (l : RateLimiter) (domain other : Text) (now later : ℕ) (o : Option ℕ)
    → check_cooldown (record_publish l domain now) other later o ≡ check_cooldown l other later o
unfolding check_cooldown record_publish
check_cooldown-record_publish l domain other now later none = refl
check_cooldown-record_publish l domain other now later (some x) = refl

check_count-record_publish :
    (l : RateLimiter) (domain other : Text) (now later : ℕ) (o : Option ℕ)
    → other ≢ domain
    → check_count (record_publish l domain now) other later o ≡ check_count l other later o
unfolding check_count record_publish
check_count-record_publish l domain other now later none h =
    rw (lookup_other domain other now l.domain_last_publish h)
      (check_cooldown-record_publish l domain other now later _)
check_count-record_publish l domain other now later (some n) h =
    rw
      (
        lookup_other domain other now l.domain_last_publish h,
        check_cooldown-record_publish l domain other now later (lookup other l.domain_last_publish),
      )
      refl

counts_other :
    (l : RateLimiter) (domain other : Text) (now : ℕ)
    → other ≢ domain
    → lookup other (record_publish l domain now).domain_card_count
      ≡ lookup other l.domain_card_count
unfolding record_publish
counts_other l domain other now h = lookup_other domain other _ l.domain_card_count h

-- A publication that is recorded for one domain leaves every other domain's decisions as they were.
pub check-record_publish_other :
    (l : RateLimiter) (domain other : Text) (now later : ℕ)
    → other ≢ domain
    → check (record_publish l domain now) other later ≡ check l other later
unfolding check
check-record_publish_other l domain other now later h =
    rw (counts_other l domain other now h) (check_count-record_publish l domain other now later _ h)

recorded :
    (l : RateLimiter) (domain : Text) (now : ℕ)
    → lookup domain (record_publish l domain now).domain_last_publish ≡ some now
unfolding record_publish
recorded l domain now = lookup-insert_self domain now l.domain_last_publish

same_cooldown :
    (l : RateLimiter) (domain : Text) (now : ℕ)
    → (record_publish l domain now).cooldown ≡ l.cooldown
unfolding record_publish
same_cooldown l domain now = refl

-- The publication of a card is denied until the domain's pause is over.
pub check-record_publish :
    (l : RateLimiter) (domain : Text) (now later : ℕ)
    → later - now < l.cooldown
    → check (record_publish l domain now) domain later ≢ allowed
check-record_publish l domain now later h e = absurd (
    ground (
      arith,
      same_cooldown l domain now,
      ((check_iff (record_publish l domain now) domain later).0 e).1 now (recorded l domain now),
    ))

check_cooldown-wait :
    (l : RateLimiter) (domain : Text) (now wait : ℕ) (o : Option ℕ)
    → ((last : ℕ) → o ≡ some last → last ≤ now)
    → check_cooldown l domain now o ≡ cooldown_active domain wait
    → check_cooldown l domain (now + wait * nanos) o ≡ allowed
unfolding check_cooldown
check_cooldown-wait l domain now wait none past h = refl
check_cooldown-wait l domain now wait (some x) past h =
    elim (Bool-cases (ltb (now - x) l.cooldown)) [
      | inl t ↦ ground (arith, h, t, past x refl)
      | inr f ↦ absurd (ground (arith, h, f))
    ]

check_count-wait :
    (l : RateLimiter) (domain : Text) (now wait : ℕ) (o : Option ℕ)
    → ((last : ℕ) → lookup domain l.domain_last_publish ≡ some last → last ≤ now)
    → check_count l domain now o ≡ cooldown_active domain wait
    → check_count l domain (now + wait * nanos) o ≡ allowed
unfolding check_count
check_count-wait l domain now wait none past h = check_cooldown-wait l domain now wait _ past h
check_count-wait l domain now wait (some n) past h = elim (Bool-cases (leb l.max_cards n)) [
  | inl t ↦ absurd (ground (arith, h, t))
  | inr f ↦ rw f (check_cooldown-wait l domain now wait _ past (ground (arith, h, f)))
]

-- If the pause is not over, and the domain's last publication is in the past, then waiting for the
-- seconds that the refusal names is enough: the same question is then answered with `allowed`.
pub check-wait :
    (l : RateLimiter) (domain : Text) (now wait : ℕ)
    → ((last : ℕ) → lookup domain l.domain_last_publish ≡ some last → last ≤ now)
    → check l domain now ≡ cooldown_active domain wait
    → check l domain (now + wait * nanos) ≡ allowed
unfolding check
check-wait l domain now wait past h = check_count-wait l domain now wait _ past h
