-- ===== src/Verifier/Sanitize/Ends.antt =====
-- The loops of the filter end: their fuel is enough, whatever the text and its lower case.
use p2s.Prelude.{
  ℕ, zero, suc, ◌+◌, ◌-◌, ◌≤◌, ◌<◌, ◌≡◌, refl, ◌≢◌, inl, inr, Bool, true, false, ◌&&◌, [], ◌∷◌,
  ◌++◌, arith, ltb, leb, if◌then◌else◌, Bool-cases, Option-cases, nat_eq, list_eq, length, ok, err,
  ◌>>=◌, Text, codes, contains,
}
use p2s.Verifier.Slices.{
  panic, out_of_fuel, Run, byte_len, len_utf8, slice_from, slice_to, slice, find,
}
use p2s.Verifier.Sanitize.{comments_loop, tag_pair_loop, meta_loop}

-- A run that does not end for want of fuel.
abbrev pub Ends : {A : Type 0} → Run A → Type 0
Ends r = r ≢ err out_of_fuel

pub ok-Ends : {A : Type 0} (a : A) → Ends (ok a)
ok-Ends a h = cc

pub bind-Ends :
    {A B : Type 0} (m : Run A) (f : A → Run B)
    → Ends m
    → ((a : A) → m ≡ ok a → Ends (f a))
    → Ends (m >>= f)
bind-Ends (ok a) f e g = g a refl
bind-Ends (err panic) f e g = λ h. cc
bind-Ends (err out_of_fuel) f e g = λ h. e refl

pub slice_from-Ends : (k : ℕ) (s : Text) → Ends (slice_from k s)
unfolding slice_from
slice_from-Ends zero s = λ h. cc
slice_from-Ends (suc n) [] = λ h. cc
slice_from-Ends (suc n) (c ∷ s) = elim (Bool-cases (leb (len_utf8 c) (suc n))) [
  | inl e ↦ rw (e, slice_from) (slice_from-Ends (suc n - len_utf8 c) s)
  | inr e ↦ rw (e, slice_from) (λ h. cc)
]

slice_to-Ends : (k : ℕ) (s : Text) → Ends (slice_to k s)
unfolding slice_to
slice_to-Ends zero s = λ h. cc
slice_to-Ends (suc n) [] = λ h. cc
slice_to-Ends (suc n) (c ∷ s) = elim (Bool-cases (leb (len_utf8 c) (suc n))) [
  | inl e ↦
      rw (e, slice_to)
        (bind-Ends (slice_to (suc n - len_utf8 c) s) (λ r. ok (c ∷ r))
          (slice_to-Ends (suc n - len_utf8 c) s) (λ r q. ok-Ends (c ∷ r)))
  | inr e ↦ rw (e, slice_to) (λ h. cc)
]

pub slice-Ends : (a b : ℕ) (s : Text) → Ends (slice a b s)
unfolding slice
slice-Ends a b s = elim (Bool-cases (ltb b a)) [
  | inl e ↦ rw (e, slice) (λ h. cc)
  | inr e ↦
      rw (e, slice)
        (bind-Ends (slice_from a s) (λ tail. slice_to (b - a) tail) (slice_from-Ends a s)
          (λ tail q. slice_to-Ends (b - a) tail))
]

-- What is behind an offset is no longer than the text, and shorter if the offset is not zero.
slice_from-length : (k : ℕ) (s r : Text) → slice_from k s ≡ ok r → length r ≤ length s
unfolding slice_from
slice_from-length zero s r h = ground (arith, h)
slice_from-length (suc n) [] r h = absurd (ground (arith, h))
slice_from-length (suc n) (c ∷ s) r h = elim (Bool-cases (leb (len_utf8 c) (suc n))) [
  | inl e ↦ omega (arith, slice_from-length (suc n - len_utf8 c) s r (ground (arith, h, e)))
  | inr e ↦ absurd (ground (arith, h, e))
]

slice_from-shorter : (k : ℕ) (s r : Text) → 1 ≤ k → slice_from k s ≡ ok r → length r < length s
unfolding slice_from
slice_from-shorter zero s r p h = absurd (omega (arith, p))
slice_from-shorter (suc n) [] r p h = absurd (ground (arith, h))
slice_from-shorter (suc n) (c ∷ s) r p h = elim (Bool-cases (leb (len_utf8 c) (suc n))) [
  | inl e ↦ omega (arith, slice_from-length (suc n - len_utf8 c) s r (ground (arith, h, e)))
  | inr e ↦ absurd (ground (arith, h, e))
]

pub comments_loop-Ends :
    (fuel : ℕ) (remaining result : Text)
    → length remaining < fuel
    → Ends (comments_loop fuel remaining result)
unfolding comments_loop
comments_loop-Ends zero remaining result b = absurd (omega (arith, b))
comments_loop-Ends (suc fuel) remaining result b =
    elim (Option-cases (find remaining (codes "<!--"))) [
      | inl e ↦ rw (e, comments_loop) (ok-Ends _)
      | inr (start, e) ↦
          rw (e, comments_loop)
            (bind-Ends (slice_to start remaining) _ (slice_to-Ends start remaining) (λ before q.
              bind-Ends (slice_from start remaining) _ (slice_from-Ends start remaining)
                (λ after q'. elim (Option-cases (find after (codes "-->"))) [
                  | inl f ↦ rw f (ok-Ends _)
                  | inr (end, f) ↦ rw f (
                      bind-Ends (slice_from (start + end + 3) remaining) _
                        (slice_from-Ends (start + end + 3) remaining)
                        (λ rest q''. comments_loop-Ends fuel rest (result ++ before) (
                          omega (
                            arith,
                            slice_from-shorter (start + end + 3) remaining rest (omega arith) q'',
                            b,
                          ))))
                ])))
    ]

pub tag_pair_loop-Ends :
    (fuel : ℕ) (open_tag close remaining lower_remaining result : Text)
    → 1 ≤ byte_len close
    → length lower_remaining < fuel
    → Ends (tag_pair_loop fuel open_tag close remaining lower_remaining result)
unfolding tag_pair_loop
tag_pair_loop-Ends zero open_tag close remaining lower result c b = absurd (omega (arith, b))
tag_pair_loop-Ends (suc fuel) open_tag close remaining lower result c b =
    elim (Option-cases (find lower open_tag)) [
      | inl e ↦ rw (e, tag_pair_loop) (ok-Ends _)
      | inr (start, e) ↦
          rw (e, tag_pair_loop)
            (bind-Ends (slice_to start remaining) _ (slice_to-Ends start remaining) (λ before q.
              bind-Ends (slice_from start lower) _ (slice_from-Ends start lower) (λ after q'.
                elim (Option-cases (find after close)) [
                  | inl f ↦ rw f (ok-Ends _)
                  | inr (end, f) ↦
                      let skip = start + (end + byte_len close) in
                      rw f (
                        bind-Ends (slice_from skip remaining) _ (slice_from-Ends skip remaining)
                          (λ rest q''.
                            bind-Ends (slice_from skip lower) _ (slice_from-Ends skip lower)
                              (λ lower_rest l.
                                tag_pair_loop-Ends fuel open_tag close rest lower_rest
                                  (result ++ before) c
                                  (omega (
                                    arith,
                                    slice_from-shorter skip lower lower_rest (omega (arith, c)) l,
                                    b,
                                  )))))
                ])))
    ]

if-Ends : {A : Type 0} (b : Bool) (x y : Run A) → Ends x → Ends y → Ends (if b then x else y)
if-Ends true x y e f = e
if-Ends false x y e f = f

pub meta_loop-Ends :
    (fuel : ℕ) (remaining lower_remaining result : Text)
    → length lower_remaining < fuel
    → Ends (meta_loop fuel remaining lower_remaining result)
unfolding meta_loop
meta_loop-Ends zero remaining lower result b = absurd (omega (arith, b))
meta_loop-Ends (suc fuel) remaining lower result b =
    elim (Option-cases (find lower (codes "<meta"))) [
      | inl e ↦ rw (e, meta_loop) (ok-Ends _)
      | inr (start, e) ↦
          rw (e, meta_loop)
            (bind-Ends (slice_to start remaining) _ (slice_to-Ends start remaining) (λ before q.
              bind-Ends (slice_from start remaining) _ (slice_from-Ends start remaining)
                (λ after q'. elim (Option-cases (find after (codes ">"))) [
                  | inl f ↦ rw f (ok-Ends _)
                  | inr (end, f) ↦
                      let stop = start + end + 1 in
                      rw f (
                        bind-Ends (slice start stop lower) _ (slice-Ends start stop lower)
                          (λ tag q1.
                            bind-Ends _ _
                              (if-Ends (contains tag (codes "content=") && ltb 200 (byte_len tag))
                                (ok []) (slice start stop remaining) (ok-Ends _)
                                (slice-Ends start stop remaining))
                              (λ kept q2.
                                bind-Ends (slice_from stop remaining) _
                                  (slice_from-Ends stop remaining)
                                  (λ rest q3.
                                    bind-Ends (slice_from stop lower) _ (slice_from-Ends stop lower)
                                      (λ lower_rest l.
                                        meta_loop-Ends fuel rest lower_rest
                                          (result ++ (before ++ kept))
                                          (omega (
                                            arith,
                                            slice_from-shorter stop lower lower_rest (omega arith)
                                                l,
                                            b,
                                          )))))))
                ])))
    ]
