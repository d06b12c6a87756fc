-- ===== src/Verifier/Slices/Cuts.antt =====
-- Where a text can be cut: an offset `k` with `slice_from k s ≡ ok r`.
use p2s.Prelude.{
  ℕ, zero, suc, ◌+◌, ◌-◌, ◌≤◌, ◌≡◌, refl, sym, ap, ◌∙◌, inl, inr, Bool, true, false, some, [], ◌∷◌,
  arith, ltb, leb, Bool-cases, Option-cases, nat_eq, list_eq, all, ok, reject_if, >>=-eq-ok,
  ok-injective, Text, utf8_char, starts_with,
}
use mathlib.Core.Path.{subst}
use p2s.Verifier.Slices.{
  panic, len_utf8, byte_len, slice_from, slice_to, slice, find, find_char, unwrap_or_zero,
}

pub len_utf8-pos : (c : ℕ) → 1 ≤ len_utf8 c
unfolding utf8_char
len_utf8-pos c = ground arith

slice_from-cons :
    (k c : ℕ) (s : Text) → len_utf8 c ≤ k → slice_from k (c ∷ s) ≡ slice_from (k - len_utf8 c) s
unfolding slice_from
slice_from-cons zero c s h = absurd (omega (arith, h, len_utf8-pos c))
slice_from-cons (suc n) c s h = ground (arith, h)

-- The same offset, written otherwise.
pub same_offset : {k j : ℕ} (s r : Text) → k ≡ j → slice_from k s ≡ ok r → slice_from j s ≡ ok r
same_offset s r e h = subst (λ n. slice_from n s ≡ ok r) e h

pub slice_from-len_utf8 : (c : ℕ) (s : Text) → slice_from (len_utf8 c) (c ∷ s) ≡ ok s
unfolding slice_from
slice_from-len_utf8 c s =
    slice_from-cons (len_utf8 c) c s (omega arith) ∙ same_offset {k = 0} s s (omega arith) refl

-- A cut of what is behind a cut.
pub slice_from-add :
    (k j : ℕ) (s r t : Text)
    → slice_from k s ≡ ok r
    → slice_from j r ≡ ok t
    → slice_from (k + j) s ≡ ok t
unfolding slice_from
slice_from-add zero j s r t h g =
    same_offset s t (omega arith) (ap (slice_from j) (ok-injective h) ∙ g)
slice_from-add (suc n) j [] r t h g = absurd (ground (arith, h))
slice_from-add (suc n) j (c ∷ s) r t h g = elim (Bool-cases (leb (len_utf8 c) (suc n))) [
  | inr e ↦ absurd (ground (arith, h, e))
  | inl e ↦
      slice_from-cons (suc n + j) c s (ground (arith, e))
      ∙ same_offset s t (ground (arith, e))
          (slice_from-add (suc n - len_utf8 c) j s r t (ground (arith, h, e)) g)
]

pub slice_to-ok : (k : ℕ) (s r : Text) → slice_from k s ≡ ok r → (a : Text) × (slice_to k s ≡ ok a)
unfolding slice_from slice_to
slice_to-ok zero s r h = ([], refl)
slice_to-ok (suc n) [] r h = absurd (ground (arith, h))
slice_to-ok (suc n) (c ∷ s) r h = elim (Bool-cases (leb (len_utf8 c) (suc n))) [
  | inr e ↦ absurd (ground (arith, h, e))
  | inl e ↦
      let (a, f) = slice_to-ok (suc n - len_utf8 c) s r (ground (arith, h, e)) in
      (c ∷ a, rw (e, slice_to, f) refl)
]

-- The cuts on either side of a slice.
pub slice-ok :
    (a j : ℕ) (s r t : Text)
    → slice_from a s ≡ ok r
    → slice_from j r ≡ ok t
    → (m : Text) × (slice a (a + j) s ≡ ok m)
unfolding slice
slice-ok a j s r t h g =
    let (m, f) = slice_to-ok j r t g in
    let back : a + j - a ≡ j = omega arith in
    let forward : ltb (a + j) a ≡ false = ground arith in (m, rw (forward, h, back) f)

-- What is found begins at a cut.
pub find-cut :
    (s pat : Text) (i : ℕ)
    → find s pat ≡ some i
    → (r : Text) × (slice_from i s ≡ ok r) × (starts_with r pat ≡ true)
unfolding find slice_from
find-cut [] pat i h = elim (Bool-cases (starts_with [] pat)) [
  | inr e ↦ absurd (ground (arith, h, e))
  | inl e ↦ ([], same_offset {k = 0} [] [] (ground (arith, h, e)) refl, e)
]
find-cut (c ∷ s) pat i h = elim (Bool-cases (starts_with (c ∷ s) pat)) [
  | inl e ↦ (c ∷ s, same_offset {k = 0} (c ∷ s) (c ∷ s) (ground (arith, h, e)) refl, e)
  | inr e ↦ elim (Option-cases (find s pat)) [
    | inl f ↦ absurd (ground (arith, h, e, f))
    | inr (j, f) ↦
        let (r, g, b) = find-cut s pat j f in
        (
          r,
          same_offset (c ∷ s) r (ground (arith, h, e, f))
              (slice_from-add (len_utf8 c) j (c ∷ s) s r (slice_from-len_utf8 c s) g),
          b,
        )
  ]
]

pub find_char-cut :
    (p : ℕ → Bool) (s : Text) → (r : Text) × (slice_from (unwrap_or_zero (find_char p s)) s ≡ ok r)
unfolding find_char slice_from
find_char-cut p [] = ([], refl)
find_char-cut p (c ∷ s) = elim (Bool-cases (p c)) [
  | inl e ↦ (c ∷ s, rw (e, find_char) refl)
  | inr e ↦ elim (Option-cases (find_char p s)) [
    | inl f ↦ (c ∷ s, rw (e, find_char, f) refl)
    | inr (j, f) ↦
        let (r, g) = find_char-cut p s in
        let at : slice_from j s ≡ ok r = rw f at g in
        (
          r,
          rw (e, find_char, f)
              (slice_from-add (len_utf8 c) j (c ∷ s) s r (slice_from-len_utf8 c s) at),
        )
  ]
]

-- Behind what a text begins with there is a cut.
pub starts_with-cut :
    (s pat : Text) → starts_with s pat ≡ true → (r : Text) × (slice_from (byte_len pat) s ≡ ok r)
unfolding starts_with byte_len slice_from
starts_with-cut s [] h = (s, refl)
starts_with-cut [] (x ∷ pat) h = absurd (ground (arith, h))
starts_with-cut (c ∷ s) (x ∷ pat) h =
    let (r, g) = starts_with-cut s pat (ground (arith, h)) in
    let same : c ≡ x = ground (arith, h) in
    (
      r,
      subst (λ y. slice_from (len_utf8 y + byte_len pat) (c ∷ s) ≡ ok r) same
          (slice_from-add (len_utf8 c) (byte_len pat) (c ∷ s) s r (slice_from-len_utf8 c s) g),
    )

-- Two texts whose characters have the same widths.
abbrev pub SameWidths : Text → Text → Type 0
SameWidths [] [] = Unit
SameWidths [] (d ∷ t) = ⊥
SameWidths (c ∷ s) [] = ⊥
SameWidths (c ∷ s) (d ∷ t) = (len_utf8 c ≡ len_utf8 d) × SameWidths s t

pub SameWidths-sym : (s t : Text) → SameWidths s t → SameWidths t s
SameWidths-sym [] [] w = w
SameWidths-sym [] (d ∷ t) w = w
SameWidths-sym (c ∷ s) [] w = w
SameWidths-sym (c ∷ s) (d ∷ t) (e, w) = (sym e, SameWidths-sym s t w)

-- A cut of one is a cut of the other.
pub aligned_cut :
    (k : ℕ) (s t r : Text)
    → SameWidths s t
    → slice_from k s ≡ ok r
    → (u : Text) × (slice_from k t ≡ ok u) × SameWidths r u
unfolding slice_from
aligned_cut zero s t r w h = (t, refl, subst (λ x. SameWidths x t) (ok-injective h) w)
aligned_cut (suc n) [] t r w h = absurd (ground (arith, h))
aligned_cut (suc n) (c ∷ s) [] r w h = absurd w
aligned_cut (suc n) (c ∷ s) (d ∷ t) r (e, w) h = elim (Bool-cases (leb (len_utf8 c) (suc n))) [
  | inr f ↦ absurd (ground (arith, h, f))
  | inl f ↦
      let (u, g, v) = aligned_cut (suc n - len_utf8 c) s t r w (ground (arith, h, f)) in
      (
        u,
        slice_from-cons (suc n) d t (ground (arith, e, f)) ∙ same_offset t u (omega (arith, e)) g,
        v,
      )
]

-- The characters of a part are characters of the text.
module _ (q : ℕ → Bool) where
  pub all-slice_from :
      (k : ℕ) (s r : Text) → slice_from k s ≡ ok r → all q s ≡ true → all q r ≡ true
  unfolding slice_from
  all-slice_from zero s r h a = subst (λ x. all q x ≡ true) (ok-injective h) a
  all-slice_from (suc n) [] r h a = absurd (ground (arith, h))
  all-slice_from (suc n) (c ∷ s) r h a = elim (Bool-cases (leb (len_utf8 c) (suc n))) [
    | inr f ↦ absurd (ground (arith, h, f))
    | inl f ↦ all-slice_from (suc n - len_utf8 c) s r (ground (arith, h, f)) (ground (arith, a))
  ]

  pub all-slice_to : (k : ℕ) (s r : Text) → slice_to k s ≡ ok r → all q s ≡ true → all q r ≡ true
  unfolding slice_to
  all-slice_to zero s r h a = ground (arith, h)
  all-slice_to (suc n) [] r h a = absurd (ground (arith, h))
  all-slice_to (suc n) (c ∷ s) r h a = elim (Bool-cases (leb (len_utf8 c) (suc n))) [
    | inr f ↦ absurd (ground (arith, h, f))
    | inl f ↦
        let (x, g, b) = >>=-eq-ok (slice_to (suc n - len_utf8 c) s) _ r (rw f at h) in
        ground (arith, a, b, all-slice_to (suc n - len_utf8 c) s x g)
  ]

  pub all-slice : (a b : ℕ) (s r : Text) → slice a b s ≡ ok r → all q s ≡ true → all q r ≡ true
  unfolding slice
  all-slice a b s r h p =
      let (u, f, h1) = >>=-eq-ok (reject_if (ltb b a) panic) _ r h in
      let (t, g, h2) = >>=-eq-ok (slice_from a s) _ r h1 in
      all-slice_to (b - a) t r h2 (all-slice_from a s t g p)
