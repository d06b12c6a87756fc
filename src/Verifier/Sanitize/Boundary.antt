-- ===== src/Verifier/Sanitize/Boundary.antt =====
-- The delimiters of the agent's prompt in filtered content: each step of `finish` keeps a text free
-- of a tag, and the escaping removes it.
use p2s.Prelude.{
  ℕ, zero, suc, ◌-◌, ◌≡◌, refl, ◌∙◌, inl, inr, Bool, true, false, not, ◌&&◌, [], ◌∷◌, ◌++◌, arith,
  ◌==◌, Bool-cases, nat_eq, list_eq, length, take, all, Text, is_whitespace, starts_with, contains,
}
use p2s.Verifier.Slices.{replace_from}
use p2s.Verifier.Sanitize.{collapse}

-- A character that no step writes by itself.
abbrev pub plain : ℕ → Bool
plain c = not (is_whitespace c) && (not (c == b'&') && not (c == b'<'))

abbrev no_opening : Text → Bool
no_opening s = all (λ c. not (c == b'<')) s

-- The tag `<body`, whose `body` is plain.
module _ (body : Text) (is_plain : all plain body ≡ true) where
  abbrev tag : Text
  tag = b'<' ∷ body

  pub contains-append : (t r : Text) → no_opening t ≡ true → contains (t ++ r) tag ≡ contains r tag
  unfolding contains
  contains-append [] r h = refl
  contains-append (c ∷ t) r h = ground (arith, contains-append t r)

  pub contains-no_opening : (t : Text) → no_opening t ≡ true → contains t tag ≡ false
  unfolding contains
  contains-no_opening [] h = refl
  contains-no_opening (c ∷ t) h = ground (arith, contains-no_opening t)

-- Replacing by a text that begins with '&' makes no new beginning of a plain text.
module _ (from t : Text) where
  pub starts_with-replace_from :
      (s b : Text)
      → all plain b ≡ true
      → starts_with (replace_from 0 from (b'&' ∷ t) s) b ≡ true
      → starts_with s b ≡ true
  unfolding replace_from starts_with
  starts_with-replace_from [] b p h = h
  starts_with-replace_from (c ∷ s) [] p h = refl
  starts_with-replace_from (c ∷ s) (x ∷ b) p h = elim (Bool-cases (starts_with (c ∷ s) from)) [
    | inl e ↦ absurd (ground arith)
    | inr e ↦ ground (arith, starts_with-replace_from s b)
  ]

module _ (body : Text) (is_plain : all plain body ≡ true) (t : Text)
    (quiet : no_opening t ≡ true) where
  pub contains-replace_from :
      (from : Text) (k : ℕ) (s : Text)
      → contains s (b'<' ∷ body) ≡ false
      → contains (replace_from k from (b'&' ∷ t) s) (b'<' ∷ body) ≡ false
  unfolding replace_from contains
  contains-replace_from from k [] h = h
  contains-replace_from from (suc k) (c ∷ s) h = contains-replace_from from k s (ground arith)
  contains-replace_from from zero (c ∷ s) h = elim (Bool-cases (starts_with (c ∷ s) from)) [
    | inl e ↦ rw e (
        contains-append body is_plain (b'&' ∷ t) _ quiet
        ∙ contains-replace_from from (length from - 1) s (ground arith))
    | inr e ↦ rw e (
        ground
          (arith, contains-replace_from from 0 s, starts_with-replace_from from t s body is_plain))
  ]

  -- The tag itself is gone once its occurrences are replaced.
  pub contains-replace_self :
      (k : ℕ) (s : Text)
      → contains (replace_from k (b'<' ∷ body) (b'&' ∷ t) s) (b'<' ∷ body) ≡ false
  unfolding replace_from contains
  contains-replace_self k [] = refl
  contains-replace_self (suc k) (c ∷ s) = contains-replace_self k s
  contains-replace_self zero (c ∷ s) = elim (Bool-cases (starts_with (c ∷ s) (b'<' ∷ body))) [
    | inl e ↦ rw e (
        contains-append body is_plain (b'&' ∷ t) _ quiet
        ∙ contains-replace_self (length (b'<' ∷ body) - 1) s)
    | inr e ↦ rw e (
        ground (
          arith,
          contains-replace_self 0 s,
          starts_with-replace_from (b'<' ∷ body) t s body is_plain,
        ))
  ]

starts_with-collapse :
    (s b : Text)
    → all plain b ≡ true
    → starts_with (collapse false s) b ≡ true
    → starts_with s b ≡ true
unfolding collapse starts_with is_whitespace
starts_with-collapse [] b p h = h
starts_with-collapse (c ∷ s) [] p h = refl
starts_with-collapse (c ∷ s) (x ∷ b) p h = elim (Bool-cases (is_whitespace c)) [
  | inl e ↦ absurd (ground arith)
  | inr e ↦ ground (arith, starts_with-collapse s b)
]

starts_with-cut :
    (n : ℕ) (s r b : Text)
    → all plain b ≡ true
    → starts_with (take n s ++ 10 ∷ r) b ≡ true
    → starts_with s b ≡ true
unfolding starts_with is_whitespace
starts_with-cut n s r [] p h = ground arith
starts_with-cut zero s r (x ∷ b) p h = absurd (ground arith)
starts_with-cut (suc n) [] r (x ∷ b) p h = absurd (ground arith)
starts_with-cut (suc n) (c ∷ s) r (x ∷ b) p h = ground (arith, starts_with-cut n s r b)

module _ (body : Text) (is_plain : all plain body ≡ true) where
  pub contains-collapse :
      (prev : Bool) (s : Text)
      → contains s (b'<' ∷ body) ≡ false
      → contains (collapse prev s) (b'<' ∷ body) ≡ false
  unfolding collapse contains
  contains-collapse prev [] h = h
  contains-collapse prev (c ∷ s) h = ground (
    arith,
    contains-collapse true s,
    contains-collapse false s,
    starts_with-collapse s body is_plain,
  )

  pub contains-cut :
      (n : ℕ) (s r : Text)
      → no_opening r ≡ true
      → contains s (b'<' ∷ body) ≡ false
      → contains (take n s ++ 10 ∷ r) (b'<' ∷ body) ≡ false
  unfolding contains
  contains-cut zero s r q h = contains-no_opening body is_plain (10 ∷ r) q
  contains-cut (suc n) [] r q h = contains-no_opening body is_plain (10 ∷ r) q
  contains-cut (suc n) (c ∷ s) r q h =
      ground (arith, contains-cut n s r q, starts_with-cut n s r body is_plain)
