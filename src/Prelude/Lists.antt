-- ===== src/Prelude/Lists.antt =====
-- Lists measured by native numbers, under the library's names.
use Prim.Native.Nat.{ℕ, zero, suc, ◌+◌, ◌≤◌, min}
use mathlib.Core.Path.{◌≡◌, refl}
use mathlib.Core.Bool.{Bool, true, false, ◌&&◌, ◌||◌}
use mathlib.Core.List.{List, [], ◌∷◌, ◌++◌}
use native.Mathlib.Omega.{arith}
use p2s.Prelude.Tests.{if◌then◌else◌}

module _ {ℓ} {A : Type ℓ} where
  abbrev pub length : List A → ℕ
  length [] = 0
  length (x ∷ xs) = suc (length xs)

  pub length-append : (xs ys : List A) → length (xs ++ ys) ≡ length xs + length ys
  length-append [] ys = omega arith
  length-append (x ∷ xs) ys = omega (arith, length-append xs ys)

  abbrev pub take : ℕ → List A → List A
  take zero xs = []
  take (suc n) [] = []
  take (suc n) (x ∷ xs) = x ∷ take n xs

  abbrev pub drop : ℕ → List A → List A
  drop zero xs = xs
  drop (suc n) [] = []
  drop (suc n) (x ∷ xs) = drop n xs

  pub length-take : (n : ℕ) (xs : List A) → length (take n xs) ≡ min n (length xs)
  length-take zero xs = omega arith
  length-take (suc n) [] = omega arith
  length-take (suc n) (x ∷ xs) = omega (arith, length-take n xs)

  -- `iter().filter(p)`; the one structural call is harmless.
  abbrev pub filterb : (A → Bool) → List A → List A
  filterb p [] = []
  filterb p (x ∷ xs) = if p x then x ∷ filterb p xs else filterb p xs

  abbrev pub all : (A → Bool) → List A → Bool
  all p [] = true
  all p (x ∷ xs) = p x && all p xs

  abbrev pub any : (A → Bool) → List A → Bool
  any p [] = false
  any p (x ∷ xs) = p x || any p xs

  pub all-filterb : (p q : A → Bool) (xs : List A) → all q xs ≡ true → all q (filterb p xs) ≡ true
  all-filterb p q [] h = refl
  all-filterb p q (x ∷ xs) h = ground (arith, all-filterb p q xs)

  pub all-filterb_self : (p : A → Bool) (xs : List A) → all p (filterb p xs) ≡ true
  all-filterb_self p [] = refl
  all-filterb_self p (x ∷ xs) = ground (arith, all-filterb_self p xs)

  pub all-take : (q : A → Bool) (n : ℕ) (xs : List A) → all q xs ≡ true → all q (take n xs) ≡ true
  all-take q zero xs h = refl
  all-take q (suc n) [] h = refl
  all-take q (suc n) (x ∷ xs) h = ground (arith, all-take q n xs)

  pub all-append :
      (q : A → Bool) (xs ys : List A) → all q xs ≡ true → all q ys ≡ true → all q (xs ++ ys) ≡ true
  all-append q [] ys h k = k
  all-append q (x ∷ xs) ys h k = ground (arith, all-append q xs ys)

  pub length-filterb : (p : A → Bool) (xs : List A) → length (filterb p xs) ≤ length xs
  length-filterb p [] = omega arith
  length-filterb p (x ∷ xs) = ground (arith, length-filterb p xs)
