-- ===== src/Prelude/Collect.antt =====
-- `collect::<Result<Vec<_>, _>>()` over a `map`, and the loop that pushes each result of a call with
-- a question mark: the first error ends it.
use mathlib.Core.Path.{◌≡◌, refl, subst}
use mathlib.Core.List.{List, [], ◌∷◌}
use mathlib.Core.Logic.{◌↔◌}
use p2s.Prelude.Results.{Result, ok, ◌>>=◌, >>=-eq-ok, ok-injective}

module _ {ℓ κ μ} {E : Type κ} {A : Type ℓ} {B : Type μ} where
  unfoldable pub collect : (A → Result E B) → List A → Result E (List B)
  collect f [] = ok []
  collect f (x ∷ xs) = do y ← f x; ys ← collect f xs; ok (y ∷ ys)

-- Two lists of one length, related item by item.
pub data Zips {ℓ κ μ} {A : Type ℓ} {B : Type κ} (R : A → B → Type μ)
    : List A → List B → Type (ℓ ⊔ κ ⊔ μ) where
  nil : Zips R [] []
  cons :
      {x : A} {y : B} {xs : List A} {ys : List B} → R x y → Zips R xs ys → Zips R (x ∷ xs) (y ∷ ys)

pub Zips-map {ℓ κ μ ν} :
    {A : Type ℓ} {B : Type κ} (R : A → B → Type μ) (S : A → B → Type ν) {xs : List A} {ys : List B}
    → ((x : A) (y : B) → R x y → S x y)
    → Zips R xs ys
    → Zips S xs ys
Zips-map R S f nil = nil
Zips-map R S f (cons r z) = cons (f _ _ r) (Zips-map R S f z)

module _ {ℓ κ μ} {E : Type κ} {A : Type ℓ} {B : Type μ} (f : A → Result E B) where
  collect-Zips : (xs : List A) (ys : List B) → collect f xs ≡ ok ys → Zips (λ x y. f x ≡ ok y) xs ys
  unfolding collect
  collect-Zips [] ys h = subst (Zips (λ x y. f x ≡ ok y) []) (ok-injective h) nil
  collect-Zips (x ∷ xs) ys h =
      let (y, e, h1) = >>=-eq-ok (f x) _ ys h in
      let (zs, e1, h2) = >>=-eq-ok (collect f xs) _ ys h1 in
      subst (Zips (λ x y. f x ≡ ok y) (x ∷ xs)) (ok-injective h2) (cons e (collect-Zips xs zs e1))

  Zips-collect : (xs : List A) (ys : List B) → Zips (λ x y. f x ≡ ok y) xs ys → collect f xs ≡ ok ys
  unfolding collect
  Zips-collect _ _ nil = refl
  Zips-collect _ _ (cons e z) = rw (e, Zips-collect _ _ z) refl

  pub collect_iff :
      (xs : List A) (ys : List B) → (collect f xs ≡ ok ys) ↔ Zips (λ x y. f x ≡ ok y) xs ys
  collect_iff xs ys = (collect-Zips xs ys, Zips-collect xs ys)
