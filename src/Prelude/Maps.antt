-- ===== src/Prelude/Maps.antt =====
-- `HashMap` as an association list. The program reads a map by key and by its length only, or
-- iterates over it in no fixed order.
use Prim.Native.Nat.{suc, ◌≤◌}
use mathlib.Core.Path.{◌≡◌, refl, sym, ap, ◌∙◌}
use mathlib.Core.Bool.{Bool, true, false}
use mathlib.Core.Option.{Option, none, some}
use mathlib.Core.List.{List, [], ◌∷◌}
use native.Mathlib.Omega.{arith}
use mathlib.Core.Logic.{inl, inr}
use p2s.Prelude.Tests.{Eq, if◌then◌else◌, Bool-cases}
use p2s.Prelude.Lists.{length}

abbrev pub HashMap {ℓ κ} : Type ℓ → Type κ → Type (ℓ ⊔ κ)
HashMap K V = List (K × V)

pub beq_refl {ℓ} : {K : Type ℓ} ⦃e : Eq K⦄ (k : K) → e.beq k k ≡ true
beq_refl ⦃e⦄ k = (e.beq_iff k k).1 refl

module _ {ℓ κ} {K : Type ℓ} {V : Type κ} ⦃e : Eq K⦄ where
  unfoldable pub lookup : K → HashMap K V → Option V
  lookup k [] = none
  lookup k ((j, v) ∷ m) = if e.beq j k then some v else lookup k m

  unfoldable pub insert : K → V → HashMap K V → HashMap K V
  insert k v [] = (k, v) ∷ []
  insert k v ((j, w) ∷ m) = if e.beq j k then (j, v) ∷ m else (j, w) ∷ insert k v m

  unfoldable pub erase : K → HashMap K V → HashMap K V
  erase k [] = []
  erase k ((j, v) ∷ m) = if e.beq j k then erase k m else (j, v) ∷ erase k m

  abbrev pub contains_key : K → HashMap K V → Bool
  contains_key k m = elim (lookup k m) [ none ↦ false | some _ ↦ true ]

  pub lookup-insert :
      (k j : K) (v : V) (m : HashMap K V)
      → lookup j (insert k v m) ≡ (if e.beq k j then some v else lookup j m)
  unfolding lookup insert
  lookup-insert k j v [] = refl
  lookup-insert k j v ((i, w) ∷ m) =
      ground (arith, e.beq_iff k j, e.beq_iff i k, e.beq_iff i j, lookup-insert k j v m)

  pub lookup-erase :
      (k j : K) (m : HashMap K V) → lookup j (erase k m) ≡ (if e.beq k j then none else lookup j m)
  unfolding lookup erase
  lookup-erase k j [] = ground arith
  lookup-erase k j ((i, w) ∷ m) =
      ground (arith, e.beq_iff k j, e.beq_iff i k, e.beq_iff i j, lookup-erase k j m)

  pub lookup-insert_self : (k : K) (v : V) (m : HashMap K V) → lookup k (insert k v m) ≡ some v
  lookup-insert_self k v m = ground (arith, lookup-insert k k v m, beq_refl k)

  -- A write to a key that is there keeps the length, another one adds one entry.
  pub length-insert :
      (k : K) (v : V) (m : HashMap K V)
      → length (insert k v m) ≡ (if contains_key k m then length m else suc (length m))
  unfolding lookup insert
  length-insert k v [] = refl
  length-insert k v ((j, w) ∷ m) = ground (arith, length-insert k v m)

  pub length-erase : (k : K) (m : HashMap K V) → length (erase k m) ≤ length m
  unfolding erase
  length-erase k [] = omega arith
  length-erase k ((j, v) ∷ m) = ground (arith, length-erase k m)

  -- No key stands twice.
  abbrev pub HasDistinctKeys : HashMap K V → Type κ
  HasDistinctKeys [] = Unit
  HasDistinctKeys ((k, v) ∷ m) = (lookup k m ≡ none) × HasDistinctKeys m

  pub insert-HasDistinctKeys :
      (k : K) (v : V) (m : HashMap K V) → HasDistinctKeys m → HasDistinctKeys (insert k v m)
  unfolding insert lookup
  insert-HasDistinctKeys k v [] d = (refl, tt)
  insert-HasDistinctKeys k v ((j, w) ∷ m) d =
      ground
        (arith, insert-HasDistinctKeys k v m, lookup-insert k j v m, e.beq_iff k j, e.beq_iff j k)

  pub erase-HasDistinctKeys :
      (k : K) (m : HashMap K V) → HasDistinctKeys m → HasDistinctKeys (erase k m)
  unfolding erase
  erase-HasDistinctKeys k [] d = d
  erase-HasDistinctKeys k ((j, w) ∷ m) d =
      ground (arith, erase-HasDistinctKeys k m, lookup-erase k j m)

-- Entries that are read into a map one after another; what `dec` does not read is passed over.
module _ {ℓ κ μ} {K : Type ℓ} {V : Type κ} {W : Type μ} ⦃e : Eq K⦄ (dec : K → V → Option W) where
  abbrev pub read_into : HashMap K W → K → Option W → HashMap K W
  read_into m k none = m
  read_into m k (some w) = insert k w m

  unfoldable pub read_all : HashMap K W → HashMap K V → HashMap K W
  read_all m [] = m
  read_all m ((k, v) ∷ l) = read_all (read_into m k (dec k v)) l

  -- What is there under a key in the end, if every key stands once.
  abbrev pub value_read : K → Option V → Option W → Option W
  value_read k none old = old
  value_read k (some v) old = elim (dec k v) [ none ↦ old | some w ↦ some w ]

  lookup-read_into :
      (m : HashMap K W) (k j : K) (o : Option W)
      → lookup j (read_into m k o)
        ≡ (if e.beq k j then (elim o [ none ↦ lookup j m | some w ↦ some w ]) else lookup j m)
  lookup-read_into m k j none = ground arith
  lookup-read_into m k j (some w) = ground (arith, lookup-insert k j w m)

  pub lookup-read_all :
      (m : HashMap K W) (l : HashMap K V) (j : K)
      → HasDistinctKeys l
      → lookup j (read_all m l) ≡ value_read j (lookup j l) (lookup j m)
  unfolding read_all lookup
  lookup-read_all m [] j d = refl
  lookup-read_all m ((k, v) ∷ l) j d =
      let rest = lookup-read_all (read_into m k (dec k v)) l j d.1 in
      let head = lookup-read_into m k j (dec k v) in
      elim (Bool-cases (e.beq k j)) [
        | inl hit ↦
            let same : k ≡ j = (e.beq_iff k j).0 hit in
            let gone : lookup j l ≡ none = ap (λ i. lookup i l) (sym same) ∙ d.0 in
            let reads : dec k v ≡ dec j v = ap (λ i. dec i v) same in
            ground (arith, rest, head, gone, reads)
        | inr miss ↦ ground (arith, rest, head)
      ]

pub ruleset map_laws = (lookup-insert, lookup-erase)
