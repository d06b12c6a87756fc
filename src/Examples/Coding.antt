-- ===== src/Examples/Coding.antt =====
-- A small binary encoding of records, to have concrete codecs: what is written reads back.
use p2s.Prelude.{
  ℕ, zero, suc, ◌≡◌, refl, sym, ap, ◌∙◌, Option, none, some, List, [], ◌∷◌, ◌++◌, nat_eq, list_eq,
  length, Result, ok, err, ok-injective, Text,
}
use p2s.Proto.{Codec}

pub record Coding (A : Type 0) : Type 0 where
  pub write : A → List ℕ → List ℕ
  pub read : List ℕ → Option (A × List ℕ)
  pub read-write : (a : A) (r : List ℕ) → read (write a r) ≡ some (a, r)

abbrev read_nat : List ℕ → Option (ℕ × List ℕ)
read_nat [] = none
read_nat (n ∷ r) = some (n, r)

abbrev pub nat_coding : Coding ℕ
nat_coding = record { write = λ n r. n ∷ r; read = read_nat; read-write = λ n r. refl }

abbrev split : ℕ → List ℕ → List ℕ × List ℕ
split zero r = ([], r)
split (suc n) [] = ([], [])
split (suc n) (x ∷ r) = (x ∷ (split n r).0, (split n r).1)

pub split-append : (b r : List ℕ) → split (length b) (b ++ r) ≡ (b, r)
split-append [] r = refl
split-append (x ∷ b) r = ap (λ (q : List ℕ × List ℕ). (x ∷ q.0, q.1)) (split-append b r)

abbrev read_bytes : List ℕ → Option (List ℕ × List ℕ)
read_bytes [] = none
read_bytes (n ∷ r) = some (split n r)

abbrev pub bytes_coding : Coding (List ℕ)
bytes_coding = record {
  write = λ b r. length b ∷ (b ++ r);
  read = read_bytes;
  read-write = λ b r. ap some (split-append b r);
}

module _ {A : Type 0} (ca : Coding A) where
  abbrev write_option : Option A → List ℕ → List ℕ
  write_option none r = 0 ∷ r
  write_option (some a) r = 1 ∷ ca.write a r

  abbrev some_read : Option (A × List ℕ) → Option (Option A × List ℕ)
  some_read none = none
  some_read (some (a, r)) = some (some a, r)

  abbrev read_option : List ℕ → Option (Option A × List ℕ)
  read_option [] = none
  read_option (zero ∷ r) = some (none, r)
  read_option (suc n ∷ r) = some_read (ca.read r)

  pub read-write_option : (o : Option A) (r : List ℕ) → read_option (write_option o r) ≡ some (o, r)
  read-write_option none r = refl
  read-write_option (some a) r = ap some_read (ca.read-write a r)

  abbrev pub option_coding : Coding (Option A)
  option_coding = record {
    write = write_option;
    read = read_option;
    read-write = read-write_option;
  }

  module _ {B : Type 0} (cb : Coding B) where
    abbrev pair_after : A → Option (B × List ℕ) → Option ((A × B) × List ℕ)
    pair_after a none = none
    pair_after a (some (b, r)) = some ((a, b), r)

    abbrev then_read : Option (A × List ℕ) → Option ((A × B) × List ℕ)
    then_read none = none
    then_read (some (a, r)) = pair_after a (cb.read r)

    abbrev pub pair_coding : Coding (A × B)
    pair_coding = record {
      write = λ q r. ca.write q.0 (cb.write q.1 r);
      read = λ r. then_read (ca.read r);
      read-write = λ q r.
          ap then_read (ca.read-write q.0 (cb.write q.1 r))
          ∙ ap (pair_after q.0) (cb.read-write q.1 r);
    }

  abbrev mapped : {B : Type 0} → (A → B) → Option (A × List ℕ) → Option (B × List ℕ)
  mapped f none = none
  mapped f (some (a, r)) = some (f a, r)

  -- A type that another one represents.
  abbrev pub along :
      {B : Type 0} (from : B → A) (to : A → B) → ((b : B) → to (from b) ≡ b) → Coding B
  along from to h = record {
    write = λ b r. ca.write (from b) r;
    read = λ r. mapped to (ca.read r);
    read-write = λ b r. ap (mapped to) (ca.read-write (from b) r) ∙ ap (λ x. some (x, r)) (h b);
  }

abbrev decoded : {A : Type 0} → Option (A × List ℕ) → Result Text A
decoded none = err []
decoded (some (a, r)) = ok a

abbrev pub codec_of : {A : Type 0} → Coding A → Codec A
codec_of {A = A} c = record {
  into_writer = λ a. ok (c.write a []);
  from_reader = λ b. decoded (c.read b);
  read_back =
      λ a b h. ap (λ x. decoded (c.read x)) (sym (ok-injective h)) ∙ ap decoded (c.read-write a []);
}
