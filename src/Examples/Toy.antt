-- ===== src/Examples/Toy.antt =====
-- Small concrete instances of the interfaces: a toy hash and signature, floats as parts of 1024, a
-- database in memory, a network with one site.
use p2s.Prelude.{
  ℕ, zero, suc, ◌*◌, ◌/◌, ◌≡◌, refl, ap, Bool, true, false, Option, none, some, List, [], ◌∷◌, map,
  arith, ltb, nat_eq, list_beq, list_beq_refl, list_eq, length, ok, HashMap, insert, erase,
  contains_key, Text, Bytes, codes,
}
use p2s.Proto.{CardStatus, active, revoked, CardRecord, SignedCard, MandateRecord}
use p2s.Platform.{Platform}
use p2s.Net.{Net}
use p2s.Float.{Float}
use p2s.Json.{Json}
use p2s.Verifier.HaikuAgent.{Post}
use p2s.Node.Sled.{Sled}
use p2s.Examples.Coding.{
  Coding, nat_coding, bytes_coding, option_coding, pair_coding, along, codec_of,
}

abbrev status_number : CardStatus → ℕ
status_number active = 0
status_number revoked = 1

abbrev number_status : ℕ → CardStatus
number_status zero = active
number_status (suc n) = revoked

pub number_status_number : (s : CardStatus) → number_status (status_number s) ≡ s
number_status_number active = refl
number_status_number revoked = refl

abbrev pub CardParts : Type 0
CardParts = Bytes × (ℕ × (CardStatus × (Text × (Bytes × (Text × Option Text)))))

abbrev parts : CardRecord → CardParts
parts c = (c.pubkey, (c.seq, (c.status, (c.endpoint, (c.manifest_hash, (c.domain, c.label))))))

abbrev of_parts : CardParts → CardRecord
of_parts (k, (n, (s, (e, (m, (d, l)))))) = record {
  pubkey = k;
  seq = n;
  status = s;
  endpoint = e;
  manifest_hash = m;
  domain = d;
  label = l;
}

abbrev pub parts_coding : Coding CardParts
parts_coding = pair_coding bytes_coding (
    pair_coding nat_coding (
      pair_coding (along nat_coding status_number number_status number_status_number) (
        pair_coding bytes_coding
          (pair_coding bytes_coding (pair_coding bytes_coding (option_coding bytes_coding))))))

abbrev pub card_coding : Coding CardRecord
card_coding = along parts_coding parts of_parts (λ c. refl)

abbrev pub signed_card_coding : Coding SignedCard
signed_card_coding =
    along (pair_coding card_coding bytes_coding) (λ c. (c.card, c.sig))
      (λ q. record { card = q.0; sig = q.1 }) (λ c. refl)

abbrev pub mandate_coding : Coding MandateRecord
mandate_coding =
    along (pair_coding bytes_coding (pair_coding nat_coding nat_coding))
      (λ m. (m.node_pubkey, (m.issued_at, m.expires_at)))
      (λ q. record { node_pubkey = q.0; issued_at = q.1.0; expires_at = q.1.1 }) (λ m. refl)

-- The first bytes, filled up with zeros.
abbrev pub fit : ℕ → Bytes → Bytes
fit zero b = []
fit (suc n) [] = 0 ∷ fit n []
fit (suc n) (x ∷ b) = x ∷ fit n b

pub length-fit : (n : ℕ) (b : Bytes) → length (fit n b) ≡ n
length-fit zero b = refl
length-fit (suc n) [] = ap suc (length-fit n [])
length-fit (suc n) (x ∷ b) = ap suc (length-fit n b)

abbrev first : Bytes → Option ℕ
first [] = none
first (x ∷ b) = some x

abbrev pub toy_platform : Platform
toy_platform = record {
  SigningKey = ℕ;
  VerifyingKey = ℕ;
  hash = fit 32;
  keyed_hash = λ k b. fit 32 b;
  from_bytes = first;
  as_bytes = λ k. fit 32 (k ∷ []);
  verifying_key = λ k. k;
  sign = λ k m. fit 64 (k ∷ m);
  verify = λ k m s. list_beq s (fit 64 (k ∷ m));
  card_codec = codec_of card_coding;
  signed_card_codec = codec_of signed_card_coding;
  mandate_codec = codec_of mandate_coding;
  length-hash = length-fit 32;
  length-keyed_hash = λ k b. length-fit 32 b;
  length-as_bytes = λ k. length-fit 32 (k ∷ []);
  from_bytes-as_bytes = λ k. refl;
  length-sign = λ k m. length-fit 64 (k ∷ m);
  verify-sign = λ k m. list_beq_refl (fit 64 (k ∷ m));
}

-- A network in which every https address answers with `body`, and every name has the records `txt`.
abbrev pub toy_net : Bytes → List Text → Net
toy_net body txt = record {
  Url = Text;
  parse_url = ok;
  scheme = λ u. codes "https";
  username = λ u. [];
  password = λ u. none;
  Response = Bytes;
  build_client = λ secs. ok tt;
  send = λ u. ok body;
  status_is_success = λ r. true;
  status_display = λ r. codes "200 OK";
  body_bytes = ok;
  body_text = ok;
  txt_lookup = λ n. ok txt;
}

-- `none` is NaN, `some n` is n / 1024.
abbrev both : (ℕ → ℕ → Bool) → Option ℕ → Option ℕ → Bool
both f (some a) (some b) = f a b
both f none y = false
both f (some a) none = false

abbrev times : Option ℕ → Option ℕ → Option ℕ
times (some a) (some b) = some (a * b / 1024)
times none y = none
times (some a) none = none

abbrev is_none : Option ℕ → Bool
is_none none = true
is_none (some a) = false

abbrev eight : Option ℕ → Bytes
eight none = fit 8 []
eight (some n) = fit 8 (1 ∷ n ∷ [])

abbrev of_eight : Bytes → Option ℕ
of_eight [] = none
of_eight (zero ∷ b) = none
of_eight (suc x ∷ []) = none
of_eight (suc x ∷ (n ∷ b)) = some n

pub length-eight : (x : Option ℕ) → length (eight x) ≡ 8
length-eight none = refl
length-eight (some n) = refl

pub of_eight-eight : (x : Option ℕ) → of_eight (eight x) ≡ x
of_eight-eight none = refl
of_eight-eight (some n) = refl

pub one_times : (x : Option ℕ) → is_none x ≡ false → times (some 1024) x ≡ x
one_times none h = refl
one_times (some n) h = ap some (omega arith)

pub half_number : (x : Option ℕ) → is_none x ≡ false → is_none (times x (some 512)) ≡ false
half_number none h = h
half_number (some n) h = refl

pub half_low : (x : Option ℕ) → both ltb (times x (some 512)) (some 0) ≡ false
half_low none = refl
half_low (some n) = ground arith

pub half_high : (x y : Option ℕ) → both ltb y x ≡ false → both ltb y (times x (some 512)) ≡ false
half_high none none h = refl
half_high none (some m) h = refl
half_high (some n) none h = refl
half_high (some n) (some m) h = ground arith

pub not_below : (x : Option ℕ) → both ltb x x ≡ false
not_below none = refl
not_below (some n) = ground arith

abbrev pub toy_float : Float
toy_float = record {
  F64 = Option ℕ;
  zero_f = some 0;
  half_f = some 512;
  one_f = some 1024;
  lt = both ltb;
  mul = times;
  is_nan = is_none;
  to_le_bytes = eight;
  from_le_bytes = of_eight;
  length-to_le_bytes = length-eight;
  from_le_bytes-to_le_bytes = of_eight-eight;
  zero_not_nan = refl;
  one_not_nan = refl;
  zero_lt_zero = refl;
  one_lt_one = refl;
  one_lt_zero = refl;
  one_mul = one_times;
  half_not_nan = λ x n l h. half_number x n;
  half_nonneg = λ x n l h. half_low x;
  half_le_one = λ x n l h. half_high x (some 1024) h;
  half_le = λ x n l h. half_high x x (not_below x);
}

pub half_not_nan : (x : Option ℕ) → some (some 512) ≡ some x → is_none x ≡ false
half_not_nan x h = cc

-- Every JSON value says that there is no copy, and gives the score a half; a text field is its key.
abbrev pub toy_json : Json toy_float
toy_json = record {
  Value = Text;
  from_str = ok;
  get = λ v key. some key;
  index = λ v key. v;
  is_null = λ v. false;
  as_bool = λ v. some false;
  as_f64 = λ v. some (some 512);
  as_str = some;
  as_array = λ v. some (v ∷ []);
  as_f64_not_nan = λ v. half_not_nan;
}

-- An API that answers every request with an empty object.
abbrev pub toy_post : Post toy_json
toy_post = record {
  Response = Text;
  build_client = λ secs. ok tt;
  post = λ url headers body. ok (codes " {} ");
  status_is_success = λ r. true;
  status_display = λ r. codes "200 OK";
  text = ok;
  json = ok;
}

abbrev pub toy_sled : Sled
toy_sled = record {
  Tree = HashMap Bytes Bytes;
  tree_insert = λ t k v. (insert k v t, ok tt);
  tree_remove = λ t k. (erase k t, ok (contains_key k t));
  iter = map some;
}
