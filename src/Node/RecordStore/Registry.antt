-- ===== src/Node/RecordStore/Registry.antt =====
-- What the record store promises, as a function from keys to records that knows neither the cache of
-- sequence numbers nor the database, and the refinement (record_store.rs, `put` and `remove`).
use p2s.Prelude.{
  ℕ, suc, ◌+◌, ◌≤◌, ◌<◌, ◌≡◌, refl, sym, ap, ◌∙◌, inl, inr, not, ◌&&◌, Option, none, some, List, [],
  ◌∷◌, arith, leb, if◌then◌else◌, Bool-cases, nat_eq, list_beq, list_eq, length, ok, err,
  Result-cases, lookup, contains_key, lookup-insert, lookup-erase, length-insert, length-erase,
}
use mathlib.Core.Path.{fun_ext}
use p2s.Platform.{Platform}
use p2s.Float.{Float}
use p2s.Node.Sled.{Sled}
use p2s.Node.RecordStore.{
  RecordKey, KadRecord, KadStoreError, validate_and_extract_seq, set_trust_weight, write, supersede,
  put, remove,
}
use p2s.Node.RecordStore.Validity.{Call, puts, removes, weighs, step, run}
use p2s.Node.RecordStore.Versions.{Store, HasRoom, is_newer, put-valid}

module _ (p : Platform) (fl : Float) (sled : Sled) where
  -- The sequence number of a record, if the record is valid.
  abbrev pub seq_of : KadRecord → Option ℕ
  seq_of r = elim (validate_and_extract_seq p fl sled r) [ err _ ↦ none | ok seq ↦ some seq ]

  abbrev pub version : Option KadRecord → Option ℕ
  version none = none
  version (some r) = seq_of r

  abbrev pub Registry : Type 0
  Registry = RecordKey → Option KadRecord

  -- A registry, changed at one key.
  abbrev pub update : Registry → RecordKey → Option KadRecord → Registry
  update f k o j = if list_beq k j then o else f j

  abbrev publish_as : Registry → KadRecord → Option ℕ → Registry
  publish_as f r none = f
  publish_as f r (some seq) =
      if is_newer p fl sled seq (version (f r.key)) then update f r.key (some r) else f

  -- An invalid record is dropped, a valid one replaces an older one.
  abbrev pub publish : Registry → KadRecord → Registry
  publish f r = publish_as f r (seq_of r)

  pub replay : Registry → List (Call p fl sled) → Registry
  replay f [] = f
  replay f (puts r ∷ cs) = replay (publish f r) cs
  replay f (removes key ∷ cs) = replay (update f key none) cs
  replay f (weighs key w ∷ cs) = replay f cs

  abbrev pub view : Store p fl sled → Registry
  view s k = lookup k s.records

  -- The cache knows the number of every record in the store, and no other.
  abbrev pub Agrees : Store p fl sled → Type 0
  Agrees s = (k : RecordKey) → lookup k s.seq_cache ≡ version (lookup k s.records)

  write-Agrees :
      (s : Store p fl sled) (r : KadRecord) (seq : ℕ)
      → validate_and_extract_seq p fl sled r ≡ ok seq
      → Agrees s
      → Agrees (write p fl sled s r seq)
  unfolding write
  write-Agrees s r seq v a k =
      ground
        (arith, v, a k, lookup-insert r.key k seq s.seq_cache, lookup-insert r.key k r s.records)

  supersede-Agrees :
      (s : Store p fl sled) (r : KadRecord) (seq : ℕ) (o : Option ℕ)
      → validate_and_extract_seq p fl sled r ≡ ok seq
      → Agrees s
      → Agrees (supersede p fl sled s r seq o)
  unfolding supersede
  supersede-Agrees s r seq none v a = write-Agrees s r seq v a
  supersede-Agrees s r seq (some n) v a = elim (Bool-cases (leb seq n)) [
    | inl e ↦ rw e a
    | inr e ↦ rw e (write-Agrees s r seq v a)
  ]

  put-Agrees : (s : Store p fl sled) (r : KadRecord) → Agrees s → Agrees (put p fl sled s r).0
  unfolding put
  put-Agrees s r a =
      elim (Bool-cases
        (leb s.max_records (length s.records) && not (contains_key r.key s.records))) [
          | inl e ↦ rw e a
          | inr e ↦ elim (Result-cases (validate_and_extract_seq p fl sled r)) [
            | inr (x, f) ↦ rw (e, f) a
            | inl (seq, f) ↦ rw (e, f) (supersede-Agrees s r seq (lookup r.key s.seq_cache) f a)
          ]
        ]

  pub step-Agrees :
      (s : Store p fl sled) (c : Call p fl sled) → Agrees s → Agrees (step p fl sled s c)
  unfolding step remove set_trust_weight
  step-Agrees s (puts r) a k = put-Agrees s r a k
  step-Agrees s (removes key) a k =
      ground (arith, a k, lookup-erase key k s.seq_cache, lookup-erase key k s.records)
  step-Agrees s (weighs key w) a k = a k

  -- The store has grown by one record at most, and has the same limit.
  abbrev Grown : Store p fl sled → Store p fl sled → Type 0
  Grown s t = (length t.records ≤ suc (length s.records)) × (t.max_records ≡ s.max_records)

  supersede-Grown :
      (s : Store p fl sled) (r : KadRecord) (seq : ℕ) (o : Option ℕ)
      → Grown s (supersede p fl sled s r seq o)
  unfolding supersede write
  supersede-Grown s r seq none = ground (arith, length-insert r.key r s.records)
  supersede-Grown s r seq (some n) = ground (arith, length-insert r.key r s.records)

  put-Grown : (s : Store p fl sled) (r : KadRecord) → Grown s (put p fl sled s r).0
  unfolding put
  put-Grown s r =
      elim (Bool-cases
        (leb s.max_records (length s.records) && not (contains_key r.key s.records))) [
          | inl e ↦ rw e (ground arith)
          | inr e ↦ elim (Result-cases (validate_and_extract_seq p fl sled r)) [
            | inr (x, f) ↦ rw (e, f) (ground arith)
            | inl (seq, f) ↦ rw (e, f) (supersede-Grown s r seq (lookup r.key s.seq_cache))
          ]
        ]

  step-Grown : (s : Store p fl sled) (c : Call p fl sled) → Grown s (step p fl sled s c)
  unfolding step remove set_trust_weight
  step-Grown s (puts r) = put-Grown s r
  step-Grown s (removes key) = ground (arith, length-erase key s.records)
  step-Grown s (weighs key w) = ground arith

  room :
      (s : Store p fl sled) (k : RecordKey)
      → length s.records < s.max_records
      → HasRoom p fl sled s k
  room s k h = ground arith

  view-write :
      (s : Store p fl sled) (r : KadRecord) (seq : ℕ)
      → view (write p fl sled s r seq) ≡ update (view s) r.key (some r)
  unfolding write
  view-write s r seq = fun_ext λ k. lookup-insert r.key k r s.records

  pub seq_of_valid :
      (r : KadRecord) (seq : ℕ)
      → validate_and_extract_seq p fl sled r ≡ ok seq
      → seq_of r ≡ some seq
  seq_of_valid r seq v = rw (v, seq_of) refl

  seq_of_invalid :
      (r : KadRecord) (e : KadStoreError)
      → validate_and_extract_seq p fl sled r ≡ err e
      → seq_of r ≡ none
  seq_of_invalid r e v = rw (v, seq_of) refl

  view-put_valid :
      (s : Store p fl sled) (r : KadRecord) (seq : ℕ)
      → validate_and_extract_seq p fl sled r ≡ ok seq
      → Agrees s
      → HasRoom p fl sled s r.key
      → view (put p fl sled s r).0 ≡ publish_as (view s) r (some seq)
  view-put_valid s r seq v a h =
      elim (Bool-cases (is_newer p fl sled seq (version (lookup r.key s.records)))) [
        | inl new ↦ rw (put-valid p fl sled s r seq v h, a r.key, new) (view-write s r seq)
        | inr old ↦ rw (put-valid p fl sled s r seq v h, a r.key, old) refl
      ]

  view-put :
      (s : Store p fl sled) (r : KadRecord)
      → Agrees s
      → length s.records < s.max_records
      → view (put p fl sled s r).0 ≡ publish (view s) r
  unfolding put
  view-put s r a h = elim (Result-cases (validate_and_extract_seq p fl sled r)) [
    | inr (x, f) ↦ rw (room s r.key h, f) (ap (publish_as (view s) r) (sym (seq_of_invalid r x f)))
    | inl (seq, f) ↦
        view-put_valid s r seq f a (room s r.key h)
        ∙ ap (publish_as (view s) r) (sym (seq_of_valid r seq f))
  ]

  view-step :
      (s : Store p fl sled) (c : Call p fl sled) (cs : List (Call p fl sled))
      → Agrees s
      → length s.records < s.max_records
      → replay (view s) (c ∷ cs) ≡ replay (view (step p fl sled s c)) cs
  unfolding step replay remove set_trust_weight
  view-step s (puts r) cs a h = ap (λ f. replay f cs) (sym (view-put s r a h))
  view-step s (removes key) cs a h =
      ap (λ f. replay f cs) (fun_ext λ k. sym (lookup-erase key k s.records))
  view-step s (weighs key w) cs a h = refl

  pub run_refines :
      (s : Store p fl sled) (cs : List (Call p fl sled))
      → Agrees s
      → length s.records + length cs ≤ s.max_records
      → view (run p fl sled s cs) ≡ replay (view s) cs
  unfolding run replay
  run_refines s [] a h = refl
  run_refines s (c ∷ cs) a h =
      let (grown, limit) = step-Grown s c in
      run_refines (step p fl sled s c) cs (step-Agrees s c a) (omega (arith, grown, limit))
      ∙ sym (view-step s c cs a (omega arith))
