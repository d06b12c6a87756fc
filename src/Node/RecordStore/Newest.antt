-- ===== src/Node/RecordStore/Newest.antt =====
-- What the store has for a key after a valid record was put under it (record_store.rs).
use p2s.Prelude.{
  ℕ, ◌≤◌, ◌≡◌, refl, sym, ◌∙◌, inl, inr, false, Option, none, some, List, [], ◌∷◌, map, arith,
  Bool-cases, nat_eq, list_eq, ok, lookup, lookup-insert_self,
}
use p2s.Platform.{Platform}
use p2s.Float.{Float}
use p2s.Proto.{SignedCard, canonical_decode}
use p2s.Card.Verify.{IsAuthentic}
use p2s.Node.Sled.{Sled, Database}
use p2s.Node.RecordStore.{
  RecordKey, KadRecord, CardRecordStore, new_store, validate_and_extract_seq, write, put,
  with_persistence,
}
use p2s.Node.RecordStore.Validity.{Call, puts, step, run, run-with_persistence}
use p2s.Node.RecordStore.Versions.{HasRoom, is_newer, put-valid, put_monotone}
use p2s.Node.RecordStore.Registry.{Agrees, version, step-Agrees}
use p2s.Node.RecordStore.Refinement.{load_from_disk-Agrees}

module _ (p : Platform) (fl : Float) (sled : Sled) where
  -- The cache knows a number for the key that is this one or higher.
  abbrev pub Knows : CardRecordStore p fl sled → RecordKey → ℕ → Type 0
  Knows s k n = (m : ℕ) × (lookup k s.seq_cache ≡ some m) × (n ≤ m)

  not_newer :
      (seq : ℕ) (o : Option ℕ)
      → is_newer p fl sled seq o ≡ false
      → (m : ℕ) × (o ≡ some m) × (seq ≤ m)
  not_newer seq none h = absurd (ground (arith, h))
  not_newer seq (some m) h = (m, refl, ground (arith, h))

  pub put-Knows :
      (s : CardRecordStore p fl sled) (r : KadRecord) (seq : ℕ)
      → validate_and_extract_seq p fl sled r ≡ ok seq
      → HasRoom p fl sled s r.key
      → Knows (put p fl sled s r).0 r.key seq
  unfolding write
  put-Knows s r seq v room = elim (Bool-cases (is_newer p fl sled seq (lookup r.key s.seq_cache))) [
    | inl e ↦
        rw (put-valid p fl sled s r seq v room, e)
          (seq, lookup-insert_self r.key seq s.seq_cache, omega arith)
    | inr e ↦ rw (put-valid p fl sled s r seq v room, e) (not_newer seq _ e)
  ]

  pub run_puts-Knows :
      (s : CardRecordStore p fl sled) (rs : List KadRecord) (k : RecordKey) (n : ℕ)
      → Knows s k n
      → Knows (run p fl sled s (map puts rs)) k n
  unfolding run step
  run_puts-Knows s [] k n h = h
  run_puts-Knows s (r ∷ rs) k n (m, e, le) =
      let (m', e', le') = put_monotone p fl sled s r k m e in
      run_puts-Knows (put p fl sled s r).0 rs k n (m', e', omega (arith, le, le'))

  run-Agrees :
      (s : CardRecordStore p fl sled) (cs : List (Call p fl sled))
      → Agrees p fl sled s
      → Agrees p fl sled (run p fl sled s cs)
  unfolding run
  run-Agrees s [] a = a
  run-Agrees s (c ∷ cs) a = run-Agrees (step p fl sled s c) cs (step-Agrees p fl sled s c a)

  record_of_version :
      (o : Option KadRecord) (m : ℕ) → version p fl sled o ≡ some m → (r : KadRecord) × (o ≡ some r)
  record_of_version none m h = absurd (ground (arith, h))
  record_of_version (some r) m h = (r, refl)

  -- A card that the store holds for a key, with a number that is this one or higher.
  pub record HoldsCard (s : CardRecordStore p fl sled) (k : RecordKey) (n : ℕ) : Type 0 where
    pub entry : KadRecord
    pub card : SignedCard
    pub found : lookup k s.records ≡ some entry
    pub decoded : canonical_decode ⦃c = p.signed_card_codec⦄ entry.value ≡ ok card
    pub authentic : IsAuthentic p card
    pub address : p.hash card.card.pubkey ≡ k
    pub recent : n ≤ card.card.seq

  pub run-HoldsCard :
      (max : ℕ) (db : Option (Database sled)) (cs : List (Call p fl sled)) (k : RecordKey) (n : ℕ)
      → Knows (run p fl sled (with_persistence p fl sled max db) cs) k n
      → HoldsCard (run p fl sled (with_persistence p fl sled max db) cs) k n
  unfolding with_persistence new_store lookup
  run-HoldsCard max db cs k n (m, e, le) =
      let s0 = record (new_store p fl sled max) { db = db } in
      let agrees =
        run-Agrees (with_persistence p fl sled max db) cs
          (load_from_disk-Agrees p fl sled s0 db (λ j. refl)).0 in
      let (r, f) = record_of_version _ m (sym (agrees k) ∙ e) in
      let c = run-with_persistence p fl sled max db cs k r f in
      record {
        entry = r;
        card = c.card;
        found = f;
        decoded = c.decoded;
        authentic = c.authentic;
        address = c.address;
        recent = ground (arith, le, sym e ∙ c.cached);
      }
