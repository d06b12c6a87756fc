-- ===== src/Node/RecordStore/Validity.antt =====
-- The invariant of the record store: what it holds has been verified, under its own address, with
-- its sequence number in the cache.
use p2s.Prelude.{
  ℕ, ◌≡◌, sym, ap, ◌∙◌, inl, inr, not, ◌&&◌, Option, none, some, List, [], ◌∷◌, arith, leb, ◌==◌,
  Bool-cases, nat_eq, list_beq, list_beq_iff, list_eq, length, ok, Result-cases, HashMap, lookup,
  insert, erase, contains_key, lookup-insert, lookup-erase, Bytes,
}
use p2s.Platform.{Platform}
use p2s.Float.{Float}
use p2s.Proto.{SignedCard, canonical_decode}
use p2s.Card.{verify_card, compute_address}
use p2s.Card.Verify.{IsAuthentic, verify_card_iff}
use p2s.Node.Sled.{Sled, Database}
use p2s.Node.RecordStore.{
  RecordKey, KadRecord, disk_record, CardRecordStore, new_store, validate_and_extract_seq,
  set_trust_weight, write, supersede, put, remove, load_entry, load_entries, load_weight,
  load_weights, load_weight_tree, load_from_disk, with_persistence,
}

module _ (p : Platform) (fl : Float) (sled : Sled) where
  -- What a record under a key has to be: its own key, valid, and with its number in the cache.
  abbrev IsVerifiedAt : HashMap RecordKey ℕ → RecordKey → KadRecord → Type 0
  IsVerifiedAt seqs k r =
      (seq : ℕ) × (r.key ≡ k)
      × (validate_and_extract_seq p fl sled r ≡ ok seq)
      × (lookup k seqs ≡ some seq)

  abbrev AllVerified : HashMap RecordKey ℕ → HashMap RecordKey KadRecord → Type 0
  AllVerified seqs recs =
      (k : RecordKey) (r : KadRecord) → lookup k recs ≡ some r → IsVerifiedAt seqs k r

  pub record IsValid (s : CardRecordStore p fl sled) : Type 0 where
    pub verified : AllVerified s.seq_cache s.records

  new_store-IsValid : (n : ℕ) → IsValid (new_store p fl sled n)
  unfolding new_store lookup
  new_store-IsValid n = record { verified = λ k r h. absurd (ground arith) }

  insert-AllVerified :
      (seqs : HashMap RecordKey ℕ) (recs : HashMap RecordKey KadRecord) (r : KadRecord) (seq : ℕ)
      → validate_and_extract_seq p fl sled r ≡ ok seq
      → AllVerified seqs recs
      → AllVerified (insert r.key seq seqs) (insert r.key r recs)
  insert-AllVerified seqs recs r seq h v k x e = elim (Bool-cases (list_beq r.key k)) [
    | inl hit ↦
        let same : r ≡ x = ground (arith, lookup-insert r.key k r recs) in
        (
          seq,
          ap (λ (y : KadRecord). y.key) (sym same) ∙ (list_beq_iff r.key k).0 hit,
          ap (validate_and_extract_seq p fl sled) (sym same) ∙ h,
          ground (arith, lookup-insert r.key k seq seqs),
        )
    | inr miss ↦
        let (n, a, b, c) = v k x (ground (arith, lookup-insert r.key k r recs)) in
        (n, a, b, ground (arith, lookup-insert r.key k seq seqs))
  ]

  write-IsValid :
      (s : CardRecordStore p fl sled) (r : KadRecord) (seq : ℕ)
      → validate_and_extract_seq p fl sled r ≡ ok seq
      → IsValid s
      → IsValid (write p fl sled s r seq)
  unfolding write
  write-IsValid s r seq h v = record {
    verified = insert-AllVerified s.seq_cache s.records r seq h v.verified;
  }

  supersede-IsValid :
      (s : CardRecordStore p fl sled) (r : KadRecord) (seq : ℕ) (o : Option ℕ)
      → validate_and_extract_seq p fl sled r ≡ ok seq
      → IsValid s
      → IsValid (supersede p fl sled s r seq o)
  unfolding supersede
  supersede-IsValid s r seq none h v = write-IsValid s r seq h v
  supersede-IsValid s r seq (some n) h v = elim (Bool-cases (leb seq n)) [
    | inl e ↦ rw e v
    | inr e ↦ rw e (write-IsValid s r seq h v)
  ]

  put-IsValid :
      (s : CardRecordStore p fl sled) (r : KadRecord) → IsValid s → IsValid (put p fl sled s r).0
  unfolding put
  put-IsValid s r v =
      elim (Bool-cases
        (leb s.max_records (length s.records) && not (contains_key r.key s.records))) [
          | inl e ↦ rw e v
          | inr e ↦ elim (Result-cases (validate_and_extract_seq p fl sled r)) [
            | inr (x, f) ↦ rw (e, f) v
            | inl (seq, f) ↦ rw (e, f) (supersede-IsValid s r seq (lookup r.key s.seq_cache) f v)
          ]
        ]

  erase-AllVerified :
      (seqs : HashMap RecordKey ℕ) (recs : HashMap RecordKey KadRecord) (key : RecordKey)
      → AllVerified seqs recs
      → AllVerified (erase key seqs) (erase key recs)
  erase-AllVerified seqs recs key v k x e =
      let (n, a, b, c) = v k x (ground (arith, lookup-erase key k recs)) in
      (n, a, b, ground (arith, lookup-erase key k recs, lookup-erase key k seqs))

  remove-IsValid :
      (s : CardRecordStore p fl sled) (key : RecordKey)
      → IsValid s
      → IsValid (remove p fl sled s key)
  unfolding remove
  remove-IsValid s key v = record {
    verified = erase-AllVerified s.seq_cache s.records key v.verified;
  }

  set_trust_weight-IsValid :
      (s : CardRecordStore p fl sled) (key : RecordKey) (w : fl.F64)
      → IsValid s
      → IsValid (set_trust_weight p fl sled s key w)
  unfolding set_trust_weight
  set_trust_weight-IsValid s key w v = record { verified = v.verified }

  load_entry-IsValid :
      (s : CardRecordStore p fl sled) (o : Option (Bytes × Bytes))
      → IsValid s
      → IsValid (load_entry p fl sled s o)
  unfolding load_entry
  load_entry-IsValid s none v = v
  load_entry-IsValid s (some (key, value)) v =
      let r = disk_record key value in
      elim (Result-cases (validate_and_extract_seq p fl sled r)) [
        | inr (x, f) ↦ rw (f, load_entry) v
        | inl (seq, f) ↦
            rw (f, load_entry)
              (record { verified = insert-AllVerified s.seq_cache s.records r seq f v.verified })
      ]

  load_entries-IsValid :
      (s : CardRecordStore p fl sled) (l : List (Option (Bytes × Bytes)))
      → IsValid s
      → IsValid (load_entries p fl sled s l)
  unfolding load_entries
  load_entries-IsValid s [] v = v
  load_entries-IsValid s (o ∷ l) v =
      load_entries-IsValid (load_entry p fl sled s o) l (load_entry-IsValid s o v)

  load_weight-IsValid :
      (s : CardRecordStore p fl sled) (o : Option (Bytes × Bytes))
      → IsValid s
      → IsValid (load_weight p fl sled s o)
  unfolding load_weight
  load_weight-IsValid s none v = v
  load_weight-IsValid s (some (key, bytes)) v = elim (Bool-cases (length bytes == 8)) [
    | inl e ↦ rw e (record { verified = v.verified })
    | inr e ↦ rw e v
  ]

  load_weights-IsValid :
      (s : CardRecordStore p fl sled) (l : List (Option (Bytes × Bytes)))
      → IsValid s
      → IsValid (load_weights p fl sled s l)
  unfolding load_weights
  load_weights-IsValid s [] v = v
  load_weights-IsValid s (o ∷ l) v =
      load_weights-IsValid (load_weight p fl sled s o) l (load_weight-IsValid s o v)

  load_weight_tree-IsValid :
      (s : CardRecordStore p fl sled) (o : Option sled.Tree)
      → IsValid s
      → IsValid (load_weight_tree p fl sled s o)
  unfolding load_weight_tree
  load_weight_tree-IsValid s none v = v
  load_weight_tree-IsValid s (some tree) v = load_weights-IsValid s (sled.iter tree) v

  with_persistence-IsValid :
      (n : ℕ) (db : Option (Database sled)) → IsValid (with_persistence p fl sled n db)
  unfolding with_persistence load_from_disk
  with_persistence-IsValid n none = record { verified = (new_store-IsValid n).verified }
  with_persistence-IsValid n (some db) = load_weight_tree-IsValid _ db.weights (
      load_entries-IsValid _ (sled.iter db.cards)
        (record { verified = (new_store-IsValid n).verified }))

  -- The calls that change a store.
  pub data Call : Type 0 where
    puts : KadRecord → Call
    removes : RecordKey → Call
    weighs : RecordKey → fl.F64 → Call

  unfoldable pub step : CardRecordStore p fl sled → Call → CardRecordStore p fl sled
  step s (puts r) = (put p fl sled s r).0
  step s (removes key) = remove p fl sled s key
  step s (weighs key w) = set_trust_weight p fl sled s key w

  unfoldable pub run : CardRecordStore p fl sled → List Call → CardRecordStore p fl sled
  run s [] = s
  run s (c ∷ cs) = run (step s c) cs

  step-IsValid : (s : CardRecordStore p fl sled) (c : Call) → IsValid s → IsValid (step s c)
  unfolding step
  step-IsValid s (puts r) v = put-IsValid s r v
  step-IsValid s (removes key) v = remove-IsValid s key v
  step-IsValid s (weighs key w) v = set_trust_weight-IsValid s key w v

  run-IsValid : (s : CardRecordStore p fl sled) (cs : List Call) → IsValid s → IsValid (run s cs)
  unfolding run
  run-IsValid s [] v = v
  run-IsValid s (c ∷ cs) v = run-IsValid (step s c) cs (step-IsValid s c v)

  -- A record that is stored under a key, seen from outside: a signed card, authentic, whose public
  -- key hashes to the key, and the sequence number that the store keeps for it.
  pub record IsCardAt (s : CardRecordStore p fl sled) (k : RecordKey) (r : KadRecord) : Type 0 where
    pub card : SignedCard
    pub decoded : canonical_decode ⦃c = p.signed_card_codec⦄ r.value ≡ ok card
    pub authentic : IsAuthentic p card
    pub address : p.hash card.card.pubkey ≡ k
    pub own_key : r.key ≡ k
    pub cached : lookup k s.seq_cache ≡ some card.card.seq

  validated :
      (r : KadRecord) (seq : ℕ)
      → validate_and_extract_seq p fl sled r ≡ ok seq
      → (c : SignedCard) × (canonical_decode ⦃c = p.signed_card_codec⦄ r.value ≡ ok c)
        × (verify_card p c ≡ ok tt)
        × (p.hash c.card.pubkey ≡ r.key)
        × (c.card.seq ≡ seq)
  unfolding validate_and_extract_seq compute_address
  validated r seq h = elim (Result-cases (canonical_decode ⦃c = p.signed_card_codec⦄ r.value)) [
    | inr (x, f) ↦ absurd (ground arith)
    | inl (c, f) ↦ elim (Result-cases (verify_card p c)) [
      | inr (x, g) ↦ absurd (ground arith)
      | inl (u, g) ↦ elim (Bool-cases (list_beq r.key (p.hash c.card.pubkey))) [
        | inr q ↦ absurd (ground arith)
        | inl q ↦ (c, f, g, sym ((list_beq_iff _ _).0 q), ground arith)
      ]
    ]
  ]

  -- Whatever the disk held at the start and whatever is put, removed or weighed since: each record in
  -- the store stands under its own key, its value decodes to a card whose signature verifies and whose
  -- public key hashes to that key, and the card's sequence number is the one in the cache.
  pub run-with_persistence :
      (n : ℕ) (db : Option (Database sled)) (cs : List Call) (k : RecordKey) (r : KadRecord)
      → lookup k (run (with_persistence p fl sled n db) cs).records ≡ some r
      → IsCardAt (run (with_persistence p fl sled n db) cs) k r
  run-with_persistence n db cs k r h =
      let s = run (with_persistence p fl sled n db) cs in
      let v = run-IsValid (with_persistence p fl sled n db) cs (with_persistence-IsValid n db) in
      let (seq, own, valid, cached) = v.verified k r h in
      let (c, d, g, a, q) = validated r seq valid in
      record {
        card = c;
        decoded = d;
        authentic = (verify_card_iff p c).0 g;
        address = a ∙ own;
        own_key = own;
        cached = cached ∙ ap some (sym q);
      }
