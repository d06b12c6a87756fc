-- ===== src/Node/RecordStore/Versions.antt =====
-- Versions of one card: the highest sequence number wins, in whatever order records arrive, and what
-- the capacity does to this (record_store.rs, `put` and `remove`).
use p2s.Prelude.{
  ℕ, ◌≤◌, ◌≡◌, refl, sym, ap, ◌∙◌, ◌≢◌, inl, inr, Bool, true, false, not, ◌&&◌, Option, none, some,
  arith, ltb, leb, if◌then◌else◌, Bool-cases, nat_eq, list_beq, list_beq_iff, list_eq, length, ok,
  err, Result-cases, lookup, contains_key, lookup-insert, lookup-insert_self, length-insert,
}
use mathlib.Core.Path.{subst}
use p2s.Platform.{Platform}
use p2s.Float.{Float}
use p2s.Node.Sled.{Sled}
use p2s.Node.RecordStore.{
  RecordKey, KadRecord, KadStoreError, max_records_reached, CardRecordStore,
  validate_and_extract_seq, write, supersede, put,
}

module _ (p : Platform) (fl : Float) (sled : Sled) where
  abbrev pub Store : Type 0
  Store = CardRecordStore p fl sled

  -- The store has room for a record under this key.
  abbrev pub HasRoom : Store → RecordKey → Type 0
  HasRoom s k = (leb s.max_records (length s.records) && not (contains_key k s.records)) ≡ false

  -- The newer of a record that arrives and what the cache knows.
  abbrev pub is_newer : ℕ → Option ℕ → Bool
  is_newer seq none = true
  is_newer seq (some existing) = ltb existing seq

  supersede-eq :
      (s : Store) (r : KadRecord) (seq : ℕ) (o : Option ℕ)
      → supersede p fl sled s r seq o ≡ (if is_newer seq o then write p fl sled s r seq else s)
  unfolding supersede
  supersede-eq s r seq none = refl
  supersede-eq s r seq (some n) = ground arith

  -- A put of a valid record for which there is room.
  pub put-valid :
      (s : Store) (r : KadRecord) (seq : ℕ)
      → validate_and_extract_seq p fl sled r ≡ ok seq
      → HasRoom s r.key
      → put p fl sled s r
        ≡ (if is_newer seq (lookup r.key s.seq_cache) then write p fl sled s r seq else s, ok tt)
  unfolding put
  put-valid s r seq h room =
      rw (room, h)
        (ap (λ (t : Store). (t, ok tt)) (supersede-eq s r seq (lookup r.key s.seq_cache)))

  module _ (s : Store) (r : KadRecord) (seq : ℕ)
      (valid : validate_and_extract_seq p fl sled r ≡ ok seq) (room : HasRoom s r.key) where
    abbrev wins : RecordKey → Bool
    wins j = list_beq r.key j && is_newer seq (lookup r.key s.seq_cache)

    seq-put :
        (j : RecordKey)
        → lookup j (put p fl sled s r).0.seq_cache
          ≡ (if wins j then some seq else lookup j s.seq_cache)
    unfolding write
    seq-put j =
        rw (put-valid s r seq valid room) (ground (arith, lookup-insert r.key j seq s.seq_cache))

    record-put :
        (j : RecordKey)
        → lookup j (put p fl sled s r).0.records ≡ (if wins j then some r else lookup j s.records)
    unfolding write
    record-put j =
        rw (put-valid s r seq valid room) (ground (arith, lookup-insert r.key j r s.records))

    max-put : (put p fl sled s r).0.max_records ≡ s.max_records
    unfolding write
    max-put = rw (put-valid s r seq valid room) (ground arith)

    room-put : HasRoom (put p fl sled s r).0 r.key
    unfolding write
    room-put =
        rw (put-valid s r seq valid room) (ground (arith, lookup-insert_self r.key r s.records))

  module _ (s : Store) (r r' : KadRecord) (n n' : ℕ)
      (v : validate_and_extract_seq p fl sled r ≡ ok n)
      (v' : validate_and_extract_seq p fl sled r' ≡ ok n') (same : r.key ≡ r'.key)
      (room : HasRoom s r.key) where
    abbrev once : Store
    once = (put p fl sled s r).0

    abbrev twice : Store
    twice = (put p fl sled once r').0

    -- The number under the key of both after the first put.
    abbrev known : Option ℕ
    known = if is_newer n (lookup r.key s.seq_cache) then some n else lookup r.key s.seq_cache

    known-once : lookup r'.key once.seq_cache ≡ known
    known-once = ground (
      arith,
      seq-put s r n v room r'.key,
      list_beq_iff r.key r'.key,
      ap (λ k. lookup k s.seq_cache) same,
    )

    abbrev second_wins : RecordKey → Bool
    second_wins j = list_beq r.key j && is_newer n' known

    room-once : HasRoom once r'.key
    room-once = subst (HasRoom once) same (room-put s r n v room)

    records-twice :
        (j : RecordKey)
        → lookup j twice.records ≡ (
            if second_wins j
            then some r'
            else if list_beq r.key j && is_newer n (lookup r.key s.seq_cache)
            then some r
            else lookup j s.records)
    records-twice j = ground (
      arith,
      record-put once r' n' v' room-once j,
      record-put s r n v room j,
      known-once,
      ap (λ k. list_beq k j) same,
    )

    seqs-twice :
        (j : RecordKey)
        → lookup j twice.seq_cache ≡ (
            if second_wins j
            then some n'
            else if list_beq r.key j && is_newer n (lookup r.key s.seq_cache)
            then some n
            else lookup j s.seq_cache)
    seqs-twice j = ground (
      arith,
      seq-put once r' n' v' room-once j,
      seq-put s r n v room j,
      known-once,
      ap (λ k. list_beq k j) same,
    )

  -- Two valid versions of one card with different numbers: in whichever order they are put, every key
  -- has the same record and the same number in the end, as long as there is room for the key.
  pub put_order :
      (s : Store) (r r' : KadRecord) (n n' : ℕ) (j : RecordKey)
      → validate_and_extract_seq p fl sled r ≡ ok n
      → validate_and_extract_seq p fl sled r' ≡ ok n'
      → r.key ≡ r'.key
      → n ≢ n'
      → HasRoom s r.key
      → let a = (put p fl sled (put p fl sled s r).0 r').0 in
        let b = (put p fl sled (put p fl sled s r').0 r).0 in
        (lookup j a.records ≡ lookup j b.records) × (lookup j a.seq_cache ≡ lookup j b.seq_cache)
  put_order s r r' n n' j v v' same differ room =
      let room' : HasRoom s r'.key = subst (HasRoom s) same room in
      let keys = ap (λ k. list_beq k j) same in
      let seqs = ap (λ k. lookup k s.seq_cache) same in
      (
        ground (
          arith,
          records-twice s r r' n n' v v' same room j,
          records-twice s r' r n' n v' v (sym same) room' j,
          keys,
          seqs,
        ),
        ground (
          arith,
          seqs-twice s r r' n n' v v' same room j,
          seqs-twice s r' r n' n v' v (sym same) room' j,
          keys,
          seqs,
        ),
      )

  -- The four outcomes of a put.
  pub data PutOutcome (s : Store) (r : KadRecord) : Type 0 where
    refused : (e : KadStoreError) → put p fl sled s r ≡ (s, err e) → PutOutcome s r
    stale :
        (seq existing : ℕ)
        → validate_and_extract_seq p fl sled r ≡ ok seq
        → lookup r.key s.seq_cache ≡ some existing
        → seq ≤ existing
        → put p fl sled s r ≡ (s, ok tt)
        → PutOutcome s r
    stored :
        (seq : ℕ)
        → validate_and_extract_seq p fl sled r ≡ ok seq
        → HasRoom s r.key
        → is_newer seq (lookup r.key s.seq_cache) ≡ true
        → put p fl sled s r ≡ (write p fl sled s r seq, ok tt)
        → PutOutcome s r

  stale_of_valid :
      (s : Store) (r : KadRecord) (seq : ℕ) (o : Option ℕ)
      → validate_and_extract_seq p fl sled r ≡ ok seq
      → HasRoom s r.key
      → lookup r.key s.seq_cache ≡ o
      → is_newer seq o ≡ false
      → PutOutcome s r
  stale_of_valid s r seq none v room e f = absurd (ground arith)
  stale_of_valid s r seq (some n) v room e f =
      stale seq n v e (ground arith) (ground (arith, put-valid s r seq v room))

  pub put-PutOutcome : (s : Store) (r : KadRecord) → PutOutcome s r
  unfolding put
  put-PutOutcome s r =
      elim (Bool-cases
        (leb s.max_records (length s.records) && not (contains_key r.key s.records))) [
          | inl full ↦ refused max_records_reached (rw full refl)
          | inr room ↦ elim (Result-cases (validate_and_extract_seq p fl sled r)) [
            | inr (e, f) ↦ refused e (rw (room, f) refl)
            | inl (seq, f) ↦ elim (Bool-cases (is_newer seq (lookup r.key s.seq_cache))) [
              | inr old ↦ stale_of_valid s r seq (lookup r.key s.seq_cache) f room refl old
              | inl new ↦ stored seq f room new (ground (arith, put-valid s r seq f room))
            ]
          ]
        ]

  write_monotone :
      (s : Store) (r : KadRecord) (seq : ℕ) (j : RecordKey) (n : ℕ)
      → is_newer seq (lookup r.key s.seq_cache) ≡ true
      → lookup j s.seq_cache ≡ some n
      → (m : ℕ) × (lookup j (write p fl sled s r seq).seq_cache ≡ some m) × (n ≤ m)
  unfolding write
  write_monotone s r seq j n new h = elim (Bool-cases (list_beq r.key j)) [
    | inl hit ↦
        let same : lookup r.key s.seq_cache ≡ some n =
          ap (λ k. lookup k s.seq_cache) ((list_beq_iff r.key j).0 hit) ∙ h in
        (seq, ground (arith, lookup-insert r.key j seq s.seq_cache), ground (arith, same))
    | inr miss ↦ (n, ground (arith, lookup-insert r.key j seq s.seq_cache), omega arith)
  ]

  -- A put never lowers a sequence number, under any key, whatever the record.
  pub put_monotone :
      (s : Store) (r : KadRecord) (j : RecordKey) (n : ℕ)
      → lookup j s.seq_cache ≡ some n
      → (m : ℕ) × (lookup j (put p fl sled s r).0.seq_cache ≡ some m) × (n ≤ m)
  put_monotone s r j n h = elim (put-PutOutcome s r) [
    | refused e q ↦ rw q (n, h, omega arith)
    | stale seq existing v c le q ↦ rw q (n, h, omega arith)
    | stored seq v room new q ↦ rw q (write_monotone s r seq j n new h)
  ]

  length-write :
      (s : Store) (r : KadRecord) (seq : ℕ)
      → HasRoom s r.key
      → length s.records ≤ s.max_records
      → length (write p fl sled s r seq).records ≤ s.max_records
  unfolding write
  length-write s r seq room h = ground (arith, length-insert r.key r s.records)

  -- The bound on the number of records survives every put.
  pub length-put :
      (s : Store) (r : KadRecord)
      → length s.records ≤ s.max_records
      → length (put p fl sled s r).0.records ≤ s.max_records
  length-put s r h = elim (put-PutOutcome s r) [
    | refused e q ↦ rw q h
    | stale seq existing v c le q ↦ rw q h
    | stored seq v room new q ↦ rw q (length-write s r seq room h)
  ]
