-- ===== src/Node/ReviewQueue/Pending.antt =====
-- What the queue lists after any calls (review_queue.rs): the appeals that were submitted last for
-- their addresses and not resolved since.
use mathlib.Core.List.{Memᴰ}
use mathlib.Core.Path.{subst}
use p2s.Prelude.{
  ◌≡◌, refl, sym, ap, ◌∙◌, ◌↔◌, ◌⊎◌, inl, inr, Option, none, some, List, [], ◌∷◌, map, arith,
  Bool-cases, nat_eq, list_beq, list_beq_iff, list_eq, ok, err, Result-cases, HashMap, lookup,
  insert, erase, beq_refl, lookup-insert, lookup-erase, Text, Bytes, utf8, HasDistinctKeys,
}
use p2s.Float.{Float, InUnit}
use p2s.Node.Sled.{Sled, IsMap}
use p2s.Node.ReviewQueue.{ReviewEntry, EntryCodec, submit, resolve, readable, list_pending}

Mem-cases {ℓ} : {A : Type ℓ} (x e : A) (xs : List A) → Memᴰ e (x ∷ xs) → (e ≡ x) ⊎ Memᴰ e xs
Mem-cases x e xs (Memᴰ.head q) = inl q
Mem-cases x e xs (Memᴰ.tail m) = inr m

module _ (fl : Float) (sled : Sled) (codec : EntryCodec fl) where
  pub data Call : Type 0 where
    submits : (now address reason : Text) (weight : fl.F64) → Call
    resolves : (address : Text) → Call

  abbrev pub step : sled.Tree → Call → sled.Tree
  step t (submits now address reason weight) = (submit fl sled codec t now address reason weight).0
  step t (resolves address) = (resolve fl sled codec t address).0

  abbrev pub run : List Call → sled.Tree → sled.Tree
  run [] t = t
  run (c ∷ calls) t = run calls (step t c)

  abbrev pub entry_of : (now address reason : Text) → fl.F64 → ReviewEntry fl
  entry_of now address reason weight = record {
    address = address;
    submitted_at = now;
    publisher_reason = reason;
    current_weight = weight;
  }

  -- An appeal: the address, when it was submitted, and the publisher's reason.
  abbrev pub Appeal : Type 0
  Appeal = Text × Text × Text

  abbrev pub appeal_of : ReviewEntry fl → Appeal
  appeal_of e = (e.address, e.submitted_at, e.publisher_reason)

  -- The appeals that are open, by their addresses in bytes.
  abbrev pub Open : Type 0
  Open = HashMap Bytes Appeal

  abbrev pub open_step : Open → Call → Open
  open_step s (submits now address reason weight) = insert (utf8 address) (address, now, reason) s
  open_step s (resolves address) = erase (utf8 address) s

  abbrev pub open_run : List Call → Open → Open
  open_run [] s = s
  open_run (c ∷ calls) s = open_run calls (open_step s c)

  -- Every weight is a number from 0 to 1.
  abbrev pub AllInUnit : List Call → Type 0
  AllInUnit [] = Unit {0}
  AllInUnit (submits now address reason weight ∷ calls) = InUnit fl weight × AllInUnit calls
  AllInUnit (resolves address ∷ calls) = AllInUnit calls

  -- `serde_json::to_vec` writes every entry.
  abbrev pub Writes : Type 0
  Writes = (e : ReviewEntry fl) → (b : Bytes) × (codec.to_vec e ≡ ok b)

  abbrev pub read : Option Bytes → Option Appeal
  read none = none
  read (some value) = elim (codec.from_slice value) [ ok e ↦ some (appeal_of e) | err x ↦ none ]

  -- The appeals that the queue lists.
  abbrev listed : List (Option (Bytes × Bytes)) → List Appeal
  listed entries = map appeal_of (readable fl sled codec entries)

  -- An entry that is found behind the first one is found, since each key stands once.
  found_behind :
      (l : HashMap Bytes Bytes) (e : Appeal) (j v k : Bytes)
      → lookup j l ≡ none
      → read (lookup k l) ≡ some e
      → read (lookup k ((j, v) ∷ l)) ≡ some e
  unfolding lookup
  found_behind l e j v k d h = elim (Bool-cases (list_beq j k)) [
    | inr miss ↦ ground (arith, h, miss)
    | inl hit ↦
        let gone : lookup k l ≡ none = ap (λ i. lookup i l) (sym ((list_beq_iff j k).0 hit)) ∙ d in
        absurd (ground (arith, h, gone))
  ]

  readable-found :
      (l : HashMap Bytes Bytes) (e : Appeal)
      → HasDistinctKeys l
      → Memᴰ e (listed (map some l))
      → (k : Bytes) × (read (lookup k l) ≡ some e)
  unfolding readable lookup
  readable-found [] e d m = elim m [ ]
  readable-found ((j, v) ∷ l) e d m =
      let behind : Memᴰ e (listed (map some l))
          → (k : Bytes) × (read (lookup k ((j, v) ∷ l)) ≡ some e) =
        λ r. let (k, h) = readable-found l e d.1 r in (k, found_behind l e j v k d.0 h) in
      elim (Result-cases (codec.from_slice v)) [
        | inr (x, f) ↦ behind (rw (f, readable) at m)
        | inl (x, f) ↦ elim (Mem-cases (appeal_of x) e _ (rw (f, readable) at m)) [
          | inr r ↦ behind r
          | inl q ↦ (j, ground (arith, f, q, beq_refl j))
        ]
      ]

  found-readable :
      (l : HashMap Bytes Bytes) (e : Appeal) (k : Bytes)
      → read (lookup k l) ≡ some e
      → Memᴰ e (listed (map some l))
  unfolding readable lookup
  found-readable [] e k h = absurd (ground (arith, h))
  found-readable ((j, v) ∷ l) e k h = elim (Bool-cases (list_beq j k)) [
    | inl hit ↦ elim (Result-cases (codec.from_slice v)) [
      | inl (x, f) ↦ rw (f, readable) (Memᴰ.head (ground (arith, h, hit, f)))
      | inr (x, f) ↦ absurd (ground (arith, h, hit, f))
    ]
    | inr miss ↦
        let rest = found-readable l e k (ground (arith, h, miss)) in
        elim (Result-cases (codec.from_slice v)) [
          | inl (x, f) ↦ rw (f, readable) (Memᴰ.tail rest)
          | inr (x, f) ↦ rw (f, readable) rest
        ]
  ]

  module _ (m : IsMap sled) (writes : Writes) where
    record Agrees (t : sled.Tree) (s : Open) : Type 0 where
      reads : (k : Bytes) → read (lookup k (m.entries t)) ≡ lookup k s
      own : (k : Bytes) (e : Appeal) → lookup k s ≡ some e → k ≡ utf8 e.0

    submit-Agrees :
        (t : sled.Tree) (s : Open) (now address reason : Text) (weight : fl.F64)
        → InUnit fl weight
        → Agrees t s
        → Agrees
            (step t (submits now address reason weight))
            (open_step s (submits now address reason weight))
    unfolding submit
    submit-Agrees t s now address reason weight number a =
        let entry = entry_of now address reason weight in
        let (b, f) = writes entry in
        let (w, g) = codec.read_back entry b number f in
        record {
          reads = λ k. ground (
            arith,
            f,
            g,
            a.reads k,
            m.lookup_inserted t (utf8 address) b k,
            lookup-insert (utf8 address) k (appeal_of entry) s,
          );
          own = λ k e h. ground (
            arith,
            a.own k e,
            h,
            lookup-insert (utf8 address) k (appeal_of entry) s,
            list_beq_iff (utf8 address) k,
          );
        }

    resolve-Agrees :
        (t : sled.Tree) (s : Open) (address : Text)
        → Agrees t s
        → Agrees (step t (resolves address)) (open_step s (resolves address))
    unfolding resolve
    resolve-Agrees t s address a = record {
      reads = λ k.
          ground (
            arith,
            a.reads k,
            m.lookup_removed t (utf8 address) k,
            lookup-erase (utf8 address) k s,
          );
      own = λ k e h. ground (arith, a.own k e, h, lookup-erase (utf8 address) k s);
    }

    run-Agrees :
        (calls : List Call) (t : sled.Tree) (s : Open)
        → AllInUnit calls
        → Agrees t s
        → Agrees (run calls t) (open_run calls s)
    run-Agrees [] t s n a = a
    run-Agrees (submits now address reason weight ∷ calls) t s n a =
        run-Agrees calls _ _ n.1 (submit-Agrees t s now address reason weight n.0 a)
    run-Agrees (resolves address ∷ calls) t s n a =
        run-Agrees calls _ _ n (resolve-Agrees t s address a)

    -- If the database behaves as a map and every entry can be written: after any submissions, for
    -- weights that are numbers from 0 to 1, and resolutions on a queue that was empty, an appeal, that
    -- is an address with a time and a reason, is listed exactly if it is the last that was submitted
    -- for its address, and was not resolved since.
    pub list_pending-run :
        (calls : List Call) (t : sled.Tree) (e : Appeal)
        → m.entries t ≡ []
        → AllInUnit calls
        → Memᴰ e (map appeal_of (list_pending fl sled codec (run calls t)))
          ↔ (lookup (utf8 e.0) (open_run calls []) ≡ some e)
    unfolding list_pending lookup
    list_pending-run calls t e empty n =
        let start : Agrees t [] = record {
          reads = λ k. rw (empty, lookup) refl;
          own = λ k x h. absurd (ground (arith, h));
        } in
        let a = run-Agrees calls t [] n start in
        let t' = run calls t in
        (
          λ h.
              let (k, f) =
                readable-found (m.entries t') e (m.distinct t')
                  (subst (λ l. Memᴰ e (listed l)) (m.iter_lem t') h) in
              let g = sym (a.reads k) ∙ f in
              subst (λ j. lookup j (open_run calls []) ≡ some e) (a.own k e g) g,
          λ h.
              subst (λ l. Memᴰ e (listed l)) (sym (m.iter_lem t'))
                (found-readable (m.entries t') e (utf8 e.0) (a.reads (utf8 e.0) ∙ h)),
        )
