-- ===== src/Node/EventLoop/Found.antt =====
-- A record that a command puts is found by the next command for its key (event_loop.rs).
use p2s.Prelude.{
  ℕ, ◌≡◌, refl, sym, ap, ◌∙◌, Option, some, List, ◌∷◌, ◌++◌, map, nat_eq, list_eq, Result, ok, err,
  lookup, Bytes,
}
use mathlib.Core.Path.{subst}
use p2s.Platform.{Platform}
use p2s.Float.{Float}
use p2s.Node.Sled.{Sled, Database}
use p2s.Node.RecordStore.{
  KadRecord, KadStoreError, CardRecordStore, disk_record, get, put, validate_and_extract_seq,
  with_persistence,
}
use p2s.Node.RecordStore.Validity.{Call, puts, step, run}
use p2s.Node.RecordStore.Versions.{HasRoom, put-valid}
use p2s.Node.RecordStore.Newest.{Knows, put-Knows, run_puts-Knows, HoldsCard, run-HoldsCard}
use p2s.Node.EventLoop.{
  Node, Locks, Answers, Reply, Turn, found, send, handle_put, handle_get, after_put, after_get,
  count_record, run_event_loop,
}
use p2s.Node.EventLoop.Stored.{
  run-append, run_event_loop-store, reply_to_put-store, count_record-store,
}

module _ (p : Platform) (fl : Float) (sled : Sled) where
  after_put_taken :
      (locks : Locks) (answers : Answers p fl sled) (reply : Reply) (n : Node p fl sled)
      (w : CardRecordStore p fl sled × Result KadStoreError (Unit {0}))
      → w.1 ≡ ok tt
      → (after_put p fl sled locks answers reply n w.0 w.1).store
        ≡ run p fl sled w.0 answers.put_calls
  unfolding after_put
  after_put_taken locks answers reply n (store, err e) h = cc
  after_put_taken locks answers reply n (store, ok t) h =
      let taken : Node p fl sled = record n { store = run p fl sled store answers.put_calls } in
      reply_to_put-store p fl sled locks reply (count_record p fl sled locks taken)
        answers.put_answer
      ∙ count_record-store p fl sled locks taken

  -- The store behind a put that it takes.
  handle_put_taken :
      (locks : Locks) (answers : Answers p fl sled) (key value : Bytes) (reply : Reply)
      (n : Node p fl sled) (seq : ℕ)
      → validate_and_extract_seq p fl sled (disk_record key value) ≡ ok seq
      → HasRoom p fl sled n.store key
      → (handle_put p fl sled locks answers key value reply n).store
        ≡ run p fl sled (put p fl sled n.store (disk_record key value)).0 answers.put_calls
  unfolding handle_put
  handle_put_taken locks answers key value reply n seq v room =
      after_put_taken locks answers reply n (put p fl sled n.store (disk_record key value))
        (ap (λ w. w.1) (put-valid p fl sled n.store (disk_record key value) seq v room))

  handle_get_found :
      (locks : Locks) (answers : Answers p fl sled) (key : Bytes) (reply : Reply)
      (n : Node p fl sled) (r : KadRecord)
      → lookup key n.store.records ≡ some r
      → (handle_get p fl sled locks answers key reply n).sent ≡ (reply, found r.value) ∷ n.sent
  unfolding handle_get get after_get send
  handle_get_found locks answers key reply n r h = rw h refl

  -- What the next command finds: one reply, with a card of the key.
  pub record IsFound (before after : Node p fl sled) (reply : Reply) (key : Bytes) (seq : ℕ)
      : Type 0 where
    pub held : HoldsCard p fl sled before.store key seq
    pub answered : after.sent ≡ (reply, found held.entry.value) ∷ before.sent

  put_as_run :
      (s start : CardRecordStore p fl sled) (cs : List (Call p fl sled)) (r : KadRecord)
      (rs : List KadRecord)
      → s ≡ run p fl sled start cs
      → run p fl sled (put p fl sled s r).0 (map puts rs)
        ≡ run p fl sled start (cs ++ (puts r ∷ map puts rs))
  unfolding run step
  put_as_run s start cs r rs e =
      ap (λ t. run p fl sled t (puts r ∷ map puts rs)) e
      ∙ run-append p fl sled start cs (puts r ∷ map puts rs)

  -- On a node that has started from a database, after any turns of its loop: if a valid record for which
  -- there is room is put, and Kademlia puts nothing but records on the way, then the next get for its
  -- key is answered at once, with an authentic card of this key whose number is not lower.
  pub handle_get-handle_put :
      (max : ℕ) (db : Option (Database sled)) (start : Node p fl sled)
      (turns : List (Locks × Turn p fl sled)) (locks locks' : Locks)
      (answers answers' : Answers p fl sled) (key value : Bytes) (reply reply' : Reply) (seq : ℕ)
      (rs : List KadRecord)
      → start.store ≡ with_persistence p fl sled max db
      → validate_and_extract_seq p fl sled (disk_record key value) ≡ ok seq
      → HasRoom p fl sled (run_event_loop p fl sled turns start).store key
      → answers.put_calls ≡ map puts rs
      → let n =
          handle_put p fl sled locks answers key value reply
            (run_event_loop p fl sled turns start) in
        IsFound n (handle_get p fl sled locks' answers' key reply' n) reply' key seq
  handle_get-handle_put max db start turns locks locks' answers answers' key value reply reply' seq
        rs h v room only =
      let m = run_event_loop p fl sled turns start in
      let n = handle_put p fl sled locks answers key value reply m in
      let s0 = with_persistence p fl sled max db in
      let r = disk_record key value in
      let (cs, e) = run_event_loop-store p fl sled turns start in
      let calls = cs ++ (puts r ∷ map puts rs) in
      let taken : n.store ≡ run p fl sled (put p fl sled m.store r).0 (map puts rs) =
        handle_put_taken locks answers key value reply m seq v room
        ∙ ap (run p fl sled (put p fl sled m.store r).0) only in
      let same : n.store ≡ run p fl sled s0 calls =
        taken ∙ put_as_run m.store s0 cs r rs (e ∙ ap (λ s. run p fl sled s cs) h) in
      let knows =
        run_puts-Knows p fl sled (put p fl sled m.store r).0 rs key seq
          (put-Knows p fl sled m.store r seq v room) in
      let held =
        subst (λ s. HoldsCard p fl sled s key seq) (sym same)
          (run-HoldsCard p fl sled max db calls key seq
            (subst (λ s. Knows p fl sled s key seq) (sym taken ∙ same) knows)) in
      record {
        held = held;
        answered = handle_get_found locks' answers' key reply' n held.entry held.found;
      }
