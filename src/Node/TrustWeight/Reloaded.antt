-- ===== src/Node/TrustWeight/Reloaded.antt =====
-- The weights that are known after a restart (trust_weight.rs, `set` and `load_from_disk`).
use p2s.Prelude.{
  ◌≡◌, refl, sym, ap, ◌∙◌, inl, inr, true, Option, none, some, List, [], ◌∷◌, map, arith, ltb, ◌==◌,
  if◌then◌else◌, Bool-cases, Option-cases, nat_eq, list_beq, list_beq_iff, list_eq, length, all,
  HashMap, lookup, lookup-insert, Text, Bytes, utf8_char, utf8, HasDistinctKeys,
}
use p2s.Float.{Float}
use p2s.Node.Sled.{Sled, IsMap}
use p2s.Node.TrustWeight.{
  TrustWeightStore, set, get, insert_weight, load_entry, load_entries, load_from_disk,
  with_persistence,
}

-- An address is written in hexadecimal digits, so it is ASCII.
abbrev pub IsAscii : Text → Type 0
IsAscii t = all (λ c. ltb c 0x80) t ≡ true

pub utf8-ascii : (t : Text) → IsAscii t → utf8 t ≡ t
unfolding utf8 utf8_char
utf8-ascii [] h = refl
utf8-ascii (c ∷ t) h = ground (arith, h, utf8-ascii t)

-- What the node relies on: ASCII is UTF-8, and the text that bytes stand for has these bytes.
pub record IsUtf8Reader (from_utf8 : Bytes → Option Text) : Type 0 where
  pub reads_ascii : (t : Text) → IsAscii t → from_utf8 t ≡ some t
  pub reads_own : (k : Bytes) (t : Text) → from_utf8 k ≡ some t → k ≡ utf8 t

module _ (fl : Float) (sled : Sled) (from_utf8 : Bytes → Option Text) where
  abbrev weight_of : Option Bytes → Option fl.F64 → Option fl.F64
  weight_of none old = old
  weight_of (some v) old = if length v == 8 then some (fl.from_le_bytes v) else old

  module _ (u : IsUtf8Reader from_utf8) where
    -- Entries that carry the key give the weight of its address, others leave it alone.
    lookup-load_entry :
        (weights : HashMap Text fl.F64) (k v : Bytes) (a : Text)
        → IsAscii a
        → lookup a (load_entry fl sled from_utf8 weights (some (k, v)))
          ≡ (if list_beq k a then weight_of (some v) (lookup a weights) else lookup a weights)
    unfolding load_entry
    lookup-load_entry weights k v a ascii = elim (Option-cases (from_utf8 k)) [
      | inl e ↦ ground (arith, e, u.reads_ascii a ascii, list_beq_iff k a)
      | inr (t, e) ↦ ground (
        arith,
        e,
        u.reads_ascii a ascii,
        list_beq_iff k a,
        list_beq_iff t a,
        u.reads_own k t e,
        utf8-ascii a ascii,
        lookup-insert t a (fl.from_le_bytes v) weights,
      )
    ]

    lookup-load_entries :
        (l : HashMap Bytes Bytes) (weights : HashMap Text fl.F64) (a : Text)
        → IsAscii a
        → HasDistinctKeys l
        → lookup a (load_entries fl sled from_utf8 weights (map some l))
          ≡ weight_of (lookup a l) (lookup a weights)
    unfolding load_entries lookup
    lookup-load_entries [] weights a ascii d = refl
    lookup-load_entries ((k, v) ∷ l) weights a ascii d =
        let rest =
          lookup-load_entries l (load_entry fl sled from_utf8 weights (some (k, v))) a ascii d.1 in
        let head = lookup-load_entry weights k v a ascii in
        elim (Bool-cases (list_beq k a)) [
          | inl hit ↦
              let gone : lookup a l ≡ none =
                ap (λ i. lookup i l) (sym ((list_beq_iff k a).0 hit)) ∙ d.0 in
              ground (arith, rest, head, gone, hit)
          | inr miss ↦ ground (arith, rest, head, miss)
        ]

    module _ (m : IsMap sled) where
      -- The store knows for every ASCII address what its tree says.
      record SyncedWith (s : TrustWeightStore fl sled) (t : sled.Tree) : Type 0 where
        tree : s.tree ≡ some t
        known : (a : Text) → IsAscii a → get fl sled s a ≡ weight_of (lookup a (m.entries t)) none

      with_persistence-SyncedWith :
          (t : sled.Tree) → SyncedWith (with_persistence fl sled from_utf8 (some t)) t
      unfolding with_persistence load_from_disk get lookup
      with_persistence-SyncedWith t = record {
        tree = refl;
        known = λ a ascii.
            ap (λ l. lookup a (load_entries fl sled from_utf8 [] l)) (m.iter_lem t)
            ∙ lookup-load_entries (m.entries t) [] a ascii (m.distinct t);
      }

      set-SyncedWith :
          (s : TrustWeightStore fl sled) (t : sled.Tree) (address : Text) (w : fl.F64)
          → IsAscii address
          → SyncedWith s t
          → SyncedWith
              (set fl sled s address w)
              (sled.tree_insert t (utf8 address) (fl.to_le_bytes w)).0
      unfolding set insert_weight get
      set-SyncedWith s t address w ascii y = record {
        tree = rw (y.tree) refl;
        known = λ a h. ground (
          arith,
          y.known a h,
          utf8-ascii address ascii,
          lookup-insert address a w s.weights,
          m.lookup_inserted t (utf8 address) (fl.to_le_bytes w) a,
          fl.length-to_le_bytes w,
          fl.from_le_bytes-to_le_bytes w,
        );
      }

      abbrev pub set_all :
          List (Text × fl.F64) → TrustWeightStore fl sled → TrustWeightStore fl sled
      set_all [] s = s
      set_all ((address, w) ∷ sets) s = set_all sets (set fl sled s address w)

      abbrev pub AllAscii : List (Text × fl.F64) → Type 0
      AllAscii [] = Unit {0}
      AllAscii ((address, w) ∷ sets) = IsAscii address × AllAscii sets

      set_all-SyncedWith :
          (sets : List (Text × fl.F64)) (s : TrustWeightStore fl sled) (t : sled.Tree)
          → AllAscii sets
          → SyncedWith s t
          → (t' : sled.Tree) × SyncedWith (set_all sets s) t'
      set_all-SyncedWith [] s t h y = (t, y)
      set_all-SyncedWith ((address, w) ∷ sets) s t h y =
          set_all-SyncedWith sets _ _ h.1 (set-SyncedWith s t address w h.0 y)

      -- If the database behaves as a map, ASCII is read as it is, and read text has the bytes that were
      -- read: a node that has started from its tree of weights, sets any weights for ASCII addresses,
      -- and starts again from the tree that it leaves, knows the same weight for every ASCII address.
      pub get-with_persistence :
          (t : sled.Tree) (sets : List (Text × fl.F64)) (a : Text)
          → AllAscii sets
          → IsAscii a
          → let s = set_all sets (with_persistence fl sled from_utf8 (some t)) in
            get fl sled (with_persistence fl sled from_utf8 s.tree) a ≡ get fl sled s a
      get-with_persistence t sets a h ascii =
          let (t', y) =
            set_all-SyncedWith sets (with_persistence fl sled from_utf8 (some t)) t h
              (with_persistence-SyncedWith t) in
          ap (λ o. get fl sled (with_persistence fl sled from_utf8 o) a) y.tree
          ∙ (with_persistence-SyncedWith t').known a ascii
          ∙ sym (y.known a ascii)
