-- ===== src/Node/KeyFile/Restarted.antt =====
-- A key survives the restarts of its node.
use p2s.Prelude.{
  ◌≡◌, refl, sym, ap, ◌∙◌, inl, inr, true, false, [], ◌∷◌, arith, Bool-cases, nat_eq, list_eq,
  Result, ok, err, Result-cases, ok-injective, Text, Bytes,
}
use mathlib.Core.Path.{subst}
use p2s.Node.KeyFile.{
  FileSystem, Identity, keypair_file, owner_only, load_key, permitted, written, store_key,
  in_directory, load_or_generate,
}

-- A file system that keeps what was written: a file that was new, was written and was restricted to its
-- owner is there and reads as written, and the creation of directories leaves the files alone that are
-- there and can be read.
pub record KeepsFiles (fs : FileSystem) : Type 0 where
  pub kept_written :
      (s : fs.State) (path : fs.FilePath) (b : Bytes)
      → fs.exists s path ≡ false
      → (fs.write s path b).1 ≡ ok tt
      → (fs.set_permissions (fs.write s path b).0 path owner_only).1 ≡ ok tt
      → let after = (fs.set_permissions (fs.write s path b).0 path owner_only).0 in
        (fs.exists after path ≡ true) × (fs.read after path ≡ ok b)
  pub kept_created :
      (s : fs.State) (path dir : fs.FilePath) (b : Bytes)
      → fs.exists s path ≡ true
      → fs.read s path ≡ ok b
      → let after = (fs.create_dir_all s dir).0 in
        (fs.exists after path ≡ true) × (fs.read after path ≡ ok b)

module _ (fs : FileSystem) (identity : Identity) (keeps : KeepsFiles fs) where
  -- The key file is there and holds this key.
  pub record HoldsKey (s : fs.State) (path : fs.FilePath) (k : identity.Keypair) : Type 0 where
    pub present : fs.exists s path ≡ true
    pub bytes : Bytes
    pub reads : fs.read s path ≡ ok bytes
    pub decodes : identity.from_protobuf_encoding bytes ≡ ok k

  load_key-HoldsKey :
      (s : fs.State) (path : fs.FilePath) (k : identity.Keypair)
      → fs.exists s path ≡ true
      → load_key fs identity s path ≡ ok k
      → HoldsKey s path k
  unfolding load_key
  load_key-HoldsKey s path k e h = elim (Result-cases (fs.read s path)) [
    | inr (x, f) ↦ absurd (ground (arith, h, f))
    | inl (b, f) ↦ elim (Result-cases (identity.from_protobuf_encoding b)) [
      | inr (x, g) ↦ absurd (ground (arith, h, f, g))
      | inl (k', g) ↦ record {
        present = e;
        bytes = b;
        reads = f;
        decodes = ground (arith, h, f, g);
      }
    ]
  ]

  HoldsKey-load_key :
      (s : fs.State) (path : fs.FilePath) (k : identity.Keypair)
      → HoldsKey s path k
      → load_key fs identity s path ≡ ok k
  unfolding load_key
  HoldsKey-load_key s path k h = ground (arith, h.reads, h.decodes)

  created-HoldsKey :
      (s : fs.State) (path dir : fs.FilePath) (k : identity.Keypair)
      → HoldsKey s path k
      → HoldsKey (fs.create_dir_all s dir).0 path k
  created-HoldsKey s path dir k h =
      let (e, r) = keeps.kept_created s path dir h.bytes h.present h.reads in
      record { present = e; bytes = h.bytes; reads = r; decodes = h.decodes }

  written-HoldsKey :
      (s : fs.State) (path : fs.FilePath) (bytes : Bytes) (k : identity.Keypair)
      → fs.exists s path ≡ false
      → identity.to_protobuf_encoding k ≡ ok bytes
      → (fs.write s path bytes).1 ≡ ok tt
      → (fs.set_permissions (fs.write s path bytes).0 path owner_only).1 ≡ ok tt
      → HoldsKey (fs.set_permissions (fs.write s path bytes).0 path owner_only).0 path k
  written-HoldsKey s path bytes k absent d w q =
      let (e, r) = keeps.kept_written s path bytes absent w q in
      record { present = e; bytes = bytes; reads = r; decodes = identity.decode_encoded k bytes d }

  in_directory_present :
      (dir : fs.FilePath) (k generated : identity.Keypair) (w : fs.State × Result Text (Unit {0}))
      → w.1 ≡ ok tt
      → fs.exists w.0 (fs.join dir keypair_file) ≡ true
      → load_key fs identity w.0 (fs.join dir keypair_file) ≡ ok k
      → in_directory fs identity dir generated w ≡ (w.0, ok k)
  unfolding in_directory
  in_directory_present dir k generated (s, err x) c e l = cc
  in_directory_present dir k generated (s, ok _) c e l = rw (e, l) refl

  start_from_file :
      (s : fs.State) (dir : fs.FilePath) (k generated : identity.Keypair)
      → HoldsKey s (fs.join dir keypair_file) k
      → (fs.create_dir_all s dir).1 ≡ ok tt
      → load_or_generate fs identity s dir generated ≡ ((fs.create_dir_all s dir).0, ok k)
  unfolding load_or_generate
  start_from_file s dir k generated holds c =
      let path = fs.join dir keypair_file in
      let h = created-HoldsKey s path dir k holds in
      in_directory_present dir k generated (fs.create_dir_all s dir) c h.present
        (HoldsKey-load_key (fs.create_dir_all s dir).0 path k h)

  permitted_lem :
      (path : fs.FilePath) (k found : identity.Keypair) (w : fs.State × Result Text (Unit {0}))
      → (w.1 ≡ ok tt → HoldsKey w.0 path k)
      → (permitted fs identity k w).1 ≡ ok found
      → HoldsKey (permitted fs identity k w).0 path found
  unfolding permitted
  permitted_lem path k found (s, err e) holds h = cc
  permitted_lem path k found (s, ok _) holds h =
      subst (HoldsKey s path) (ok-injective h) (holds refl)

  written_lem :
      (path : fs.FilePath) (k found : identity.Keypair) (w : fs.State × Result Text (Unit {0}))
      → (w.1 ≡ ok tt
          → (fs.set_permissions w.0 path owner_only).1 ≡ ok tt
          → HoldsKey (fs.set_permissions w.0 path owner_only).0 path k)
      → (written fs identity path k w).1 ≡ ok found
      → HoldsKey (written fs identity path k w).0 path found
  unfolding written
  written_lem path k found (s, err e) holds h = cc
  written_lem path k found (s, ok _) holds h =
      permitted_lem path k found (fs.set_permissions s path owner_only) (holds refl) h

  store_key-HoldsKey :
      (s : fs.State) (path : fs.FilePath) (k found : identity.Keypair)
      → fs.exists s path ≡ false
      → (store_key fs identity s path k).1 ≡ ok found
      → HoldsKey (store_key fs identity s path k).0 path found
  unfolding store_key
  store_key-HoldsKey s path k found absent h =
      elim (Result-cases (identity.to_protobuf_encoding k)) [
        | inr (e, f) ↦ absurd (ground arith)
        | inl (bytes, f) ↦
            rw (f, store_key)
              (written_lem path k found (fs.write s path bytes)
                (written-HoldsKey s path bytes k absent f) (rw (f, store_key) at h))
      ]

  in_directory-HoldsKey :
      (dir : fs.FilePath) (k found : identity.Keypair) (w : fs.State × Result Text (Unit {0}))
      → (in_directory fs identity dir k w).1 ≡ ok found
      → HoldsKey (in_directory fs identity dir k w).0 (fs.join dir keypair_file) found
  unfolding in_directory
  in_directory-HoldsKey dir k found (s, err e) h = cc
  in_directory-HoldsKey dir k found (s, ok _) h =
      elim (Bool-cases (fs.exists s (fs.join dir keypair_file))) [
        | inl e ↦
            rw (e, in_directory)
              (load_key-HoldsKey s (fs.join dir keypair_file) found e (rw (e, in_directory) at h))
        | inr e ↦
            rw (e, in_directory)
              (store_key-HoldsKey s (fs.join dir keypair_file) k found e
                (rw (e, in_directory) at h))
      ]

  -- On a file system that keeps what was written, and where the data directory can be created again, or
  -- is there: a start that has a key leaves it in the key file, and the next start has the same key, whatever key
  -- it would generate.
  pub load_or_generate_again :
      (s : fs.State) (dir : fs.FilePath) (k k' found : identity.Keypair)
      → (load_or_generate fs identity s dir k).1 ≡ ok found
      → (fs.create_dir_all (load_or_generate fs identity s dir k).0 dir).1 ≡ ok tt
      → let after = (load_or_generate fs identity s dir k).0 in
        (load_key fs identity after (fs.join dir keypair_file) ≡ ok found)
        × ((load_or_generate fs identity after dir k').1 ≡ ok found)
  unfolding load_or_generate
  load_or_generate_again s dir k k' found h c =
      let after = (load_or_generate fs identity s dir k).0 in
      let holds = in_directory-HoldsKey dir k found (fs.create_dir_all s dir) h in
      (
        HoldsKey-load_key after (fs.join dir keypair_file) found holds,
        ap (λ w. w.1) (start_from_file after dir found k' holds c),
      )

  -- The state in which a first start stands before it restricts the key file.
  abbrev unrestricted : fs.State → fs.FilePath → Bytes → fs.State
  unrestricted s dir bytes =
      (fs.write (fs.create_dir_all s dir).0 (fs.join dir keypair_file) bytes).0

  permitted_fails :
      (k : identity.Keypair) (e : Text) (w : fs.State × Result Text (Unit {0}))
      → w.1 ≡ err e
      → permitted fs identity k w ≡ (w.0, err (e ∷ []))
  unfolding permitted
  permitted_fails k e (s, err x) h = ground arith
  permitted_fails k e (s, ok _) h = cc

  written_done :
      (path : fs.FilePath) (k : identity.Keypair) (w : fs.State × Result Text (Unit {0}))
      → w.1 ≡ ok tt
      → written fs identity path k w
        ≡ permitted fs identity k (fs.set_permissions w.0 path owner_only)
  unfolding written
  written_done path k (s, err x) h = cc
  written_done path k (s, ok _) h = refl

  in_directory_absent :
      (dir : fs.FilePath) (k : identity.Keypair) (bytes : Bytes)
      (w : fs.State × Result Text (Unit {0}))
      → w.1 ≡ ok tt
      → fs.exists w.0 (fs.join dir keypair_file) ≡ false
      → identity.to_protobuf_encoding k ≡ ok bytes
      → in_directory fs identity dir k w
        ≡ written fs identity
            (fs.join dir keypair_file)
            k
            (fs.write w.0 (fs.join dir keypair_file) bytes)
  unfolding in_directory store_key
  in_directory_absent dir k bytes (s, err x) h a d = cc
  in_directory_absent dir k bytes (s, ok _) h a d = rw (a, d, store_key) refl

  -- If the permissions of a fresh key file cannot be restricted, the start fails, and says so; while the
  -- file is there and can be read, the next start takes its key without restricting it.
  pub load_or_generate_unprotected :
      (s : fs.State) (dir : fs.FilePath) (k k' : identity.Keypair) (bytes : Bytes) (e : Text)
      → (fs.create_dir_all s dir).1 ≡ ok tt
      → fs.exists (fs.create_dir_all s dir).0 (fs.join dir keypair_file) ≡ false
      → identity.to_protobuf_encoding k ≡ ok bytes
      → (fs.write (fs.create_dir_all s dir).0 (fs.join dir keypair_file) bytes).1 ≡ ok tt
      → (fs.set_permissions (unrestricted s dir bytes) (fs.join dir keypair_file) owner_only).1
        ≡ err e
      → (let path = fs.join dir keypair_file in
          HoldsKey (fs.set_permissions (unrestricted s dir bytes) path owner_only).0 path k)
      → (fs.create_dir_all (load_or_generate fs identity s dir k).0 dir).1 ≡ ok tt
      → ((load_or_generate fs identity s dir k).1 ≡ err (e ∷ []))
        × (load_or_generate fs identity (load_or_generate fs identity s dir k).0 dir k'
            ≡ ((fs.create_dir_all (load_or_generate fs identity s dir k).0 dir).0, ok k))
  unfolding load_or_generate
  load_or_generate_unprotected s dir k k' bytes e c absent d w q holds c' =
      let path = fs.join dir keypair_file in
      let first : load_or_generate fs identity s dir k
          ≡ ((fs.set_permissions (unrestricted s dir bytes) path owner_only).0, err (e ∷ [])) =
        in_directory_absent dir k bytes (fs.create_dir_all s dir) c absent d
        ∙ written_done path k (fs.write (fs.create_dir_all s dir).0 path bytes) w
        ∙ permitted_fails k e (fs.set_permissions (unrestricted s dir bytes) path owner_only) q in
      (
        ap (λ x. x.1) first,
        start_from_file (load_or_generate fs identity s dir k).0 dir k k'
            (subst (λ x. HoldsKey x path k) (sym (ap (λ x. x.0) first)) holds) c',
      )
