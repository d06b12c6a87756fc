-- ===== src/Node/KeyFile.antt =====
-- node/src/keypair_io.rs: the node's key, which the first start generates and every later start
-- loads. The file system and libp2p's keys are parameters; the key that a start would generate is an
-- argument.
pub mod Restarted
use p2s.Prelude.{
  ℕ, ◌≡◌, Bool, [], ◌∷◌, ◌++◌, if◌then◌else◌, nat_eq, list_eq, Result, ok, err, ◌>>=◌, ◌>>◌, Text,
  Bytes, codes, AnyError, context,
}

-- `std::fs`. An operation that writes gives the state that it leaves, also where it fails.
pub record FileSystem : Type 1 where
  pub State : Type 0
  pub FilePath : Type 0
  pub join : FilePath → Text → FilePath
  pub display : FilePath → Text
  pub create_dir_all : State → FilePath → State × Result Text (Unit {0})
  pub exists : State → FilePath → Bool
  pub read : State → FilePath → Result Text Bytes
  pub write : State → FilePath → Bytes → State × Result Text (Unit {0})
  pub set_permissions : State → FilePath → ℕ → State × Result Text (Unit {0})

-- `libp2p::identity::Keypair`; what is encoded decodes to the same key.
pub record Identity : Type 1 where
  pub Keypair : Type 0
  pub to_protobuf_encoding : Keypair → Result Text Bytes
  pub from_protobuf_encoding : Bytes → Result Text Keypair
  pub decode_encoded :
      (k : Keypair) (b : Bytes) → to_protobuf_encoding k ≡ ok b → from_protobuf_encoding b ≡ ok k

abbrev pub keypair_file : Text
keypair_file = codes "node.key"

-- `0o600`
abbrev pub owner_only : ℕ
owner_only = 384

module _ (fs : FileSystem) (identity : Identity) where
  pub load_key : fs.State → fs.FilePath → Result AnyError identity.Keypair
  load_key s key_path = do
    bytes ←
        context (codes "failed to read keypair from " ++ fs.display key_path) (fs.read s key_path)
    context (codes "failed to decode keypair (corrupt file?)")
        (identity.from_protobuf_encoding bytes)

  -- `fs::set_permissions(…)?`, then the key
  unfoldable pub permitted :
      identity.Keypair
      → fs.State × Result Text (Unit {0})
      → fs.State × Result AnyError identity.Keypair
  permitted keypair (s, err e) = (s, err (e ∷ []))
  permitted keypair (s, ok _) = (s, ok keypair)

  -- What follows `fs::write`.
  unfoldable pub written :
      fs.FilePath
      → identity.Keypair
      → fs.State × Result Text (Unit {0})
      → fs.State × Result AnyError identity.Keypair
  written key_path keypair (s, err e) =
      (s, err ((codes "failed to write keypair to " ++ fs.display key_path) ∷ e ∷ []))
  written key_path keypair (s, ok _) = permitted keypair (fs.set_permissions s key_path owner_only)

  unfoldable pub store_key :
      fs.State → fs.FilePath → identity.Keypair → fs.State × Result AnyError identity.Keypair
  store_key s key_path keypair = elim (identity.to_protobuf_encoding keypair) [
    | err e ↦ (s, err (codes "failed to encode keypair" ∷ e ∷ []))
    | ok bytes ↦ written key_path keypair (fs.write s key_path bytes)
  ]

  -- What follows `create_dir_all`; `generated` is what `generate_ed25519()` gives.
  unfoldable pub in_directory :
      fs.FilePath
      → identity.Keypair
      → fs.State × Result Text (Unit {0})
      → fs.State × Result AnyError identity.Keypair
  in_directory data_dir generated (s, err e) =
      (s, err ((codes "failed to create data dir: " ++ fs.display data_dir) ∷ e ∷ []))
  in_directory data_dir generated (s, ok _) =
      let key_path = fs.join data_dir keypair_file in
      if fs.exists s key_path then (s, load_key s key_path) else store_key s key_path generated

  unfoldable pub load_or_generate :
      fs.State → fs.FilePath → identity.Keypair → fs.State × Result AnyError identity.Keypair
  load_or_generate s data_dir generated =
      in_directory data_dir generated (fs.create_dir_all s data_dir)
