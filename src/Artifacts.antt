-- ===== src/Artifacts.antt =====
-- packages/artifacts/src/artifact-store.mjs: bytes stored under their hash, with a manifest each. The
-- directories are what `lstat` says of them; a file is written beside its place and renamed, so
-- it is there whole or not at all.
pub mod Content
use mgds.Prelude.{
  Bool, Dict, Exec, List, Option, Result, Text, [], ensure, eqb, err, every, false, get,
  if◌then◌else◌, is_digit, is_hex, is_lower, is_upper, leb, length, lift, lit, load, nat_eq, none,
  ok, pure, put, save, some, take, text_eq, ℕ, ◌&&◌, ◌++◌, ◌==◌, ◌>>=◌, ◌>>◌, ◌||◌, ◌∷◌,
}

pub data Node : Type 0 where
  missing directory symlink file : Node

pub record Manifest : Type 0 where
  pub id : Text
  pub logical_name : Text
  pub media_type : Text
  pub sha256 : Text
  pub bytes : ℕ

pub record Disk : Type 0 where
  pub root : Node
  pub objects_directory : Node
  pub manifests_directory : Node
  pub shards : Dict Text Node
  pub objects : Dict Text (List ℕ)
  pub manifests : Dict Text Manifest

pub data ArtifactError : Type 0 where
  root_is_symlink directory_is_symlink not_a_directory : ArtifactError
  invalid_logical_name invalid_hash existing_mismatch hash_mismatch no_such_file : ArtifactError

-- `safeDirectory`: what is there afterwards
abbrev pub safe_directory : Node → Result ArtifactError Node
safe_directory missing = ok directory
safe_directory directory = ok directory
safe_directory symlink = err directory_is_symlink
safe_directory file = err not_a_directory

-- the part of `#initialize` on the root; below a file `lstat` throws
abbrev pub safe_root : Node → Result ArtifactError Node
safe_root symlink = err root_is_symlink
safe_root node = safe_directory node

abbrev pub make_root : Exec Disk ArtifactError (Unit {0})
make_root = do disk ← load; node ← lift (safe_root disk.root); save (record disk { root = node })

abbrev pub make_objects : Exec Disk ArtifactError (Unit {0})
make_objects = do
  disk ← load
  node ← lift (safe_directory disk.objects_directory)
  save (record disk { objects_directory = node })

abbrev pub make_manifests : Exec Disk ArtifactError (Unit {0})
make_manifests = do
  disk ← load
  node ← lift (safe_directory disk.manifests_directory)
  save (record disk { manifests_directory = node })

unfoldable pub initialize : Exec Disk ArtifactError (Unit {0})
initialize = do make_root; make_objects; make_manifests

abbrev pub or_missing : Option Node → Node
or_missing none = missing
or_missing (some node) = node

unfoldable pub make_shard : Text → Exec Disk ArtifactError (Unit {0})
make_shard shard = do
  disk ← load
  node ← lift (safe_directory (or_missing (get disk.shards shard)))
  save (record disk { shards = put disk.shards shard node })

-- /^[a-z0-9][a-z0-9._-]{0,119}$/i
abbrev is_name_start : ℕ → Bool
is_name_start c = is_lower c || is_upper c || is_digit c

unfoldable pub is_logical_name : Text → Bool
is_logical_name [] = false
is_logical_name (c ∷ s) =
    is_name_start c
    && leb (length s) 119
    && every (λ d. is_name_start d || eqb d b'.' || eqb d b'_' || eqb d b'-') s

-- /^[a-f0-9]{64}$/
unfoldable pub is_digest : Text → Bool
is_digest s = eqb (length s) 64 && every is_hex s

module _ (hash : List ℕ → Text) where
  -- the object that is there afterwards: an earlier one is kept if its bytes have the hash
  abbrev pub place :
      Text
      → List ℕ
      → Option (List ℕ)
      → Dict Text (List ℕ)
      → Result ArtifactError (Dict Text (List ℕ))
  place sha256 bytes none objects = ok (put objects sha256 bytes)
  place sha256 bytes (some existing) objects =
      if hash existing == sha256 then ok objects else err existing_mismatch

  abbrev pub manifest_of : Text → Text → List ℕ → Manifest
  manifest_of logical_name media_type bytes = record {
    id = lit "artifact_" ++ take 24 (hash bytes);
    logical_name = logical_name;
    media_type = media_type;
    sha256 = hash bytes;
    bytes = length bytes;
  }

  abbrev pub write_object : List ℕ → Exec Disk ArtifactError (Unit {0})
  write_object bytes = do
    disk ← load
    objects ← lift (place (hash bytes) bytes (get disk.objects (hash bytes)) disk.objects)
    save (record disk { objects = objects })

  abbrev pub write_manifest : Manifest → Exec Disk ArtifactError (Unit {0})
  write_manifest manifest = do
    disk ← load
    save (record disk { manifests = put disk.manifests manifest.sha256 manifest })

  unfoldable pub put_artifact : Text → Text → List ℕ → Exec Disk ArtifactError Manifest
  unfolding is_logical_name initialize make_shard
  put_artifact logical_name media_type bytes = do
    ensure (is_logical_name logical_name) invalid_logical_name
    initialize
    make_shard (take 2 (hash bytes))
    write_object bytes
    write_manifest (manifest_of logical_name media_type bytes)
    pure (manifest_of logical_name media_type bytes)

  abbrev pub checked : Text → Option (List ℕ) → Result ArtifactError (List ℕ)
  checked sha256 none = err no_such_file
  checked sha256 (some bytes) = if hash bytes == sha256 then ok bytes else err hash_mismatch

  unfoldable pub get_artifact : Text → Exec Disk ArtifactError (List ℕ)
  unfolding is_digest initialize make_shard
  get_artifact sha256 = do
    ensure (is_digest sha256) invalid_hash
    initialize
    make_shard (take 2 sha256)
    disk ← load
    lift (checked sha256 (get disk.objects sha256))
