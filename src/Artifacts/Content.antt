-- ===== src/Artifacts/Content.antt =====
-- The store is addressed by content.
use mgds.Prelude.{
  Bool-cases, Dict, List, Option, Result, Result-cases, Text, ap, ap₂, beq_cases, beq_refl, err,
  get, get-put_self, inl, inr, nat_eq, none, ok, ok-inj, put, refl, some, subst, sym, take, text_eq,
  true, ℕ, ◌∙◌, ◌≡◌, ◌⊎◌,
}
use mgds.Artifacts.{
  Node, missing, directory, symlink, file, Manifest, Disk, ArtifactError, root_is_symlink,
  directory_is_symlink, not_a_directory, safe_directory, safe_root, initialize, make_shard,
  or_missing, is_logical_name, is_digest, place, manifest_of, put_artifact, checked, get_artifact,
  invalid_logical_name,
}

safe_directory-cases :
    (n : Node)
    → (safe_directory n ≡ ok directory) ⊎ ((e : ArtifactError) × (safe_directory n ≡ err e))
safe_directory-cases missing = inl refl
safe_directory-cases directory = inl refl
safe_directory-cases symlink = inr (directory_is_symlink, refl)
safe_directory-cases file = inr (not_a_directory, refl)

safe_root-cases :
    (n : Node) → (safe_root n ≡ ok directory) ⊎ ((e : ArtifactError) × (safe_root n ≡ err e))
safe_root-cases missing = inl refl
safe_root-cases directory = inl refl
safe_root-cases symlink = inr (root_is_symlink, refl)
safe_root-cases file = inr (not_a_directory, refl)

-- the disk with its directories made
abbrev pub prepared : Disk → Disk
prepared d = record d {
  root = directory;
  objects_directory = directory;
  manifests_directory = directory;
}

-- the same files
abbrev pub SameFiles : Disk → Disk → Type 0
SameFiles d t = (t.objects ≡ d.objects) × (t.manifests ≡ d.manifests)

-- a call that threw has left the files as they were
abbrev pub Failed : {A : Type 0} → Disk → Result ArtifactError A × Disk → Type 0
Failed {A = A} d r = (e : ArtifactError) × (t : Disk) × (r ≡ (err e, t)) × SameFiles d t

initialize_outcome : (d : Disk) → (initialize d ≡ (ok tt, prepared d)) ⊎ Failed d (initialize d)
unfolding initialize
initialize_outcome d = elim (safe_root-cases d.root) [
  | inr (e, bad) ↦ inr (e, d, simp bad refl, (refl, refl))
  | inl root ↦ elim (safe_directory-cases d.objects_directory) [
    | inr (e, bad) ↦ inr (e, record d { root = directory }, simp (root, bad) refl, (refl, refl))
    | inl objects ↦ elim (safe_directory-cases d.manifests_directory) [
      | inr (e, bad) ↦ inr (
        e,
        record d { root = directory; objects_directory = directory },
        simp (root, objects, bad) refl,
        (refl, refl),
      )
      | inl manifests ↦ inl (simp (root, objects, manifests) refl)
    ]
  ]
]

-- the disk with a shard made
abbrev sharded : Text → Disk → Disk
sharded shard d = record d { shards = put d.shards shard directory }

make_shard_outcome :
    (shard : Text) (d : Disk)
    → (make_shard shard d ≡ (ok tt, sharded shard d)) ⊎ Failed d (make_shard shard d)
unfolding make_shard
make_shard_outcome shard d = elim (safe_directory-cases (or_missing (get d.shards shard))) [
  | inl good ↦ inl (simp good refl)
  | inr (e, bad) ↦ inr (e, d, simp bad refl, (refl, refl))
]

module _ (hash : List ℕ → Text) where
  -- the disk behind a `put`
  abbrev pub after_put : Text → Text → List ℕ → Dict Text (List ℕ) → Disk → Disk
  after_put logical_name media_type bytes objects d =
      record (sharded (take 2 (hash bytes)) (prepared d)) {
        objects = objects;
        manifests = put d.manifests (hash bytes) (manifest_of hash logical_name media_type bytes);
      }

  -- A put either throws and leaves every object and manifest as it was, or answers with the
  -- manifest, under which one object is placed and the manifest is stored.
  pub put_outcome :
      (logical_name media_type : Text) (bytes : List ℕ) (d : Disk)
      → Failed d (put_artifact hash logical_name media_type bytes d)
        ⊎ ((objects : Dict Text (List ℕ)) × (place hash
                (hash bytes)
                bytes
                (get d.objects (hash bytes))
                d.objects
              ≡ ok objects)
            × (put_artifact hash logical_name media_type bytes d ≡ (
              ok (manifest_of hash logical_name media_type bytes),
              after_put logical_name media_type bytes objects d,
            )))
  unfolding put_artifact
  put_outcome logical_name media_type bytes d = elim (Bool-cases (is_logical_name logical_name)) [
    | inr bad ↦ inl (invalid_logical_name, d, simp bad refl, (refl, refl))
    | inl named ↦ elim (initialize_outcome d) [
      | inr (e, t, bad, same) ↦ inl (e, t, simp (named, bad) refl, same)
      | inl made ↦ elim (make_shard_outcome (take 2 (hash bytes)) (prepared d)) [
        | inr (e, t, bad, same) ↦ inl (e, t, simp (named, made, bad) refl, same)
        | inl shard ↦
            elim (Result-cases
              (place hash (hash bytes) bytes (get d.objects (hash bytes)) d.objects)) [
                | inr (e, bad) ↦ inl (
                  e,
                  sharded (take 2 (hash bytes)) (prepared d),
                  simp (named, made, shard, bad) refl,
                  (refl, refl),
                )
                | inl (objects, good) ↦ inr (objects, good, simp (named, made, shard, good) refl)
              ]
      ]
    ]
  ]

  checked-binds :
      (sha256 : Text) (o : Option (List ℕ)) (b : List ℕ)
      → checked hash sha256 o ≡ ok b
      → (hash b ≡ sha256) × (o ≡ some b)
  checked-binds sha256 none b h = cc
  checked-binds sha256 (some a) b h = elim (beq_cases (hash a) sha256) [
    | inr other ↦ cc (rw other at h)
    | inl same ↦
        let e : a ≡ b = ok-inj (rw (same, beq_refl sha256) at h) in (rw⁻¹ e same, ap some e)
  ]

  -- An object that is found has the hash that was asked for, and is what is stored under it.
  pub get-binds :
      (sha256 : Text) (d : Disk) (b : List ℕ)
      → (get_artifact hash sha256 d).0 ≡ ok b
      → (hash b ≡ sha256) × (get d.objects sha256 ≡ some b)
  unfolding get_artifact
  get-binds sha256 d b h = elim (Bool-cases (is_digest sha256)) [
    | inr bad ↦ cc (simp bad at h)
    | inl named ↦ elim (initialize_outcome d) [
      | inr (e, t, bad, same) ↦ cc (simp (named, bad) at h)
      | inl made ↦ elim (make_shard_outcome (take 2 sha256) (prepared d)) [
        | inr (e, t, bad, same) ↦ cc (simp (named, made, bad) at h)
        | inl shard ↦ checked-binds sha256 (get d.objects sha256) b (simp (named, made, shard) at h)
      ]
    ]
  ]

  -- where the directories are there, a `get` reads what is stored
  get_ready :
      (sha256 : Text) (d : Disk)
      → is_digest sha256 ≡ true
      → get d.shards (take 2 sha256) ≡ some directory
      → (get_artifact hash sha256 (prepared d)).0 ≡ checked hash sha256 (get d.objects sha256)
  unfolding get_artifact initialize make_shard
  get_ready sha256 d named shard = simp (named, shard) refl

  -- the object that `place` leaves under the hash
  place-stored :
      (bytes : List ℕ) (o : Option (List ℕ)) (before after : Dict Text (List ℕ))
      → get before (hash bytes) ≡ o
      → place hash (hash bytes) bytes o before ≡ ok after
      → (b : List ℕ) × (get after (hash bytes) ≡ some b)
        × (hash b ≡ hash bytes)
        × (o ≡ none → b ≡ bytes)
  place-stored bytes none before after g h =
      (bytes, rw⁻¹ (ok-inj h) (get-put_self before (hash bytes) bytes), refl, λ e. refl)
  place-stored bytes (some a) before after g h = elim (beq_cases (hash a) (hash bytes)) [
    | inr other ↦ cc (rw other at h)
    | inl same ↦ (a, rw⁻¹ (ok-inj (simp (same, beq_refl (hash bytes)) at h)) g, same, λ e. cc)
  ]

  checked-some :
      (sha256 : Text) (b : List ℕ) → hash b ≡ sha256 → checked hash sha256 (some b) ≡ ok b
  checked-some sha256 b e = simp (e, beq_refl sha256) refl

  -- What was put can be got: under the hash of its manifest stands an object with that hash, and
  -- it is the bytes that were put, unless an object with that hash was there already.
  pub get-put_artifact :
      (logical_name media_type : Text) (bytes : List ℕ) (d t : Disk) (m : Manifest)
      → is_digest (hash bytes) ≡ true
      → put_artifact hash logical_name media_type bytes d ≡ (ok m, t)
      → (stored : List ℕ) × ((get_artifact hash m.sha256 t).0 ≡ ok stored)
        × (hash stored ≡ hash bytes)
        × (get d.objects (hash bytes) ≡ none → stored ≡ bytes)
        × (get t.manifests m.sha256 ≡ some m)
  get-put_artifact logical_name media_type bytes d t m named h =
      elim (put_outcome logical_name media_type bytes d) [
        | inl (e, u, bad, same) ↦ cc (sym bad ∙ h)
        | inr (objects, placed, good) ↦
            let (b, there, hashed, fresh) =
              place-stored bytes (get d.objects (hash bytes)) d.objects objects refl placed in
            let em : manifest_of hash logical_name media_type bytes ≡ m =
              ok-inj (ap (λ r. r.0) (sym good ∙ h)) in
            let et : after_put logical_name media_type bytes objects d ≡ t =
              ap (λ r. r.1) (sym good ∙ h) in
            let found =
              get_ready (hash bytes) (after_put logical_name media_type bytes objects d) named
                (get-put_self d.shards (take 2 (hash bytes)) directory) in
            (
              b,
              subst (λ (u : Manifest × Disk). (get_artifact hash u.0.sha256 u.1).0 ≡ ok b)
                  (ap₂ (λ x y. (x, y)) em et)
                  (found ∙ (rw there (checked-some (hash bytes) b hashed))),
              hashed,
              fresh,
              subst (λ (u : Manifest × Disk). get u.1.manifests u.0.sha256 ≡ some u.0)
                  (ap₂ (λ x y. (x, y)) em et)
                  (get-put_self d.manifests (hash bytes)
                    (manifest_of hash logical_name media_type bytes)),
            )
      ]
