-- ===== src/Tests/Key.antt =====
-- Private keys beside and inside a repository.
use mgds.Prelude.{List, Option, Text, [], err, false, lit, ok, refl, some, true, ℕ, ◌∷◌, ◌≡◌}
use mgds.Evidence.Read.{Stat}
use mgds.Operator.Key.{
  KeyError, PrivateKey, Located, relative, read_external_private_key, inside_key_refused,
}

abbrev stat : Stat
stat = record { is_file = true; is_symbolic_link = false; size = 3; ino = 5; dev = 1 }

abbrev repository : List Text
repository = lit "home" ∷ lit "mgds" ∷ []

abbrev key_at : List Text → Located
key_at path = record {
  before = stat;
  mode = 0o600;
  opened = stat;
  is_windows = false;
  from_repository = relative repository path;
  is_absolute = false;
  bytes = lit "key";
}

abbrev create : List ℕ → Option PrivateKey
create bytes = some (record { asymmetric_key_type = lit "ed25519"; bytes = bytes })

beside_read :
    read_external_private_key create (key_at (lit "home" ∷ lit "keys" ∷ lit "key.pem" ∷ []))
    ≡ ok (record { asymmetric_key_type = lit "ed25519"; bytes = lit "key" })
unfolding read_external_private_key relative
beside_read = refl

-- a directory of the repository whose name begins with two dots is taken for one outside
dots_read :
    read_external_private_key create
      (key_at (lit "home" ∷ lit "mgds" ∷ lit "..keys" ∷ lit "key.pem" ∷ []))
    ≡ ok (record { asymmetric_key_type = lit "ed25519"; bytes = lit "key" })
unfolding read_external_private_key relative
dots_read = refl

inside_key_refused_example :
    (x : KeyError) × (read_external_private_key create
        (key_at (lit "home" ∷ lit "mgds" ∷ lit "keys" ∷ lit "key.pem" ∷ []))
      ≡ err x)
inside_key_refused_example =
    inside_key_refused create (key_at (lit "home" ∷ lit "mgds" ∷ lit "keys" ∷ lit "key.pem" ∷ []))
      repository (lit "keys") (lit "key.pem" ∷ []) refl refl refl
