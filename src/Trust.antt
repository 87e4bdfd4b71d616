-- ===== src/Trust.antt =====
-- What packages/campaign and packages/release ask of node:crypto, and the check that a key is the
-- pinned one. A missing text is the empty text, which no pattern here takes.
use mgds.Prelude.{
  Bool, List, Option, Text, [], ap, eq_of_beq, false, is_id, lit, matches_class, nat_eq, none, refl,
  some, text_eq, true, ℕ, ◌++◌, ◌==◌, ◌≡◌,
}
use mgds.Json.{Value, canonical}

-- `createHash`, `createPublicKey` with its export as DER, and `verify`, which is given the signed
-- text, the key and the signature as it is written
pub record Crypto : Type 0 where
  pub sha256 : Text → Text
  pub sha256_bytes : List ℕ → Text
  pub export_key : Text → Option (List ℕ)
  pub verify_signature : Text → Text → Text → Bool

pub record Authority : Type 0 where
  pub algorithm : Text
  pub public_key : Text

-- /^[A-Za-z0-9_-]+$/
unfoldable pub is_signature : Text → Bool
unfolding matches_class
is_signature s = matches_class [] is_id 1 s

-- whether an optional text is there and is the given one
abbrev pub is_text : Option Text → Text → Bool
is_text none t = false
is_text (some s) t = s == t

module _ (crypto : Crypto) where
  -- `digest` of a string and of bytes
  abbrev pub hash_text : Text → Text
  hash_text t = lit "sha256:" ++ crypto.sha256 t

  abbrev pub hash_bytes : List ℕ → Text
  hash_bytes bytes = lit "sha256:" ++ crypto.sha256_bytes bytes

  abbrev pub hash_value : Value → Text
  hash_value v = hash_text (canonical v)

  abbrev hash_exported : Option (List ℕ) → Option Text
  hash_exported none = none
  hash_exported (some bytes) = some (hash_bytes bytes)

  -- `publicKeyFingerprint`, `none` where the key cannot be read
  unfoldable pub public_key_fingerprint : Text → Option Text
  public_key_fingerprint key = hash_exported (crypto.export_key key)

  -- `fingerprint === trusted`, which never holds of a key that cannot be read
  abbrev pub is_pinned : Option Text → Option Text → Bool
  is_pinned none trusted = false
  is_pinned (some fingerprint) trusted = is_text trusted fingerprint

is_text-eq : (o : Option Text) (t : Text) → is_text o t ≡ true → o ≡ some t
is_text-eq none t h = cc
is_text-eq (some s) t h = ap some (eq_of_beq s t h)

pub is_pinned-eq :
    (crypto : Crypto) (o trusted : Option Text)
    → is_pinned crypto o trusted ≡ true
    → (fingerprint : Text) × (o ≡ some fingerprint) × (trusted ≡ some fingerprint)
is_pinned-eq crypto none trusted h = cc
is_pinned-eq crypto (some f) trusted h = (f, refl, is_text-eq trusted f h)
