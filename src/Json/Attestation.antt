-- ===== src/Json/Attestation.antt =====
-- packages/attestation/src/index.mjs: `createAttestation` and `verifyAttestation`. The key pair that is
-- generated, the signing, and the verification, which may throw, come from node:crypto.
use mgds.Prelude.{
  Bool, Option, Text, ap, false, lit, nat_eq, none, some, text_eq, true, ◌&&◌, ◌==◌, ◌≡◌,
}
use mgds.Json.{Value, canonical}
use mgds.Json.Order.{SameValue, canonical-SameValue}

pub record Attestation : Type 0 where
  pub algorithm : Text
  pub payload : Value
  pub signature : Text

-- what the functions ask of node:crypto; `verify` gives none where it throws
pub record Keys : Type 0 where
  pub generated : Text
  pub public_of : Text → Text
  pub sign : Text → Text → Text
  pub verify : Text → Text → Text → Option Bool

module _ (keys : Keys) where
  -- the private key that is used
  abbrev pub key_or_generated : Option Text → Text
  key_or_generated none = keys.generated
  key_or_generated (some private_key) = private_key

  -- a public key is given back where the pair was generated
  abbrev generated_public : Option Text → Option Text
  generated_public none = some (keys.public_of keys.generated)
  generated_public (some private_key) = none

  unfoldable pub create_attestation : Value → Option Text → Attestation × Option Text
  create_attestation payload private_key = (
    record {
      algorithm = lit "Ed25519";
      payload = payload;
      signature = keys.sign (canonical payload) (key_or_generated private_key);
    },
    generated_public private_key,
  )

  abbrev is_verified : Option Bool → Bool
  is_verified none = false
  is_verified (some b) = b

  unfoldable pub verify_attestation : Attestation → Text → Bool
  verify_attestation attestation public_key =
      attestation.algorithm == lit "Ed25519"
      && is_verified (keys.verify (canonical attestation.payload) public_key attestation.signature)

  -- An attestation verifies with the public key of the key it was created with, the given or the generated
  -- one, and so does one whose payload lists its members in another order; if the public key
  -- verifies what its private key signs.
  pub created_attestation-verifies :
      (payload other : Value) (private_key : Option Text)
      → ((t k : Text) → keys.verify t (keys.public_of k) (keys.sign t k) ≡ some true)
      → SameValue payload other
      → verify_attestation
          (record ((create_attestation payload private_key).0) { payload = other })
          (keys.public_of (key_or_generated private_key))
        ≡ true
  unfolding create_attestation verify_attestation
  created_attestation-verifies payload other private_key verifies alike =
      rw⁻¹ (canonical-SameValue payload other alike)
        (ap is_verified (verifies (canonical payload) (key_or_generated private_key)))
