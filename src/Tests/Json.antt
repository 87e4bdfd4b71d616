-- ===== src/Tests/Json.antt =====
-- Canonical texts.
use mgds.Prelude.{
  ap, beq_refl, false, lit, nat_eq, ne_of_beq, none, pos, refl, some, text_eq, true, ◌++◌, ◌==◌,
  ◌≡◌,
}
use mgds.Json.{Value, obj, field, end, num, null, canonical}
use mgds.Json.Attestation.{
  Keys, create_attestation, verify_attestation, created_attestation-verifies,
}
use mgds.Json.Order.{SameValue, members, swap, canonical-SameValue}

abbrev ab : Value
ab = obj (field (lit "a") null (field (lit "b") (num (pos 1)) end))

abbrev ba : Value
ba = obj (field (lit "b") (num (pos 1)) (field (lit "a") null end))

ab-ba : SameValue ab ba
ab-ba =
    members (swap (lit "a") (lit "b") null (num (pos 1)) end (ne_of_beq (lit "a") (lit "b") refl))

canonical-SameValue_example : canonical ab ≡ canonical ba
canonical-SameValue_example = canonical-SameValue ab ba ab-ba

-- a signature that is the key and the signed text
abbrev toy_keys : Keys
toy_keys = record {
  generated = lit "fresh";
  public_of = λ k. k;
  sign = λ t k. k ++ t;
  verify = λ t k s. some ((k ++ t) == s);
}

verified_other_key :
    verify_attestation toy_keys ((create_attestation toy_keys ab none).0) (lit "other") ≡ false
unfolding create_attestation verify_attestation canonical
verified_other_key = refl

created_attestation-verifies_example :
    verify_attestation toy_keys
      (record ((create_attestation toy_keys ab none).0) { payload = ba })
      (lit "fresh")
    ≡ true
created_attestation-verifies_example =
    created_attestation-verifies toy_keys ab ba none (λ t k. ap some (beq_refl (k ++ t))) ab-ba
