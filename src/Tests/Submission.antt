-- ===== src/Tests/Submission.antt =====
-- A submission of one artifact, built and checked.
use mgds.Prelude.{
  Bool, Dict, List, Text, [], arith, if◌then◌else◌, is_hash, lit, nat_eq, none, ok, refl, some,
  sort_texts, text_eq, true, zeros, ℕ, ◌++◌, ◌==◌, ◌∷◌, ◌≡◌,
}
use mgds.Json.{Value, nil, cons, str, arr, obj, end, field, canonical}
use mgds.Evidence.Build.{Reader}
use mgds.Submission.{Submission, Verdict, artifact_value}
use mgds.Submission.Built.{signed_bundle, build_p3_submission}
use mgds.Submission.Verified.{verify_p3_submission}
use mgds.Submission.Verified.Roundtrip.{verdict, built_submission_verifies}
use mgds.Submission.Verified.Binds.{Binds, verified_submission-Binds}
use mgds.Tests.Toy.{toy, hash_a}

abbrev manifest : Value
manifest = obj (
    field (lit "schema") (str (lit "mgds.p3-submission/v1")) (
      field (lit "submissionId") (str (lit "mgds.submission.one@1.0.0")) (
        field (lit "protocolVersion") (str (lit "0.1.0-preview.1")) (
          field (lit "adapter")
            (obj (
              field (lit "id") (str (lit "mgds.adapter.a@1.0.0"))
                (field (lit "sourceRevision") (str (zeros 40)) end)))
            (field (lit "toolchain") (obj (field (lit "unity") (str (lit "6000")) end)) (
              field (lit "host") (str (lit "linux-x64")) (
                field (lit "t0")
                  (obj (
                    field (lit "reportHash") (str hash_a)
                      (field (lit "status") (str (lit "pass")) end)))
                  (field (lit "tasks") (arr (cons task nil)) (
                    field (lit "eventLedgerHead") (str (zeros 64)) (
                      field (lit "evaluator")
                        (obj (
                          field (lit "id") (str (lit "mgds.evaluator.t0@0.1.0"))
                            (field (lit "digest") (str hash_a) end)))
                        (field (lit "privacy") privacy end)))))))))))
  where
    task : Value
    task = obj (
        field (lit "taskId") (str (lit "t"))
          (field (lit "status") (str (lit "pass")) (field (lit "evidenceHash") (str hash_a) end)))

    privacy : Value
    privacy = obj (
        field (lit "classification") (str (lit "public-redacted"))
          (field (lit "redactionVersion") (str (lit "mgds.redaction/v1")) end))

abbrev artifacts : Dict Text (List ℕ)
artifacts = (lit "report.json", lit "report") ∷ []

abbrev authority : Text
authority = lit "mgds.submitter.me@1.0.0"

abbrev tagged : Text → Text
tagged t = lit "sha256:" ++ toy t

abbrev stringify : Value → List ℕ
stringify v = lit "bundle"

abbrev sign : Text → Text → Text
sign t key = lit "signed"

abbrev verifies : Text → Text → Text → Bool
verifies t key signature = signature == lit "signed"

-- a reader that knows no text, to build with
abbrev writer : Reader
writer = record {
  hash_text = tagged;
  hash_bytes = tagged;
  parse = λ t. none;
  to_text = λ bytes. bytes;
  decode_utf8 = λ bytes. some bytes;
  from_base64 = λ t. t;
  to_base64 = λ bytes. bytes;
  inflate = λ bytes limit. none;
  evidence_ok = λ v. true;
  publishable = λ v. true;
}

abbrev bundle : Value
bundle =
    signed_bundle writer stringify sign manifest authority (lit "private")
      (cons (artifact_value (lit "report.json") (tagged (lit "report")) (lit "report")) nil)

-- the same, which reads the bundle back
abbrev reader : Reader
reader = record writer { parse = λ t. if t == lit "bundle" then some bundle else none }

abbrev built : Submission
built = record { bundle = bundle; bytes = lit "bundle"; bundle_hash = tagged (lit "bundle") }

builds :
    build_p3_submission reader stringify sign (λ d. d) manifest artifacts authority (lit "private")
    ≡ ok built
unfolding build_p3_submission canonical
builds = refl

hash_shaped : (t : Text) → is_hash (tagged t) ≡ true
unfolding is_hash toy
hash_shaped t = ground arith

built_submission_verifies_example :
    verify_p3_submission reader verifies (lit "bundle") (lit "public")
    ≡ ok (
        verdict reader stringify sign verifies
          (λ bytes. refl)
          hash_shaped
          manifest
          (tagged (lit "bundle"))
          1)
built_submission_verifies_example =
    built_submission_verifies reader stringify sign verifies (λ bytes. refl) hash_shaped (λ d. d)
      manifest artifacts authority (lit "private") (lit "public") (lit "bundle") built builds refl
      refl refl (λ t. refl)

abbrev answered : Verdict
answered = record {
  submission_id = lit "mgds.submission.one@1.0.0";
  bundle_hash = tagged (lit "bundle");
  artifacts = 1;
}

verifies_built : verify_p3_submission reader verifies (lit "bundle") (lit "public") ≡ ok answered
unfolding verify_p3_submission canonical sort_texts toy
verifies_built = refl

verified_submission-Binds_example : Binds reader verifies (lit "bundle") (lit "public") answered
verified_submission-Binds_example =
    verified_submission-Binds reader verifies (lit "bundle") (lit "public") answered verifies_built
