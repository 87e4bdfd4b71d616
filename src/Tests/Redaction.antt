-- ===== src/Tests/Redaction.antt =====
-- Runs of the privacy checks and of the redaction.
use mgds.Prelude.{Text, [], false, lit, pos, refl, true, ◌++◌, ◌∷◌, ◌≡◌}
use mgds.Json.{Value, num, str, arr, obj, nil, cons, end, field}
use mgds.Redaction.{
  Limits, assert_publishable, is_prohibited_value, redact_for_evidence, without_ansi,
}
use mgds.Redaction.Redacted.{IsRedacted, redact_for_evidence-IsRedacted}

plain_text : assert_publishable (str (lit "see docs/README.md, 3 files")) ≡ true
unfolding assert_publishable
plain_text = refl

home_path : is_prohibited_value (lit "in /home/me/x") ≡ true
unfolding is_prohibited_value
home_path = refl

drive_path : is_prohibited_value (lit "C:\\Users") ≡ true
unfolding is_prohibited_value
drive_path = refl

mail : is_prohibited_value (lit "to a.b@c.example.ORG now") ≡ true
unfolding is_prohibited_value
mail = refl

no_mail : is_prohibited_value (lit "mgds.task@0.1.0") ≡ false
unfolding is_prohibited_value
no_mail = refl

api_key : is_prohibited_value (lit "key sk-ABCDEFGHIJ0123456789") ≡ true
unfolding is_prohibited_value
api_key = refl

key_name : assert_publishable (obj (field (lit "userEmail") (str []) end)) ≡ false
unfolding assert_publishable
key_name = refl

abbrev escape : Text
escape = 27 ∷ b'[' ∷ []

colors_removed : without_ansi 0 (escape ++ lit "31mred" ++ (escape ++ lit "0m")) ≡ lit "red"
unfolding without_ansi
colors_removed = refl

-- one pass: what closes up behind a removed sequence may be one
sequence_left : without_ansi 0 (escape ++ (escape ++ lit "0mm")) ≡ escape ++ lit "m"
unfolding without_ansi
sequence_left = refl

abbrev dump : Value
dump = obj (
    field (lit "apiToken") (num (pos 7)) (
      field (lit "cwd") (str (lit "/home/me")) (
        field (lit "note") (str (escape ++ lit "1mlonger than nine"))
          (field (lit "list") (arr (cons (arr nil) nil)) end))))

abbrev tight : Limits
tight = record { max_depth = 1; max_items = 9; max_string = 6 }

dump_redacted :
    (redact_for_evidence tight 0 0 dump).0
    ≡ obj (
        field (lit "apiToken") (str (lit "[REDACTED]")) (
          field (lit "cwd") (str (lit "[REDACTED_PATH]")) (
            field
              (lit "note")
              (str (lit "longer"))
              (field (lit "list") (arr (cons (str (lit "[TRUNCATED_DEPTH]")) nil)) end))))
unfolding redact_for_evidence
dump_redacted = refl

redact_for_evidence-IsRedacted_example : IsRedacted tight 0 (redact_for_evidence tight 0 0 dump).0
redact_for_evidence-IsRedacted_example = redact_for_evidence-IsRedacted tight dump
