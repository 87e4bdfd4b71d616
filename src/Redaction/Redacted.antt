-- ===== src/Redaction/Redacted.antt =====
-- What is left of a value once it was redacted.
use mgds.Prelude.{
  Bool-cases, List, Text, [], arith, false, has, inl, inr, length, length-take, lit, ltb, nat_eq,
  refl, suc, take, text_eq, true, zero, ℕ, ◌∷◌, ◌≡◌, ◌≤◌, ◌⊎◌,
}
use mgds.Json.{Value, Items, Fields, null, bool, num, str, arr, obj, nil, cons, end, field}
use mgds.Json.Access.{count}
use mgds.Redaction.{
  Limits, is_secret_key, is_path_key, without_ansi, limited, redact_for_evidence, redact_items,
  redact_fields, kept_field,
}

abbrev pub markers : List Text
markers =
    lit "[TRUNCATED_DEPTH]"
    ∷ lit "[TRUNCATED_ITEMS]"
    ∷ lit "[REDACTED]"
    ∷ lit "[REDACTED_PATH]"
    ∷ []

abbrev pub count_fields : Fields → ℕ
count_fields end = 0
count_fields (field key v fs) = suc (count_fields fs)

-- what stands under a key is the mark that the key asks for
abbrev pub Marked : Text → Value → Type 0
Marked key v =
    (is_secret_key key ≡ true → v ≡ str (lit "[REDACTED]"))
    × (is_secret_key key ≡ false → is_path_key key ≡ true → v ≡ str (lit "[REDACTED_PATH]"))

module _ (limits : Limits) where
  mutual
    -- A redacted value, at some depth: nothing nests deeper than the limit, no list and no object is longer
    -- than the limit, a text is a marker or within the limit, and every key that tells of a secret
    -- or a path has its marker.
    pub IsRedacted : ℕ → Value → Type 0
    IsRedacted depth (str t) = (length t ≤ limits.max_string) ⊎ (has markers t ≡ true)
    IsRedacted depth (arr items) =
        (depth ≤ limits.max_depth)
        × (count items ≤ limits.max_items)
        × AllRedacted (suc depth) items
    IsRedacted depth (obj fs) =
        (depth ≤ limits.max_depth)
        × (count_fields fs ≤ limits.max_items)
        × FieldsRedacted (suc depth) fs
    IsRedacted depth v = Unit

    pub AllRedacted : ℕ → Items → Type 0
    AllRedacted depth nil = Unit
    AllRedacted depth (cons v items) = IsRedacted depth v × AllRedacted depth items

    pub FieldsRedacted : ℕ → Fields → Type 0
    FieldsRedacted depth end = Unit
    FieldsRedacted depth (field key v fs) =
        Marked key v × IsRedacted depth v × FieldsRedacted depth fs

  limited-IsRedacted :
      (depth n : ℕ) (r : Value × ℕ)
      → (depth ≤ limits.max_depth → IsRedacted depth r.0)
      → IsRedacted depth (limited limits depth n r).0
  unfolding IsRedacted
  limited-IsRedacted depth n r h = elim (Bool-cases (ltb limits.max_depth depth)) [
    | inl deep ↦ rw deep (inr refl)
    | inr shallow ↦ elim (Bool-cases (ltb limits.max_items (suc n))) [
      | inl many ↦ rw (shallow, many) (inr refl)
      | inr few ↦ rw (shallow, few) (h (ground arith))
    ]
  ]

  kept_field-IsRedacted :
      (depth n : ℕ) (key : Text) (r : Value × ℕ)
      → IsRedacted depth r.0
      → Marked key (kept_field limits key n r).0 × IsRedacted depth (kept_field limits key n r).0
  unfolding IsRedacted kept_field
  kept_field-IsRedacted depth n key r h = elim (Bool-cases (is_secret_key key)) [
    | inl secret ↦ rw secret ((λ e. refl, λ e. cc), inr refl)
    | inr told ↦ elim (Bool-cases (is_path_key key)) [
      | inl path ↦ rw (told, path) ((λ e. cc, λ e f. refl), inr refl)
      | inr plain ↦ rw (told, plain) ((λ e. cc, λ e f. cc), h)
    ]
  ]

  mutual
    unfolding redact_for_evidence IsRedacted

    -- whatever is redacted, from whatever depth and count
    redacted : (depth n : ℕ) (v : Value) → IsRedacted depth (redact_for_evidence limits depth n v).0
    redacted depth n null = limited-IsRedacted depth n (null, suc n) (λ h. tt)
    redacted depth n (bool b) = limited-IsRedacted depth n (bool b, suc n) (λ h. tt)
    redacted depth n (num k) = limited-IsRedacted depth n (num k, suc n) (λ h. tt)
    redacted depth n (str t) =
        limited-IsRedacted depth n (str (take limits.max_string (without_ansi 0 t)), suc n)
          (λ h. inl (length-take limits.max_string (without_ansi 0 t)))
    redacted depth n (arr items) =
        let (few, all) = redacted_items limits.max_items (suc depth) (suc n) items in
        limited-IsRedacted depth n _ (λ h. (h, few, all))
    redacted depth n (obj fs) =
        let (few, all) = redacted_fields limits.max_items (suc depth) (suc n) fs in
        limited-IsRedacted depth n _ (λ h. (h, few, all))

    redacted_items :
        (left depth n : ℕ) (items : Items)
        → (count (redact_items limits left depth n items).0 ≤ left)
          × AllRedacted depth (redact_items limits left depth n items).0
    redacted_items zero depth n items = (omega arith, tt)
    redacted_items (suc left) depth n nil = (omega arith, tt)
    redacted_items (suc left) depth n (cons v items) =
        let (few, all) = redacted_items left depth (redact_for_evidence limits depth n v).1 items in
        (omega (arith, few), (redacted depth n v, all))

    redacted_fields :
        (left depth n : ℕ) (fs : Fields)
        → (count_fields (redact_fields limits left depth n fs).0 ≤ left)
          × FieldsRedacted depth (redact_fields limits left depth n fs).0
    redacted_fields zero depth n fs = (omega arith, tt)
    redacted_fields (suc left) depth n end = (omega arith, tt)
    redacted_fields (suc left) depth n (field key v fs) =
        let kept = kept_field limits key n (redact_for_evidence limits depth n v) in
        let (marked, good) =
          kept_field-IsRedacted depth n key (redact_for_evidence limits depth n v)
            (redacted depth n v) in
        let (few, all) = redacted_fields left depth kept.1 fs in
        (omega (arith, few), (marked, good, all))

-- Whatever is redacted, and whatever the limits: in what comes out nothing nests deeper than the depth, no
-- list and no object has more entries than the items, every text but the four marks has at most the
-- string limit, and under every key that tells of a secret or of a path stands its mark.
pub redact_for_evidence-IsRedacted :
    (limits : Limits) (v : Value) → IsRedacted limits 0 (redact_for_evidence limits 0 0 v).0
redact_for_evidence-IsRedacted limits v = redacted limits 0 0 v
