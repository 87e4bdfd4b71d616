-- ===== src/Redaction.antt =====
-- packages/redaction/src/index.mjs: what may be published, and what is taken out of evidence. The regular
-- expressions are searched for in the text in lower case, as all but ANSI have the flag `i`.
pub mod Redacted
use mgds.Prelude.{
  Bool, List, Option, Text, [], any, drop, drop_while, eqb, false, has, if◌then◌else◌, is_digit,
  is_lower, leb, length, lit, ltb, nat_eq, none, not, some, strip, suc, take, text_eq, true, zero,
  ℕ, ◌&&◌, ◌++◌, ◌+◌, ◌-◌, ◌||◌, ◌∷◌,
}
use mgds.Json.{Value, Items, Fields, null, bool, num, str, arr, obj, nil, cons, end, field}
use mgds.Evidence.Build.{lower}

abbrev starts : Text → Text → Bool
starts word t = elim (strip word t) [ none ↦ false | some rest ↦ true ]

-- a match at some place of a text
abbrev pub found : (Text → Bool) → Text → Bool
found p [] = p []
found p (c ∷ t) = p (c ∷ t) || found p t

abbrev pub has_word : List Text → Text → Bool
has_word words t = any (λ word. found (starts word) (lower t)) words

-- SECRET_KEYS, PATH_KEYS and PROHIBITED_KEY
unfoldable pub is_secret_key : Text → Bool
is_secret_key =
    has_word
      (lit "token" ∷ lit "secret" ∷ lit "password" ∷ lit "credential" ∷ lit "authorization" ∷ [])

unfoldable pub is_path_key : Text → Bool
is_path_key = has_word (lit "path" ∷ lit "directory" ∷ lit "cwd" ∷ [])

unfoldable pub is_prohibited_key : Text → Bool
is_prohibited_key = has_word (
    lit "transcript"
    ∷ lit "email"
    ∷ lit "username"
    ∷ lit "rawpath"
    ∷ lit "secret"
    ∷ lit "credential"
    ∷ lit "token"
    ∷ [])

abbrev pub between : ℕ → ℕ → ℕ → Bool
between low high c = leb low c && leb c high

abbrev head_is : (ℕ → Bool) → Text → Bool
head_is class [] = false
head_is class (c ∷ t) = class c

abbrev count_while : (ℕ → Bool) → Text → ℕ
count_while class [] = 0
count_while class (c ∷ t) = if class c then suc (count_while class t) else 0

-- how long the control sequence is that a text begins with, 0 where there is none:
-- /\u001b\[[0-?]*[ -/]*[@-~]/
unfoldable pub ansi_length : Text → ℕ
ansi_length t =
    let parameters = count_while (between b'0' b'?') (drop 2 t) in
    let middle = count_while (between b' ' b'/') (drop (2 + parameters) t) in
    if starts (27 ∷ b'[' ∷ []) t && head_is (between b'@' b'~') (drop (2 + parameters + middle) t)
    then 3 + parameters + middle
    else 0

-- `\s`
abbrev is_space : ℕ → Bool
is_space c =
    between 9 13 c
    || between 8192 8202 c
    || has (32 ∷ 160 ∷ 5760 ∷ 8232 ∷ 8233 ∷ 8239 ∷ 8287 ∷ 12288 ∷ 65279 ∷ []) c

-- [^\s"')] and [^\s"']
abbrev is_path_unit : ℕ → Bool
is_path_unit c = not (is_space c || eqb c b'"' || eqb c b'\'' || eqb c b')')

abbrev is_drive_unit : ℕ → Bool
is_drive_unit c = not (is_space c || eqb c b'"' || eqb c b'\'')

abbrev is_share_unit : ℕ → Bool
is_share_unit c = not (is_space c || eqb c b'\\')

abbrev roots : List Text
roots =
    lit "users"
    ∷ lit "home"
    ∷ lit "volumes"
    ∷ lit "tmp"
    ∷ lit "private"
    ∷ lit "var"
    ∷ lit "opt"
    ∷ lit "mnt"
    ∷ lit "srv"
    ∷ lit "workspace"
    ∷ []

-- the rest of a text behind a prefix, and the empty text where it has another beginning
abbrev after : Text → Text → Text
after prefix t = elim (strip prefix t) [ none ↦ [] | some rest ↦ rest ]

abbrev rooted : Text → Bool
rooted t = any (λ root. head_is is_path_unit (after (root ++ lit "/") t)) roots

-- gh[pousr]_[A-Za-z0-9_]{20,} and sk-[A-Za-z0-9_-]{20,}
abbrev is_word_unit : ℕ → Bool
is_word_unit c = is_lower c || is_digit c || eqb c b'_'

abbrev is_github_token : Text → Bool
is_github_token t =
    any (λ c. leb 20 (count_while is_word_unit (after (b'g' ∷ b'h' ∷ c ∷ b'_' ∷ []) t)))
      (lit "pousr")

abbrev is_api_key : Text → Bool
is_api_key t = leb 20 (count_while (λ c. is_word_unit c || eqb c b'-') (after (lit "sk-") t))

abbrev is_drive_path : Text → Bool
is_drive_path (c ∷ d ∷ e ∷ t) =
    is_lower c && eqb d b':' && (eqb e b'\\' || eqb e b'/') && head_is is_drive_unit t
is_drive_path _ = false

abbrev is_share : Text → Bool
is_share t =
    let name = after (lit "\\\\") t in
    head_is is_share_unit name
    && head_is is_share_unit (after (lit "\\") (drop_while is_share_unit name))

abbrev is_local_unit : ℕ → Bool
is_local_unit c = is_lower c || is_digit c || has (lit "._%+-") c

abbrev is_domain_unit : ℕ → Bool
is_domain_unit c = is_lower c || is_digit c || eqb c b'.' || eqb c b'-'

-- [A-Z0-9.-]*\.[A-Z]{2,}
abbrev ends_domain : Text → Bool
ends_domain [] = false
ends_domain (c ∷ t) =
    (eqb c b'.' && leb 2 (count_while is_lower t)) || (is_domain_unit c && ends_domain t)

abbrev is_mail : Text → Bool
is_mail t =
    let domain = after (lit "@") (drop_while is_local_unit t) in
    head_is is_local_unit t && head_is is_domain_unit domain && ends_domain (drop 1 domain)

-- `(?:^|[\s"'(=:])\/`, given the unit before
abbrev is_rooted_path : Option ℕ → Text → Bool
is_rooted_path none t = rooted (after (lit "/") t)
is_rooted_path (some c) t = (is_space c || has (lit "\"'(=:") c) && rooted (after (lit "/") t)

abbrev prohibited_at : Option ℕ → Text → Bool
prohibited_at before t =
    not (eqb (ansi_length t) 0)
    || is_github_token t
    || is_api_key t
    || rooted (after (lit "file:///") t)
    || is_rooted_path before t
    || is_drive_path t
    || is_share t
    || is_mail t

abbrev prohibited_from : Option ℕ → Text → Bool
prohibited_from before [] = prohibited_at before []
prohibited_from before (c ∷ t) = prohibited_at before (c ∷ t) || prohibited_from (some c) t

-- PROHIBITED_VALUE
unfoldable pub is_prohibited_value : Text → Bool
unfolding ansi_length
is_prohibited_value t = prohibited_from none (lower t)

unfoldable mutual
  -- `assertPublishable`, whether it returns
  unfolding is_prohibited_value is_prohibited_key

  pub assert_publishable : Value → Bool
  assert_publishable (str t) = not (is_prohibited_value t)
  assert_publishable (arr items) = assert_publishable_items items
  assert_publishable (obj fs) = assert_publishable_fields fs
  assert_publishable v = true

  pub assert_publishable_items : Items → Bool
  assert_publishable_items nil = true
  assert_publishable_items (cons v items) = assert_publishable v && assert_publishable_items items

  pub assert_publishable_fields : Fields → Bool
  assert_publishable_fields end = true
  assert_publishable_fields (field key v fs) =
      not (is_prohibited_key key) && assert_publishable v && assert_publishable_fields fs

-- the control sequences taken out of a text; so many units of one are still to skip
unfoldable pub without_ansi : ℕ → Text → Text
unfolding ansi_length
without_ansi skip [] = []
without_ansi (suc skip) (c ∷ t) = without_ansi skip t
without_ansi zero (c ∷ t) =
    let length = ansi_length (c ∷ t) in
    let rest = without_ansi (length - 1) t in if eqb length 0 then c ∷ rest else rest

pub record Limits : Type 0 where
  pub max_depth : ℕ
  pub max_items : ℕ
  pub max_string : ℕ

abbrev pub default_limits : Limits
default_limits = record { max_depth = 8; max_items = 1000; max_string = 8192 }

module _ (limits : Limits) where
  -- the two tests at the head of `redactForEvidence`, with the count of the items
  abbrev pub limited : ℕ → ℕ → Value × ℕ → Value × ℕ
  limited depth n result =
      if ltb limits.max_depth depth
      then (str (lit "[TRUNCATED_DEPTH]"), n)
      else if ltb limits.max_items (suc n)
      then (str (lit "[TRUNCATED_ITEMS]"), suc n)
      else result

  -- what stands under a key: a mark, or the redacted value
  unfoldable pub kept_field : Text → ℕ → Value × ℕ → Value × ℕ
  unfolding is_secret_key is_path_key
  kept_field key n deeper =
      if is_secret_key key
      then (str (lit "[REDACTED]"), n)
      else if is_path_key key
      then (str (lit "[REDACTED_PATH]"), n)
      else deeper

  unfoldable mutual
    unfolding kept_field without_ansi

    -- the value and the count behind it
    pub redact_for_evidence : ℕ → ℕ → Value → Value × ℕ
    redact_for_evidence depth n (str t) =
        limited depth n (str (take limits.max_string (without_ansi 0 t)), suc n)
    redact_for_evidence depth n (arr items) =
        let (out, m) = redact_items limits.max_items (suc depth) (suc n) items in
        limited depth n (arr out, m)
    redact_for_evidence depth n (obj fs) =
        let (out, m) = redact_fields limits.max_items (suc depth) (suc n) fs in
        limited depth n (obj out, m)
    redact_for_evidence depth n v = limited depth n (v, suc n)

    pub redact_items : ℕ → ℕ → ℕ → Items → Items × ℕ
    redact_items zero depth n items = (nil, n)
    redact_items (suc left) depth n nil = (nil, n)
    redact_items (suc left) depth n (cons v items) =
        let (w, m) = redact_for_evidence depth n v in
        let (out, k) = redact_items left depth m items in (cons w out, k)

    pub redact_fields : ℕ → ℕ → ℕ → Fields → Fields × ℕ
    redact_fields zero depth n fs = (end, n)
    redact_fields (suc left) depth n end = (end, n)
    redact_fields (suc left) depth n (field key v fs) =
        let (w, m) = kept_field key n (redact_for_evidence depth n v) in
        let (out, k) = redact_fields left depth m fs in (field key w out, k)
