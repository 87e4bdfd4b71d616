-- ===== src/Evidence/Build.antt =====
-- packages/campaign/src/index.mjs, `validPortableBuildName` and `validPlayerBuild`.
pub mod Names
use mgds.Prelude.{
  Bool, List, Option, Text, [], any, eqb, every, false, has, if◌then◌else◌, is_hash, is_id,
  is_upper, leb, length, lit, ltb, map, nat_eq, none, not, some, split_on, text_eq, true, ℕ, ◌&&◌,
  ◌+◌, ◌==◌, ◌||◌, ◌∷◌,
}
use mgds.Json.{Value, Items, Fields, nil, cons, str, obj, field, end, canonical}
use mgds.Json.Access.{member, text_of, is_str, items_of, exact_keys}

abbrev pub lower_unit : ℕ → ℕ
lower_unit c = if is_upper c then c + 32 else c

-- toLowerCase on the characters of a valid name
abbrev pub lower : Text → Text
lower t = map lower_unit t

-- con, prn, aux, nul, com1 to com9, lpt1 to lpt9
abbrev pub reserved_names : List Text
reserved_names =
    lit "con"
    ∷ lit "prn"
    ∷ lit "aux"
    ∷ lit "nul"
    ∷ lit "com1"
    ∷ lit "com2"
    ∷ lit "com3"
    ∷ lit "com4"
    ∷ lit "com5"
    ∷ lit "com6"
    ∷ lit "com7"
    ∷ lit "com8"
    ∷ lit "com9"
    ∷ lit "lpt1"
    ∷ lit "lpt2"
    ∷ lit "lpt3"
    ∷ lit "lpt4"
    ∷ lit "lpt5"
    ∷ lit "lpt6"
    ∷ lit "lpt7"
    ∷ lit "lpt8"
    ∷ lit "lpt9"
    ∷ []

abbrev first_part : List Text → Text
first_part [] = []
first_part (part ∷ parts) = part

-- a reserved name, alone or before a dot, in letters of either case
unfoldable pub is_reserved : Text → Bool
is_reserved segment = has reserved_names (lower (first_part (split_on b'.' segment)))

-- [A-Za-z0-9._-]
abbrev pub is_portable_unit : ℕ → Bool
is_portable_unit c = is_id c || eqb c b'.'

abbrev ends_with_dot : Text → Bool
ends_with_dot [] = false
ends_with_dot (c ∷ []) = eqb c b'.'
ends_with_dot (c ∷ d ∷ s) = ends_with_dot (d ∷ s)

unfoldable pub valid_segment : Text → Bool
unfolding is_reserved
valid_segment segment =
    ltb 0 (length segment)
    && leb (length segment) 120
    && not (segment == lit ".")
    && not (segment == lit "..")
    && not (ends_with_dot segment)
    && every is_portable_unit segment
    && not (is_reserved segment)

abbrev starts_with_slash : Text → Bool
starts_with_slash [] = false
starts_with_slash (c ∷ s) = eqb c b'/'

abbrev is_control : ℕ → Bool
is_control c = leb c 31 || eqb c 127

unfoldable pub valid_portable_build_name : Text → Bool
unfolding valid_segment
valid_portable_build_name name =
    ltb 0 (length name)
    && leb (length name) 240
    && not (starts_with_slash name)
    && not (has name b'\\')
    && not (any is_control name)
    && every valid_segment (split_on b'/' name)

-- What the checks ask of the runtime and of packages/redaction: hashes as `sha256:` texts, JSON.parse,
-- `toString` of bytes, the strict UTF-8 decoder, base64 both ways, `inflateSync`, the compiled schema of a
-- bundle, and whether `assertPublishable` returns.
pub record Reader : Type 0 where
  pub hash_text : Text → Text
  pub hash_bytes : List ℕ → Text
  pub parse : Text → Option Value
  pub to_text : List ℕ → Text
  pub decode_utf8 : List ℕ → Option Text
  pub from_base64 : Text → List ℕ
  pub to_base64 : List ℕ → Text
  pub inflate : List ℕ → ℕ → Option (List ℕ)
  pub evidence_ok : Value → Bool
  pub publishable : Value → Bool

-- `typeof value === "string"`
abbrev pub is_string : Option Value → Bool
is_string (some (str t)) = true
is_string _ = false

module _ (reader : Reader) where
  -- the bytes of an artifact or a file are there, are written in one way, and have the stated hash
  abbrev pub genuine : Text → Text → Bool
  genuine encoded hash =
      let bytes = reader.from_base64 encoded in
      ltb 0 (length bytes) && reader.to_base64 bytes == encoded && reader.hash_bytes bytes == hash

  -- bytes that are no text are not looked at
  abbrev pub text_publishable : Option Text → Bool
  text_publishable none = true
  text_publishable (some text) = reader.publishable (str text)

  abbrev pub valid_file : List Text → Value → Bool
  valid_file names file =
      let name = text_of (member (lit "name") file) in
      exact_keys file (lit "bytesBase64" ∷ lit "hash" ∷ lit "name" ∷ [])
      && is_string (member (lit "name") file)
      && valid_portable_build_name name
      && not (has names (lower name))
      && is_hash (text_of (member (lit "hash") file))
      && is_string (member (lit "bytesBase64") file)
      && genuine (text_of (member (lit "bytesBase64") file)) (text_of (member (lit "hash") file))
      && text_publishable
          (reader.decode_utf8 (reader.from_base64 (text_of (member (lit "bytesBase64") file))))

  abbrev pub identity_of : Value → Value
  identity_of file = obj (
      field (lit "name") (str (text_of (member (lit "name") file)))
        (field (lit "hash") (str (text_of (member (lit "hash") file))) end))

  abbrev with_identity : Value → Option Items → Option Items
  with_identity id none = none
  with_identity id (some ids) = some (cons id ids)

  -- the loop over the files: their identities, if every file is valid
  unfoldable pub file_identities : List Text → Items → Option Items
  unfolding exact_keys valid_portable_build_name is_hash
  file_identities names nil = some nil
  file_identities names (cons file files) =
      let rest = file_identities (lower (text_of (member (lit "name") file)) ∷ names) files in
      if valid_file names file then with_identity (identity_of file) rest else none

  abbrev has_artifact_hash : Value → Option Items → Bool
  has_artifact_hash value none = false
  has_artifact_hash value (some ids) =
      is_str (reader.hash_text (canonical (Value.arr ids))) (member (lit "artifactHash") value)

  abbrev build_files : Value → Option Items → Bool
  build_files value (some (cons file files)) =
      has_artifact_hash value (file_identities [] (cons file files))
  build_files value _ = false

  unfoldable pub valid_player_build : Value → Text → Bool
  unfolding file_identities
  valid_player_build value build_target =
      exact_keys value
        (lit "artifactHash" ∷ lit "buildTarget" ∷ lit "files" ∷ lit "schema" ∷ lit "status" ∷ [])
      && is_str (lit "mgds.player-build/v1") (member (lit "schema") value)
      && is_str (lit "pass") (member (lit "status") value)
      && is_str build_target (member (lit "buildTarget") value)
      && build_files value (items_of (member (lit "files") value))
