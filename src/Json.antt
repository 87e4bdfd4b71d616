-- ===== src/Json.antt =====
-- JSON values as `JSON.parse` gives them, and `canonical` of packages/attestation/src/index.mjs,
-- which packages/artifacts, controller and campaign repeat. Numbers are whole: a fraction does not
-- occur in the records that are hashed here.
pub mod Order
pub mod Access
pub mod Attestation
use mgds.Prelude.{
  Bool, List, Text, [], eqb, false, if◌then◌else◌, join, leb, lit, ltb, map, nat_eq, negsuc, pos,
  print_ℤ, refl, text_eq, text_lt, true, ℕ, ℤ, ◌&&◌, ◌++◌, ◌+◌, ◌-◌, ◌==◌, ◌||◌, ◌∷◌, ◌≡◌,
}
use Prim.Native.Nat.{◌/◌, ◌%◌}

mutual
  pub data Value : Type 0 where
    null : Value
    bool : Bool → Value
    num : ℤ → Value
    str : Text → Value
    arr : Items → Value
    obj : Fields → Value

  pub data Items : Type 0 where
    nil : Items
    cons : Value → Items → Items

  pub data Fields : Type 0 where
    end : Fields
    field : Text → Value → Fields → Fields

abbrev hex_digit : ℕ → ℕ
hex_digit n = if ltb n 10 then b'0' + n else b'a' + (n - 10)

-- `\u` and four hexadecimal digits
escape_unit : ℕ → Text
escape_unit c =
    b'\\'
    ∷ b'u'
    ∷ hex_digit (c / 4096 % 16)
    ∷ hex_digit (c / 256 % 16)
    ∷ hex_digit (c / 16 % 16)
    ∷ hex_digit (c % 16)
    ∷ []

-- One code unit inside a JSON string: the short escapes, `\u00xx`, or the unit itself.
unfoldable pub quote_unit : ℕ → Text
unfolding escape_unit
quote_unit c =
    if eqb c b'"' || eqb c b'\\'
    then b'\\' ∷ c ∷ []
    else if eqb c 8
    then lit "\\b"
    else if eqb c 9
    then lit "\\t"
    else if eqb c 10
    then lit "\\n"
    else if eqb c 12
    then lit "\\f"
    else if eqb c 13
    then lit "\\r"
    else if ltb c 32
    then escape_unit c
    else c ∷ []

abbrev pub is_high : ℕ → Bool
is_high c = leb 0xd800 c && leb c 0xdbff

abbrev pub is_low : ℕ → Bool
is_low c = leb 0xdc00 c && leb c 0xdfff

-- The pieces of a quoted string: a surrogate pair stays, a lone surrogate is escaped.
unfoldable pub quote_units : Text → Text
unfolding quote_unit escape_unit
quote_units [] = []
quote_units (c ∷ []) = if is_high c || is_low c then escape_unit c else quote_unit c
quote_units (c ∷ d ∷ s) =
    let pair = c ∷ d ∷ quote_units s in
    let single =
      (if is_high c || is_low c then escape_unit c else quote_unit c) ++ quote_units (d ∷ s) in
    if is_high c && is_low d then pair else single

-- `JSON.stringify` of a string
unfoldable pub quote : Text → Text
unfolding quote_units
quote s = b'"' ∷ (quote_units s ++ b'"' ∷ [])

-- `Object.keys(value).sort()`, on the pairs of a key and its printed value
pub insert_key : Text × Text → List (Text × Text) → List (Text × Text)
insert_key p [] = p ∷ []
insert_key p (q ∷ r) = if text_lt q.0 p.0 then q ∷ insert_key p r else p ∷ q ∷ r

pub sort_keys : List (Text × Text) → List (Text × Text)
unfolding insert_key
sort_keys [] = []
sort_keys (p ∷ r) = insert_key p (sort_keys r)

-- `${JSON.stringify(key)}:${canonical(value[key])}`
pub member : Text × Text → Text
member p = quote p.0 ++ b':' ∷ p.1

-- `{…}` round the members, which stand in the order of their keys
unfoldable pub braces : List (Text × Text) → Text
unfolding sort_keys member quote
braces ms = b'{' ∷ (join (lit ",") (map member (sort_keys ms)) ++ b'}' ∷ [])

unfoldable mutual
  unfolding braces print_ℤ quote

  pub canonical : Value → Text
  canonical null = lit "null"
  canonical (bool true) = lit "true"
  canonical (bool false) = lit "false"
  canonical (num n) = print_ℤ n
  canonical (str s) = quote s
  canonical (arr xs) = b'[' ∷ (join (lit ",") (canonical_items xs) ++ b']' ∷ [])
  canonical (obj fs) = braces (canonical_fields fs)

  pub canonical_items : Items → List Text
  canonical_items nil = []
  canonical_items (cons v xs) = canonical v ∷ canonical_items xs

  pub canonical_fields : Fields → List (Text × Text)
  canonical_fields end = []
  canonical_fields (field k v fs) = (k, canonical v) ∷ canonical_fields fs

canonical_runs :
    canonical (obj (field (lit "b") (num (pos 2)) (field (lit "a") (arr (cons null nil)) end)))
    ≡ lit "{\"a\":[null],\"b\":2}"
unfolding canonical
canonical_runs = refl

-- `===` on parsed values: two arrays or objects that were parsed apart are never identical
unfoldable pub strict_eq : Value → Value → Bool
strict_eq null null = true
strict_eq (bool true) (bool true) = true
strict_eq (bool false) (bool false) = true
strict_eq (num (pos m)) (num (pos n)) = eqb m n
strict_eq (num (negsuc m)) (num (negsuc n)) = eqb m n
strict_eq (str s) (str t) = s == t
strict_eq _ _ = false
