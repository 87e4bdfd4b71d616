-- ===== src/Services/Negotiation.antt =====
-- scripts/negotiate-version.mjs, on identifiers that are split already, as `splitIdentifier` does:
-- a base and three whole numbers.
use mgds.Prelude.{
  Bool, Dict, List, Option, Text, [], arith, eqb, false, get, if◌then◌else◌, join, lit, ltb, map,
  nat_eq, negsuc, none, not, pos, print_ℕ, some, text_beq_iff, text_eq, ℕ, ℤ, ◌&&◌, ◌-◌, ◌<◌, ◌==◌,
  ◌||◌, ◌∷◌, ◌≡◌, ◌⊎◌,
}

pub record Identifier : Type 0 where
  pub base : Text
  pub major : ℕ
  pub minor : ℕ
  pub patch : ℕ

-- `left - right`
abbrev pub difference : ℕ → ℕ → ℤ
difference left right = if ltb left right then negsuc (right - left - 1) else pos (left - right)

-- the loop of `compare`
pub compare_parts : List ℕ → List ℕ → ℤ
compare_parts (l ∷ left) (r ∷ right) =
    let rest = compare_parts left right in if eqb l r then rest else difference l r
compare_parts _ _ = pos 0

abbrev pub version : Identifier → List ℕ
version id = id.major ∷ id.minor ∷ id.patch ∷ []

abbrev pub is_zero : ℤ → Bool
is_zero (pos n) = eqb n 0
is_zero (negsuc n) = false

abbrev pub is_positive : ℤ → Bool
is_positive (pos n) = ltb 0 n
is_positive (negsuc n) = false

pub data Negotiated : Type 0 where
  unsupported deprecated exact compatible : Negotiated

abbrev pub compatible_line : Identifier → Identifier → Bool
compatible_line requested advertised =
    eqb requested.major advertised.major
    && (not (eqb requested.major 0) || eqb requested.minor advertised.minor)

-- given whether the registry calls the advertised version deprecated
abbrev pub negotiate_split : Identifier → Identifier → Bool → Negotiated
negotiate_split requested advertised is_deprecated =
    if not (requested.base == advertised.base)
    then unsupported
    else if is_deprecated
    then deprecated
    else if is_zero (compare_parts (version requested) (version advertised))
    then exact
    else if compatible_line requested advertised
        && is_positive (compare_parts (version advertised) (version requested))
    then compatible
    else unsupported

-- `registry.capabilities`: for each base, the status of its versions
abbrev pub Registry : Type 0
Registry = Dict Text (Dict Text Text)

abbrev pub status_in : Text → Option (Dict Text Text) → Option Text
status_in version none = none
status_in version (some versions) = get versions version

unfoldable pub registry_status : Identifier → Registry → Option Text
unfolding print_ℕ
registry_status id registry =
    status_in (join (lit ".") (map print_ℕ (version id))) (get registry id.base)

abbrev pub says_deprecated : Option Text → Bool
says_deprecated none = false
says_deprecated (some status) = status == lit "deprecated"

unfoldable pub negotiate_capability : Option Identifier → Option Identifier → Registry → Negotiated
unfolding compare_parts registry_status
negotiate_capability (some requested) (some advertised) registry =
    negotiate_split requested advertised (says_deprecated (registry_status advertised registry))
negotiate_capability _ _ registry = unsupported

split_moves_forward :
    (requested advertised : Identifier) (is_deprecated : Bool)
    → negotiate_split requested advertised is_deprecated ≡ compatible
    → (requested.base ≡ advertised.base)
      × (requested.major ≡ advertised.major)
      × (requested.major ≡ 0 → requested.minor ≡ advertised.minor)
      × ((requested.minor < advertised.minor)
          ⊎ ((requested.minor ≡ advertised.minor) × (requested.patch < advertised.patch)))
      × (is_deprecated ≡ false)
unfolding compare_parts
split_moves_forward requested advertised is_deprecated h =
    ground (arith, text_beq_iff requested.base advertised.base)

-- A compatible answer never goes back and never leaves the line: the base and the major number are
-- the requested ones, below 1.0.0 the minor number too, the advertised version is later, and the
-- registry does not call it deprecated.
pub compatible_moves_forward :
    (requested advertised : Identifier) (registry : Registry)
    → negotiate_capability (some requested) (some advertised) registry ≡ compatible
    → (requested.base ≡ advertised.base)
      × (requested.major ≡ advertised.major)
      × (requested.major ≡ 0 → requested.minor ≡ advertised.minor)
      × ((requested.minor < advertised.minor)
          ⊎ ((requested.minor ≡ advertised.minor) × (requested.patch < advertised.patch)))
      × (says_deprecated (registry_status advertised registry) ≡ false)
unfolding negotiate_capability
compatible_moves_forward requested advertised registry h =
    split_moves_forward requested advertised (says_deprecated (registry_status advertised registry))
      h
