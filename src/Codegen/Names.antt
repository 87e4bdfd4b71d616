-- ===== src/Codegen/Names.antt =====
-- tools/codegen/generate.mjs: the names of the generated types.
use mgds.Prelude.{
  Bool, List, Option, Text, [], eqb, if◌then◌else◌, is_lower, lit, nat_eq, none, push_unit, refl,
  some, split_on, text_eq, ℕ, ◌++◌, ◌-◌, ◌==◌, ◌||◌, ◌∷◌, ◌≡◌,
}

-- [-_.]
abbrev is_mark : ℕ → Bool
is_mark c = eqb c b'-' || eqb c b'_' || eqb c b'.'

-- `value.split(/[-_.]/)`
abbrev parts_of : Text → List Text
parts_of [] = [] ∷ []
parts_of (c ∷ s) = if is_mark c then [] ∷ parts_of s else push_unit c (parts_of s)

-- `toUpperCase` of a letter: the names of the schemas are ASCII
abbrev upper : ℕ → ℕ
upper c = if is_lower c then c - 32 else c

abbrev capital : Text → Option Text
capital [] = none
capital (c ∷ s) = some (upper c ∷ s)

abbrev pub append? : Option Text → Option Text → Option Text
append? (some s) (some t) = some (s ++ t)
append? _ _ = none

abbrev capitals : List Text → Option Text
capitals [] = some []
capitals (part ∷ parts) = append? (capital part) (capitals parts)

-- An empty part has no first letter, and `pascal` throws.
unfoldable pub pascal : Text → Option Text
pascal value = capitals (parts_of value)

abbrev last_part : List Text → Text
last_part [] = []
last_part (part ∷ []) = part
last_part (part ∷ next ∷ parts) = last_part (next ∷ parts)

abbrev cut_end : Text → Text → Text
cut_end suffix [] = []
cut_end suffix (c ∷ s) = if (c ∷ s) == suffix then [] else c ∷ cut_end suffix s

-- `path.basename(ref, '.schema.json')`, of a reference that does not end with a slash
unfoldable pub basename : Text → Text
basename ref =
    let base = last_part (split_on b'/' ref) in
    if base == lit ".schema.json" then base else cut_end (lit ".schema.json") base

-- `Mgds${pascal(name)}`
unfoldable pub type_name : Text → Option Text
unfolding pascal
type_name name = append? (some (lit "Mgds")) (pascal name)

type_name_runs :
    (type_name (lit "campaign-run") ≡ some (lit "MgdsCampaignRun"))
    × (type_name (basename (lit "./artifact.schema.json")) ≡ some (lit "MgdsArtifact"))
    × (type_name (lit "a--b") ≡ none)
unfolding type_name basename
type_name_runs = (refl, refl, refl)
