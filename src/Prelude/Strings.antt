-- ===== src/Prelude/Strings.antt =====
-- JavaScript strings: lists of UTF-16 code units. A literal of the source is `lit "…"`.
use Prim.Native.Nat.{ℕ, zero, suc, ◌+◌, ◌/◌, ◌%◌, compare, Ordering}
use Prim.Native.Char.{code}
use Prim.Native.String.{String}
use mathlib.Core.Path.{◌≡◌, refl}
use mathlib.Core.Bool.{Bool, true, false, ◌&&◌, ◌||◌}
use mathlib.Core.Option.{Option, none, some}
use mathlib.Core.List.{List, [], ◌∷◌, ◌++◌}
use mgds.Prelude.Tests.{ltb, leb, eqb, if◌then◌else◌}
use mgds.Prelude.Lists.{length, every}

abbrev pub Text : Type 0
Text = List ℕ

-- The literals of the source are in the basic plane, where a code point is one code unit.
abbrev pub lit : String → Text
lit String.[] = []
lit (String.◌∷◌ c s) = code c ∷ lit s

-- `left < right` on strings: by code units
abbrev pub text_lt : Text → Text → Bool
text_lt [] [] = false
text_lt [] (b ∷ t) = true
text_lt (a ∷ s) [] = false
text_lt (a ∷ s) (b ∷ t) = elim (compare a b) [
  | Ordering.lt ↦ true
  | Ordering.eq ↦ text_lt s t
  | Ordering.gt ↦ false
]

-- The rest of a text behind a prefix: `startsWith`, and the literal head of a pattern.
abbrev pub strip : Text → Text → Option Text
strip [] s = some s
strip (p ∷ ps) [] = none
strip (p ∷ ps) (c ∷ s) = if eqb p c then strip ps s else none

abbrev pub is_digit : ℕ → Bool
is_digit c = leb b'0' c && leb c b'9'

abbrev pub is_lower : ℕ → Bool
is_lower c = leb b'a' c && leb c b'z'

abbrev pub is_upper : ℕ → Bool
is_upper c = leb b'A' c && leb c b'Z'

-- [a-f0-9]
abbrev pub is_hex : ℕ → Bool
is_hex c = is_digit c || (leb b'a' c && leb c b'f')

-- [A-Za-z0-9_-]
abbrev pub is_id : ℕ → Bool
is_id c = is_lower c || is_upper c || is_digit c || eqb c b'_' || eqb c b'-'

-- A pattern that is a literal prefix and then at least `least` characters of one class.
unfoldable pub matches_class : Text → (ℕ → Bool) → ℕ → Text → Bool
matches_class prefix class least s = elim (strip prefix s) [
  | none ↦ false
  | some rest ↦ leb least (length rest) && every class rest
]

-- /^sha256:[a-f0-9]{64}$/, the constant HASH of several files
unfoldable pub is_hash : Text → Bool
is_hash s = elim (strip (lit "sha256:") s) [
  | none ↦ false
  | some rest ↦ eqb (length rest) 64 && every is_hex rest
]

-- `'0'.repeat(64)`
abbrev pub zeros : ℕ → Text
zeros zero = []
zeros (suc n) = b'0' ∷ zeros n

-- A number printed in decimal digits; the fuel `n + 1` is more than the digits of `n`.
pub print_digits : ℕ → ℕ → Text → Text
print_digits zero n acc = acc
print_digits (suc f) n acc =
    let rest = print_digits f (n / 10) ((b'0' + n % 10) ∷ acc) in
    if ltb n 10 then (b'0' + n) ∷ acc else rest

unfoldable pub print_ℕ : ℕ → Text
unfolding print_digits
print_ℕ n = print_digits (suc n) n []

print_ℕ_runs : print_ℕ 12040 ≡ lit "12040"
unfolding print_ℕ
print_ℕ_runs = refl

-- Array.prototype.join
abbrev pub join : Text → List Text → Text
join sep [] = []
join sep (x ∷ []) = x
join sep (x ∷ y ∷ xs) = x ++ (sep ++ join sep (y ∷ xs))

-- The rest behind the longest run of a class.
abbrev pub drop_while : (ℕ → Bool) → Text → Text
drop_while class [] = []
drop_while class (c ∷ s) = if class c then drop_while class s else c ∷ s

-- `[class]+`, where no text that may follow begins with the class
abbrev pub behind_class : (ℕ → Bool) → Text → Option Text
behind_class class [] = none
behind_class class (c ∷ s) = if class c then some (drop_while class s) else none

infixl 10 ◌>=◌
abbrev pub ◌>=◌ : Option Text → (Text → Option Text) → Option Text
none >= f = none
some s >= f = f s

abbrev pub is_end : Option Text → Bool
is_end (some []) = true
is_end _ = false

-- [a-z0-9.-]
abbrev pub is_label : ℕ → Bool
is_label c = is_lower c || is_digit c || eqb c b'.' || eqb c b'-'

-- `^PREFIX[a-z0-9.-]+@[0-9]+\.[0-9]+\.[0-9]+$`, the shape of every versioned identifier
unfoldable pub is_versioned : Text → Text → Bool
is_versioned prefix s = is_end (
    strip prefix s
    >= behind_class is_label
    >= strip (lit "@")
    >= behind_class is_digit
    >= strip (lit ".")
    >= behind_class is_digit
    >= strip (lit ".")
    >= behind_class is_digit)

-- `Array.prototype.sort` of strings, by code units
abbrev pub insert_text : Text → List Text → List Text
insert_text t [] = t ∷ []
insert_text t (u ∷ ts) = let rest = insert_text t ts in if text_lt u t then u ∷ rest else t ∷ u ∷ ts

unfoldable pub sort_texts : List Text → List Text
sort_texts [] = []
sort_texts (t ∷ ts) = insert_text t (sort_texts ts)

-- a unit put before the first part
abbrev pub push_unit : ℕ → List Text → List Text
push_unit c [] = (c ∷ []) ∷ []
push_unit c (part ∷ parts) = (c ∷ part) ∷ parts

-- the parts between the occurrences of a unit: `split`
abbrev pub split_on : ℕ → Text → List Text
split_on sep [] = [] ∷ []
split_on sep (c ∷ s) = if eqb c sep then [] ∷ split_on sep s else push_unit c (split_on sep s)
