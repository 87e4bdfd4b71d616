-- ===== src/Json/Access.antt =====
-- What the program reads of a parsed JSON value: members by their key, texts, and the keys themselves.
use mgds.Prelude.{
  Bool, List, Option, Text, [], eqb, false, if◌then◌else◌, nat_eq, none, pos, some, sort_texts, suc,
  text_eq, ℕ, ◌==◌, ◌∷◌,
}
use mgds.Json.{Value, Items, Fields, num, str, arr, obj, nil, cons, end, field, canonical}

-- `value?.[key]`
abbrev pub field_of : Text → Fields → Option Value
field_of key end = none
field_of key (field k v fs) = if k == key then some v else field_of key fs

abbrev pub member : Text → Value → Option Value
member key (obj fs) = field_of key fs
member key _ = none

-- a text that is there, and otherwise the empty one
abbrev pub text_of : Option Value → Text
text_of (some (str t)) = t
text_of _ = []

-- `value === text`
abbrev pub is_str : Text → Option Value → Bool
is_str t (some (str s)) = s == t
is_str t _ = false

-- `value === number`
abbrev pub is_num : ℕ → Option Value → Bool
is_num n (some (num (pos m))) = eqb m n
is_num n _ = false

-- the items of an array, where the value is one
abbrev pub items_of : Option Value → Option Items
items_of (some (arr items)) = some items
items_of _ = none

abbrev pub count : Items → ℕ
count nil = 0
count (cons v items) = suc (count items)

abbrev pub of_texts : List Text → Items
of_texts [] = nil
of_texts (t ∷ ts) = cons (str t) (of_texts ts)

abbrev pub keys : Fields → List Text
keys end = []
keys (field k v fs) = k ∷ keys fs

-- `exactKeys`
unfoldable pub exact_keys : Value → List Text → Bool
unfolding sort_texts
exact_keys (obj fs) names =
    canonical (arr (of_texts (sort_texts (keys fs)))) == canonical (arr (of_texts names))
exact_keys _ names = false
