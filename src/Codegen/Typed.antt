-- ===== src/Codegen/Typed.antt =====
-- tools/codegen/generate.mjs: what a schema asks of a value and what the generated types promise,
-- each described on its own. What a `$ref` stands for is the parameter `Accepts`: the values of the
-- schema that it names, which are those of the interface of its name.
use mgds.Prelude.{
  All, Bool, List, Memᴰ, Option, Text, false, none, some, true, ℤ, ◌&&◌, ◌||◌, ◌∷◌, ◌≡◌,
}
use mgds.Json.{Value, Items, Fields, bool, num, str, arr, obj, nil, cons}
use mgds.Json.Access.{field_of}
use mgds.Codegen.{
  TypeKeyword, unstated, a_string, an_integer, a_number, a_boolean, an_array, an_object, another,
  Schema, schema, ItemSchema, any_item, each_item, PropertySchemas, unlisted, listed, Properties,
  no_more, property, TsType, literal, literals, interface_of, string_type, number_type,
  boolean_type, unknown_record, array_of, object_of, TsFields, no_fields, ts_field,
}

-- the keyword `type` of a schema
abbrev pub allows : TypeKeyword → Value → Bool
allows a_string (str t) = true
allows an_integer (num n) = true
allows a_number (num n) = true
allows a_boolean (bool b) = true
allows an_array (arr xs) = true
allows an_object (obj ms) = true
allows unstated v = true
allows (another name) v = true
allows _ v = false

abbrev pub AllItems : (Value → Type 0) → Items → Type 0
AllItems P nil = Unit
AllItems P (cons v vs) = P v × AllItems P vs

-- a keyword that speaks of arrays, or of objects, leaves other values alone
abbrev pub OnArray : (Items → Type 0) → Value → Type 0
OnArray P (arr vs) = P vs
OnArray P v = Unit

abbrev pub OnObject : (Fields → Type 0) → Value → Type 0
OnObject P (obj ms) = P ms
OnObject P v = Unit

abbrev pub IfThere : (Value → Type 0) → Option Value → Type 0
IfThere P none = Unit
IfThere P (some v) = P v

abbrev pub IsThere : (Value → Type 0) → Option Value → Type 0
IsThere P none = ⊥
IsThere P (some v) = P v

abbrev pub FieldHas : Bool → (Value → Type 0) → Option Value → Type 0
FieldHas true P v = IsThere P v
FieldHas false P v = IfThere P v

abbrev pub Required : List Text → Fields → Type 0
Required required ms = All (λ key. IsThere (λ v. Unit) (field_of key ms)) required

abbrev pub IsConst : Option Value → Value → Type 0
IsConst none v = Unit
IsConst (some value) v = v ≡ value

abbrev pub IsListed : Option (List Value) → Value → Type 0
IsListed none v = Unit
IsListed (some values) v = Memᴰ v values

module _ (Accepts : Text → Value → Type 0) where
  abbrev pub IsReferred : Option Text → Value → Type 0
  IsReferred none v = Unit
  IsReferred (some ref) v = Accepts ref v

  -- A value is valid against a schema: every keyword of it holds.
  unfoldable mutual
    pub Conforms : Schema → Value → Type 0
    Conforms (schema constant values ref kind items properties required) v =
        IsConst constant v
        × IsListed values v
        × IsReferred ref v
        × (allows kind v ≡ true)
        × OnArray (ConformItems items) v
        × OnObject (ConformProperties properties) v
        × OnObject (Required required) v

    pub ConformItems : ItemSchema → Items → Type 0
    ConformItems any_item vs = Unit
    ConformItems (each_item items) vs = AllItems (λ v. Conforms items v) vs

    pub ConformProperties : PropertySchemas → Fields → Type 0
    ConformProperties unlisted ms = Unit
    ConformProperties (listed properties) ms = ConformEach properties ms

    pub ConformEach : Properties → Fields → Type 0
    ConformEach no_more ms = Unit
    ConformEach (property key value properties) ms =
        IfThere (λ v. Conforms value v) (field_of key ms) × ConformEach properties ms

  -- A value has a type of TypeScript.
  unfoldable mutual
    pub HasType : TsType → Value → Type 0
    HasType (literal value) v = v ≡ value
    HasType (literals values) v = Memᴰ v values
    HasType (interface_of ref) v = Accepts ref v
    HasType string_type v = (t : Text) × (v ≡ str t)
    HasType number_type v = (n : ℤ) × (v ≡ num n)
    HasType boolean_type v = (b : Bool) × (v ≡ bool b)
    HasType unknown_record v = (ms : Fields) × (v ≡ obj ms)
    HasType (array_of type) v = (vs : Items) × (v ≡ arr vs) × AllItems (λ w. HasType type w) vs
    HasType (object_of fields) v = (ms : Fields) × (v ≡ obj ms) × HasFields fields ms

    pub HasFields : TsFields → Fields → Type 0
    HasFields no_fields ms = Unit
    HasFields (ts_field key required type fields) ms =
        FieldHas required (λ v. HasType type v) (field_of key ms) × HasFields fields ms

-- The generator has a type of its own for the schema: one of the keywords that it tests is there.
abbrev pub is_there : {A : Type 0} → Option A → Bool
is_there none = false
is_there (some x) = true

abbrev pub is_ref : Option Text → Bool
is_ref (some (c ∷ ref)) = true
is_ref _ = false

abbrev pub has_items : ItemSchema → Bool
has_items any_item = false
has_items (each_item items) = true

abbrev pub is_known : TypeKeyword → ItemSchema → Bool
is_known unstated items = false
is_known (another name) items = false
is_known an_array items = has_items items
is_known _ items = true

unfoldable mutual
  pub is_supported : Schema → Bool
  is_supported (schema constant values ref kind items properties required) =
      (is_there constant || is_there values || is_ref ref || is_known kind items)
      && supported_items items
      && supported_properties properties

  pub supported_items : ItemSchema → Bool
  supported_items any_item = true
  supported_items (each_item items) = is_supported items

  pub supported_properties : PropertySchemas → Bool
  supported_properties unlisted = true
  supported_properties (listed properties) = supported_each properties

  pub supported_each : Properties → Bool
  supported_each no_more = true
  supported_each (property key value properties) = is_supported value && supported_each properties
