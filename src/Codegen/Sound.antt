-- ===== src/Codegen/Sound.antt =====
-- tools/codegen/generate.mjs: values of a schema and the type that `tsType` prints for it.
use mgds.Prelude.{
  Bool, Bool-cases, List, Option, Text, [], and-eq-true, arith, beq_cases, false, has, inl, inr,
  nat_eq, none, refl, some, subst, text_eq, true, ◌&&◌, ◌||◌, ◌∷◌, ◌≡◌,
}
use mgds.Json.{Value, Items, Fields, bool, num, str, arr, obj, nil, cons}
use mgds.Json.Access.{field_of}
use mgds.Codegen.{
  TypeKeyword, unstated, a_string, an_integer, a_number, a_boolean, an_array, an_object, another,
  Schema, schema, ItemSchema, any_item, each_item, PropertySchemas, unlisted, listed, Properties,
  no_more, property, TsType, ts_type, ts_items, ts_object, ts_fields, ts_by_kind, ts_or_const,
  ts_or_enum, ts_or_ref,
}
use mgds.Codegen.Sources.{interface_fields}
use mgds.Codegen.Typed.{
  allows, AllItems, OnArray, OnObject, IfThere, IsThere, Required, IsConst, IsListed, IsReferred,
  Conforms, ConformItems, ConformProperties, ConformEach, FieldHas, HasType, HasFields, is_there,
  is_ref, is_known, has_items, is_supported, supported_items, supported_properties, supported_each,
}

IsThere-map :
    {P Q : Value → Type 0} (o : Option Value)
    → IsThere (λ v. Unit) o
    → IfThere P o
    → ((v : Value) → P v → Q v)
    → IsThere Q o
IsThere-map none h c f = h
IsThere-map (some v) h c f = f v c

IfThere-map :
    {P Q : Value → Type 0} (o : Option Value)
    → IfThere P o
    → ((v : Value) → P v → Q v)
    → IfThere Q o
IfThere-map none c f = tt
IfThere-map (some v) c f = f v c

Required-IsThere :
    (key : Text) (required : List Text) (ms : Fields)
    → has required key ≡ true
    → Required required ms
    → IsThere (λ v. Unit) (field_of key ms)
Required-IsThere key [] ms h r = cc
Required-IsThere key (k ∷ required) ms h r = elim (beq_cases k key) [
  | inl same ↦ subst (λ j. IsThere (λ v. Unit) (field_of j ms)) same r.0
  | inr other ↦ Required-IsThere key required ms (rw other at h) r.1
]

field_sound :
    (key : Text) (required : List Text) (ms : Fields) {P Q : Value → Type 0}
    → Required required ms
    → IfThere P (field_of key ms)
    → ((v : Value) → P v → Q v)
    → FieldHas (has required key) Q (field_of key ms)
field_sound key required ms r c f = elim (Bool-cases (has required key)) [
  | inl needed ↦
      rw needed (IsThere-map (field_of key ms) (Required-IsThere key required ms needed r) c f)
  | inr free ↦ rw free (IfThere-map (field_of key ms) c f)
]

known :
    (a b c d r s : Bool)
    → (((a || b || c || d) && r) && s) ≡ true
    → a ≡ false
    → b ≡ false
    → c ≡ false
    → d ≡ true
known a b c d r s h ha hb hc = ground arith

on_array :
    (P Q : Items → Type 0) (v : Value) → OnArray P v → ((vs : Items) → P vs → Q vs) → OnArray Q v
on_array P Q (arr vs) c f = f vs c
on_array P Q _ c f = tt

on_object :
    (P Q R : Fields → Type 0) (v : Value)
    → OnObject P v
    → OnObject Q v
    → ((ms : Fields) → P ms → Q ms → R ms)
    → OnObject R v
on_object P Q R (obj ms) c d f = f ms c d
on_object P Q R _ c d f = tt

module _ (Accepts : Text → Value → Type 0) where
  const_sound :
      (constant : Option Value) (v : Value) (t : TsType)
      → IsConst constant v
      → (is_there constant ≡ false → HasType Accepts t v)
      → HasType Accepts (ts_or_const constant t) v
  unfolding HasType
  const_sound none v t c rest = rest refl
  const_sound (some w) v t c rest = c

  enum_sound :
      (values : Option (List Value)) (v : Value) (t : TsType)
      → IsListed values v
      → (is_there values ≡ false → HasType Accepts t v)
      → HasType Accepts (ts_or_enum values t) v
  unfolding HasType
  enum_sound none v t c rest = rest refl
  enum_sound (some ws) v t c rest = c

  ref_sound :
      (ref : Option Text) (v : Value) (t : TsType)
      → IsReferred Accepts ref v
      → (is_ref ref ≡ false → HasType Accepts t v)
      → HasType Accepts (ts_or_ref ref t) v
  unfolding HasType
  ref_sound none v t c rest = rest refl
  ref_sound (some []) v t c rest = rest refl
  ref_sound (some (x ∷ ref)) v t c rest = c

  kind_sound :
      (kind : TypeKeyword) (items : ItemSchema) (v : Value) (t u : TsType)
      → is_known kind items ≡ true
      → allows kind v ≡ true
      → (has_items items ≡ true → OnArray (AllItems (HasType Accepts t)) v)
      → OnObject (λ ms. HasType Accepts u (obj ms)) v
      → HasType Accepts (ts_by_kind kind t u) v
  unfolding HasType
  kind_sound unstated items v t u k a each object = cc
  kind_sound (another name) items v t u k a each object = cc
  kind_sound a_string items (str s) t u k a each object = (s, refl)
  kind_sound an_integer items (num n) t u k a each object = (n, refl)
  kind_sound a_number items (num n) t u k a each object = (n, refl)
  kind_sound a_boolean items (bool b) t u k a each object = (b, refl)
  kind_sound an_array items (arr vs) t u k a each object = (vs, refl, each k)
  kind_sound an_object items (obj ms) t u k a each object = object
  kind_sound _ items v t u k a each object = cc

  mutual
    unfolding HasType Conforms is_supported ts_type

    type_sound :
        (s : Schema) (v : Value)
        → is_supported s ≡ true
        → Conforms Accepts s v
        → HasType Accepts (ts_type s) v
    type_sound (schema constant values ref kind items properties required) v h c =
        let (h1, hp) = and-eq-true _ _ h in
        let (h0, hi) = and-eq-true _ _ h1 in
        let (a, b, r, k, es, ps, q) = c in
        const_sound constant v _ a (λ n. enum_sound values v _ b (λ m. ref_sound ref v _ r (λ l.
          kind_sound kind items v _ _
            (known (is_there constant) (is_there values) (is_ref ref) (is_known kind items)
              (supported_items items) (supported_properties properties) h n m l)
            k (λ some_items. on_array _ _ v es (λ vs d. items_sound items vs some_items hi d))
            (on_object _ _ _ v ps q (λ ms d e. object_sound properties required ms hp d e)))))

    items_sound :
        (items : ItemSchema) (vs : Items)
        → has_items items ≡ true
        → supported_items items ≡ true
        → ConformItems Accepts items vs
        → AllItems (HasType Accepts (ts_items items)) vs
    items_sound any_item vs k h c = cc
    items_sound (each_item s) nil k h c = tt
    items_sound (each_item s) (cons v vs) k h c =
        (type_sound s v h c.0, items_sound (each_item s) vs k h c.1)

    object_sound :
        (properties : PropertySchemas) (required : List Text) (ms : Fields)
        → supported_properties properties ≡ true
        → ConformProperties Accepts properties ms
        → Required required ms
        → HasType Accepts (ts_object required properties) (obj ms)
    object_sound unlisted required ms h c r = (ms, refl)
    object_sound (listed properties) required ms h c r =
        (ms, refl, fields_sound properties required ms h c r)

    fields_sound :
        (properties : Properties) (required : List Text) (ms : Fields)
        → supported_each properties ≡ true
        → ConformEach Accepts properties ms
        → Required required ms
        → HasFields Accepts (ts_fields required properties) ms
    fields_sound no_more required ms h c r = tt
    fields_sound (property key s properties) required ms h c r =
        let (hs, rest) = and-eq-true _ _ h in
        (
          field_sound key required ms r c.0 (λ v d. type_sound s v hs d),
          fields_sound properties required ms rest c.1 r,
        )

interface_sound :
    (Accepts : Text → Value → Type 0) (s : Schema) (v : Value)
    → is_supported s ≡ true
    → Conforms Accepts s v
    → OnObject (HasFields Accepts (interface_fields s)) v
unfolding Conforms is_supported interface_fields HasFields ts_type
interface_sound Accepts (schema constant values ref kind items unlisted required) v h c =
    on_object _ _ _ v c.5 c.6 (λ ms d r. tt)
interface_sound Accepts (schema constant values ref kind items (listed properties) required) v h c =
    on_object _ _ _ v c.5 c.6
      (λ ms d r. fields_sound Accepts properties required ms (and-eq-true _ _ h).1 d r)

-- Where the generator has a type of its own for the schema and for every schema inside it, a value
-- that is valid against the schema has the TypeScript type of the schema, and an object that is valid
-- against it has the fields of the interface: each required field, and each optional field that it
-- has, with its type. What a `$ref` accepts is a parameter, the same for both sides.
pub conforming-HasType :
    (Accepts : Text → Value → Type 0) (s : Schema) (v : Value)
    → is_supported s ≡ true
    → Conforms Accepts s v
    → HasType Accepts (ts_type s) v × OnObject (HasFields Accepts (interface_fields s)) v
conforming-HasType Accepts s v h c = (type_sound Accepts s v h c, interface_sound Accepts s v h c)
