-- ===== src/Codegen.antt =====
-- tools/codegen/generate.mjs: the types that it prints for the schemas of the protocol. Here are
-- the schemas as the generator reads them and the types of the three languages as trees.
pub mod Names
pub mod Print
pub mod Sources
pub mod Outputs
pub mod Typed
pub mod Sound
pub mod Fresh
use mgds.Prelude.{Bool, List, Option, Text, [], has, nat_eq, none, some, text_eq, ◌∷◌}
use mgds.Json.{Value, num, bool}

-- `schema.type`; `another` is a type or a list of types that the generator does not test for
pub data TypeKeyword : Type 0 where
  unstated a_string an_integer a_number a_boolean an_array an_object : TypeKeyword
  another : Text → TypeKeyword

-- What the generator reads of a schema: `const`, `enum`, `$ref`, `type`, `items`, `properties` and
-- `required`, each of which may be missing.
mutual
  pub data Schema : Type 0 where
    schema :
        Option Value
        → Option (List Value)
        → Option Text
        → TypeKeyword
        → ItemSchema
        → PropertySchemas
        → List Text
        → Schema

  pub data ItemSchema : Type 0 where
    any_item : ItemSchema
    each_item : Schema → ItemSchema

  pub data PropertySchemas : Type 0 where
    unlisted : PropertySchemas
    listed : Properties → PropertySchemas

  pub data Properties : Type 0 where
    no_more : Properties
    property : Text → Schema → Properties → Properties

-- The types that `tsType` prints; a field has its key and whether it is required.
mutual
  pub data TsType : Type 0 where
    literal : Value → TsType
    literals : List Value → TsType
    interface_of : Text → TsType
    string_type number_type boolean_type unknown_record : TsType
    array_of : TsType → TsType
    object_of : TsFields → TsType

  pub data TsFields : Type 0 where
    no_fields : TsFields
    ts_field : Text → Bool → TsType → TsFields → TsFields

abbrev ts_by_kind : TypeKeyword → TsType → TsType → TsType
ts_by_kind a_string items object = string_type
ts_by_kind an_integer items object = number_type
ts_by_kind a_number items object = number_type
ts_by_kind a_boolean items object = boolean_type
ts_by_kind an_array items object = array_of items
ts_by_kind an_object items object = object
ts_by_kind unstated items object = unknown_record
ts_by_kind (another name) items object = unknown_record

-- `if (schema.$ref)`: the empty text counts as none
abbrev ts_or_ref : Option Text → TsType → TsType
ts_or_ref none rest = rest
ts_or_ref (some []) rest = rest
ts_or_ref (some (c ∷ ref)) rest = interface_of (c ∷ ref)

abbrev ts_or_enum : Option (List Value) → TsType → TsType
ts_or_enum none rest = rest
ts_or_enum (some values) rest = literals values

abbrev ts_or_const : Option Value → TsType → TsType
ts_or_const none rest = rest
ts_or_const (some value) rest = literal value

unfoldable mutual
  pub ts_type : Schema → TsType
  ts_type (schema constant values ref kind items properties required) = ts_or_const constant (
      ts_or_enum values
        (ts_or_ref ref (ts_by_kind kind (ts_items items) (ts_object required properties))))

  -- `tsType(schema.items)`, whose default is the empty schema
  pub ts_items : ItemSchema → TsType
  ts_items any_item = unknown_record
  ts_items (each_item items) = ts_type items

  pub ts_object : List Text → PropertySchemas → TsType
  ts_object required unlisted = unknown_record
  ts_object required (listed properties) = object_of (ts_fields required properties)

  pub ts_fields : List Text → Properties → TsFields
  ts_fields required no_more = no_fields
  ts_fields required (property key value properties) =
      ts_field key (has required key) (ts_type value) (ts_fields required properties)

-- The types that `pythonType` prints.
pub data PyType : Type 0 where
  py_int py_bool py_str py_float py_dict : PyType
  py_list : PyType → PyType

abbrev py_by_kind : TypeKeyword → PyType → PyType
py_by_kind a_string items = py_str
py_by_kind an_integer items = py_int
py_by_kind a_number items = py_float
py_by_kind a_boolean items = py_bool
py_by_kind an_array items = py_list items
py_by_kind an_object items = py_dict
py_by_kind unstated items = py_dict
py_by_kind (another name) items = py_dict

abbrev py_or_ref : Option Text → PyType → PyType
py_or_ref none rest = rest
py_or_ref (some []) rest = rest
py_or_ref (some (c ∷ ref)) rest = py_dict

abbrev py_or_enum : Option (List Value) → PyType → PyType
py_or_enum none rest = rest
py_or_enum (some values) rest = py_str

abbrev py_or_const : Option Value → PyType → PyType
py_or_const none rest = rest
py_or_const (some (num n)) rest = py_int
py_or_const (some (bool b)) rest = py_bool
py_or_const (some value) rest = py_str

unfoldable mutual
  pub python_type : Schema → PyType
  python_type (schema constant values ref kind items properties required) =
      py_or_const constant
        (py_or_enum values (py_or_ref ref (py_by_kind kind (python_items items))))

  pub python_items : ItemSchema → PyType
  python_items any_item = py_dict
  python_items (each_item items) = python_type items
