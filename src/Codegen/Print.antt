-- ===== src/Codegen/Print.antt =====
-- tools/codegen/generate.mjs: the texts of the types, and `JSON.stringify`, compact and with
-- `null, 2`. A text is missing where `pascal` throws.
use mgds.Prelude.{
  Bool, List, Option, Text, [], false, join, lit, map, none, print_ℤ, some, suc, true, zero, ℕ,
  ◌++◌, ◌∷◌,
}
use mgds.Json.{Value, Items, Fields, null, bool, num, str, arr, obj, nil, cons, end, field, quote}
use mgds.Codegen.{
  TypeKeyword, an_integer, a_number, a_boolean, an_array, an_object, Schema, schema, ItemSchema,
  any_item, each_item, TsType, literal, literals, interface_of, string_type, number_type,
  boolean_type, unknown_record, array_of, object_of, TsFields, no_fields, ts_field, PyType, py_int,
  py_bool, py_str, py_float, py_dict, py_list,
}
use mgds.Codegen.Names.{append?, type_name, basename}

-- `JSON.stringify(value)`
unfoldable mutual
  unfolding print_ℤ quote

  pub stringify : Value → Text
  stringify null = lit "null"
  stringify (bool true) = lit "true"
  stringify (bool false) = lit "false"
  stringify (num n) = print_ℤ n
  stringify (str s) = quote s
  stringify (arr vs) = b'[' ∷ (join (lit ",") (stringify_items vs) ++ lit "]")
  stringify (obj ms) = b'{' ∷ (join (lit ",") (stringify_members ms) ++ lit "}")

  pub stringify_items : Items → List Text
  stringify_items nil = []
  stringify_items (cons v vs) = stringify v ∷ stringify_items vs

  pub stringify_members : Fields → List Text
  stringify_members end = []
  stringify_members (field k v ms) = (quote k ++ (b':' ∷ stringify v)) ∷ stringify_members ms

-- a line break and the indentation of a depth
abbrev break : ℕ → Text
break zero = 10 ∷ []
break (suc depth) = break depth ++ lit "  "

abbrev block : Text → Text → ℕ → List Text → Text
block open_mark close_mark depth [] = open_mark ++ close_mark
block open_mark close_mark depth (t ∷ ts) =
    open_mark
    ++ (break (suc depth)
        ++ (join (lit "," ++ break (suc depth)) (t ∷ ts) ++ (break depth ++ close_mark)))

-- `JSON.stringify(value, null, 2)`
unfoldable mutual
  unfolding print_ℤ quote

  pub pretty : ℕ → Value → Text
  pretty depth null = lit "null"
  pretty depth (bool true) = lit "true"
  pretty depth (bool false) = lit "false"
  pretty depth (num n) = print_ℤ n
  pretty depth (str s) = quote s
  pretty depth (arr vs) = block (lit "[") (lit "]") depth (pretty_items (suc depth) vs)
  pretty depth (obj ms) = block (lit "{") (lit "}") depth (pretty_members (suc depth) ms)

  pub pretty_items : ℕ → Items → List Text
  pretty_items depth nil = []
  pretty_items depth (cons v vs) = pretty depth v ∷ pretty_items depth vs

  pub pretty_members : ℕ → Fields → List Text
  pretty_members depth end = []
  pretty_members depth (field k v ms) =
      (quote k ++ (lit ": " ++ pretty depth v)) ∷ pretty_members depth ms

abbrev pub Text? : Type 0
Text? = Option Text

abbrev pub then_text : Text? → Text → Text?
then_text t s = append? t (some s)

abbrev pub optional_mark : Bool → Text
optional_mark true = []
optional_mark false = lit "?"

-- `${key}${required ? '' : '?'}: ${type}`
abbrev pub ts_member : Text → Bool → Text? → Text?
ts_member key required type = append? (some (key ++ (optional_mark required ++ lit ": "))) type

abbrev pub join? : Text → List Text? → Text?
join? sep [] = some []
join? sep (t ∷ []) = t
join? sep (t ∷ u ∷ ts) = append? (then_text t sep) (join? sep (u ∷ ts))

unfoldable mutual
  unfolding stringify type_name basename

  pub print_ts : TsType → Text?
  print_ts (literal value) = some (stringify value)
  print_ts (literals values) = some (join (lit " | ") (map stringify values))
  print_ts (interface_of ref) = type_name (basename ref)
  print_ts string_type = some (lit "string")
  print_ts number_type = some (lit "number")
  print_ts boolean_type = some (lit "boolean")
  print_ts unknown_record = some (lit "Record<string, unknown>")
  print_ts (array_of type) = then_text (append? (some (lit "Array<")) (print_ts type)) (lit ">")
  print_ts (object_of fields) =
      then_text (append? (some (lit "{ ")) (join? (lit "; ") (print_ts_fields fields))) (lit " }")

  pub print_ts_fields : TsFields → List Text?
  print_ts_fields no_fields = []
  print_ts_fields (ts_field key required type fields) =
      ts_member key required (print_ts type) ∷ print_ts_fields fields

unfoldable pub print_py : PyType → Text
print_py py_int = lit "int"
print_py py_bool = lit "bool"
print_py py_str = lit "str"
print_py py_float = lit "float"
print_py py_dict = lit "dict[str, object]"
print_py (py_list type) = lit "list[" ++ (print_py type ++ lit "]")

-- `csharpType`
abbrev cs_by_kind : TypeKeyword → Text? → Text?
cs_by_kind an_integer items = some (lit "long")
cs_by_kind a_number items = some (lit "double")
cs_by_kind a_boolean items = some (lit "bool")
cs_by_kind an_array items = then_text (append? (some (lit "List<")) items) (lit ">")
cs_by_kind an_object items = some (lit "Dictionary<string, object>")
cs_by_kind _ items = some (lit "string")

abbrev cs_or_ref : Option Text → Text? → Text?
cs_or_ref (some (c ∷ ref)) rest = type_name (basename (c ∷ ref))
cs_or_ref _ rest = rest

abbrev cs_or_const : Option Value → Text? → Text?
cs_or_const none rest = rest
cs_or_const (some (num n)) rest = some (lit "long")
cs_or_const (some (bool b)) rest = some (lit "bool")
cs_or_const (some value) rest = some (lit "string")

unfoldable mutual
  unfolding type_name basename

  pub csharp_type : Schema → Text?
  csharp_type (schema constant values ref kind items properties required) =
      cs_or_const constant (cs_or_ref ref (cs_by_kind kind (csharp_items items)))

  -- `csharpType(schema.items)`, whose default is the empty schema
  pub csharp_items : ItemSchema → Text?
  csharp_items any_item = some (lit "string")
  csharp_items (each_item items) = csharp_type items
