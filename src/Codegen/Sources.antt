-- ===== src/Codegen/Sources.antt =====
-- tools/codegen/generate.mjs: `tsSource`, `pythonSource` and `csharpSource`, the generated files.
use mgds.Prelude.{
  Bool, List, Text, [], false, flat_map, has, if◌then◌else◌, lit, map, nat_eq, none, some, strip,
  text_eq, true, ◌++◌, ◌==◌, ◌||◌, ◌∷◌,
}
use mgds.Json.{quote}
use mgds.Codegen.{
  Schema, schema, unlisted, listed, Properties, no_more, property, TsFields, ts_fields, python_type,
}
use mgds.Codegen.Names.{append?, type_name}
use mgds.Codegen.Print.{Text?, then_text, join?, print_ts_fields, print_py, csharp_type}

pub record Named : Type 0 where
  pub name : Text
  pub schema : Schema

-- `schema.properties ?? {}` and `schema.required ?? []`
abbrev properties_of : Schema → Properties
properties_of (schema constant values ref kind items unlisted required) = no_more
properties_of (schema constant values ref kind items (listed properties) required) = properties

abbrev required_of : Schema → List Text
required_of (schema constant values ref kind items properties required) = required

-- `prefix${…}suffix`
abbrev around : Text → Text? → Text → Text?
around prefix t suffix = then_text (append? (some prefix) t) suffix

-- the members of an interface
unfoldable pub interface_fields : Schema → TsFields
interface_fields s = ts_fields (required_of s) (properties_of s)

abbrev ts_line : Text? → Text?
ts_line member = around (lit "  ") member (lit ";")

unfoldable pub ts_interface : Named → List Text?
unfolding interface_fields print_ts_fields type_name
ts_interface named =
    some []
    ∷ around (lit "export interface ") (type_name named.name) (lit " {")
    ∷ (map ts_line (print_ts_fields (interface_fields named.schema)) ++ some (lit "}") ∷ [])

unfoldable pub ts_source : List Named → Text?
unfolding ts_interface flat_map
ts_source schemas =
    then_text
      (join? (lit "\n") (
        some (lit "// Generated from schemas/v0 by tools/codegen/generate.mjs. Do not edit.")
        ∷ flat_map ts_interface schemas))
      (lit "\n")

-- `NotRequired[…]` round the type of a property that may be missing
abbrev py_field_type : Bool → Text → Text
py_field_type true type = type
py_field_type false type = lit "NotRequired[" ++ (type ++ lit "]")

unfoldable pub py_fields : List Text → Properties → List Text?
unfolding quote print_py python_type
py_fields required no_more = []
py_fields required (property key value properties) =
    some (
      lit "    "
      ++ (quote key
          ++ (lit ": "
              ++ (py_field_type (has required key) (print_py (python_type value)) ++ lit ","))))
    ∷ py_fields required properties

unfoldable pub py_class : Named → List Text?
unfolding py_fields type_name
py_class named =
    some []
    ∷ then_text (type_name named.name) (lit " = TypedDict(")
    ∷ around (lit "    \"") (type_name named.name) (lit "\",")
    ∷ some (lit "    {")
    ∷ (py_fields (required_of named.schema) (properties_of named.schema)
        ++ some (lit "    },") ∷ some (lit ")") ∷ [])

unfoldable pub python_source : List Named → Text?
unfolding py_class flat_map
python_source schemas =
    then_text
      (join? (lit "\n") (
        some (lit "# Generated from schemas/v0 by tools/codegen/generate.mjs. Do not edit.")
        ∷ some (lit "from typing import NotRequired, TypedDict")
        ∷ flat_map py_class schemas))
      (lit "\n")

abbrev pub keywords : List Text
keywords =
    lit "abstract"
    ∷ lit "as"
    ∷ lit "base"
    ∷ lit "bool"
    ∷ lit "break"
    ∷ lit "byte"
    ∷ lit "case"
    ∷ lit "catch"
    ∷ lit "char"
    ∷ lit "checked"
    ∷ lit "class"
    ∷ lit "const"
    ∷ lit "continue"
    ∷ lit "decimal"
    ∷ lit "default"
    ∷ lit "delegate"
    ∷ lit "do"
    ∷ lit "double"
    ∷ lit "else"
    ∷ lit "enum"
    ∷ lit "event"
    ∷ lit "explicit"
    ∷ lit "extern"
    ∷ lit "false"
    ∷ lit "finally"
    ∷ lit "fixed"
    ∷ lit "float"
    ∷ lit "for"
    ∷ lit "foreach"
    ∷ lit "from"
    ∷ lit "goto"
    ∷ lit "if"
    ∷ lit "implicit"
    ∷ lit "in"
    ∷ lit "int"
    ∷ lit "interface"
    ∷ lit "internal"
    ∷ lit "is"
    ∷ lit "lock"
    ∷ lit "long"
    ∷ lit "namespace"
    ∷ lit "new"
    ∷ lit "null"
    ∷ lit "object"
    ∷ lit "operator"
    ∷ lit "out"
    ∷ lit "override"
    ∷ lit "params"
    ∷ lit "private"
    ∷ lit "protected"
    ∷ lit "public"
    ∷ lit "readonly"
    ∷ lit "record"
    ∷ lit "ref"
    ∷ lit "return"
    ∷ lit "sbyte"
    ∷ lit "sealed"
    ∷ lit "short"
    ∷ lit "sizeof"
    ∷ lit "stackalloc"
    ∷ lit "static"
    ∷ lit "string"
    ∷ lit "struct"
    ∷ lit "switch"
    ∷ lit "this"
    ∷ lit "throw"
    ∷ lit "true"
    ∷ lit "try"
    ∷ lit "typeof"
    ∷ lit "uint"
    ∷ lit "ulong"
    ∷ lit "unchecked"
    ∷ lit "unsafe"
    ∷ lit "ushort"
    ∷ lit "using"
    ∷ lit "var"
    ∷ lit "virtual"
    ∷ lit "void"
    ∷ lit "volatile"
    ∷ lit "while"
    ∷ []

-- `keywords.has(key) ? `@${key}` : key`
abbrev pub identifier : Text → Text
identifier key = if has keywords key then b'@' ∷ key else key

abbrev starts_with : Text → Text → Bool
starts_with prefix t = elim (strip prefix t) [ none ↦ false | some rest ↦ true ]

abbrev initial : Text → Text
initial type =
    if type == lit "string"
    then lit " = string.Empty;"
    else if starts_with (lit "List<") type || starts_with (lit "Dictionary<") type
    then lit " = new();"
    else lit ";"

abbrev cs_field : Text → Text? → Text?
cs_field key none = none
cs_field key (some type) =
    some (lit "        public " ++ (type ++ (b' ' ∷ (identifier key ++ initial type))))

unfoldable pub cs_fields : Properties → List Text?
unfolding csharp_type
cs_fields no_more = []
cs_fields (property key value properties) = cs_field key (csharp_type value) ∷ cs_fields properties

unfoldable pub cs_class : Named → List Text?
unfolding cs_fields type_name
cs_class named =
    some (lit "    [Serializable]")
    ∷ append? (some (lit "    public sealed class ")) (type_name named.name)
    ∷ some (lit "    {")
    ∷ (cs_fields (properties_of named.schema) ++ some (lit "    }") ∷ some [] ∷ [])

unfoldable pub csharp_source : List Named → Text?
unfolding cs_class flat_map
csharp_source schemas = join? (lit "\n") (
    some (lit "// Generated from schemas/v0 by tools/codegen/generate.mjs. Do not edit.")
    ∷ some (lit "using System;")
    ∷ some (lit "using System.Collections.Generic;")
    ∷ some []
    ∷ some (lit "namespace Mgds.Protocol.Generated")
    ∷ some (lit "{")
    ∷ (flat_map cs_class schemas ++ some (lit "}") ∷ some [] ∷ []))
