-- ===== src/Tests/Codegen.antt =====
-- Runs of tools/codegen/generate.mjs on a small schema.
use mgds.Prelude.{
  Dict, List, Memᴰ, Text, [], get, lit, nat_eq, none, pos, refl, some, text_eq, ◌∷◌, ◌≡◌,
}
use mgds.Json.{Value, num, str, arr, obj, nil, cons, end, field}
use mgds.Codegen.{
  Schema, schema, unstated, a_string, an_integer, an_array, an_object, any_item, each_item,
  unlisted, listed, no_more, property, ts_type, ts_fields, python_type,
}
use mgds.Codegen.Print.{print_ts, print_py, csharp_type, pretty}
use mgds.Codegen.Sources.{Named, ts_source, python_source, csharp_source, interface_fields}
use mgds.Codegen.Outputs.{outputs, stale_outputs, write_outputs}
use mgds.Codegen.Typed.{Conforms, HasType, HasFields, OnObject, is_supported}
use mgds.Codegen.Fresh.{stale_outputs-outputs}
use mgds.Codegen.Sound.{conforming-HasType}

abbrev plain_text : Schema
plain_text = schema none none none a_string any_item unlisted []

abbrev lease : Schema
lease =
    schema none none none an_object any_item
      (listed (
        property (lit "id") plain_text (
          property (lit "state")
            (schema none (some (str (lit "open") ∷ str (lit "done") ∷ [])) none a_string any_item
              unlisted [])
            (property (lit "lock")
              (schema none none none an_array
                (each_item (schema none none none an_integer any_item unlisted [])) unlisted [])
              (property (lit "task")
                (schema none none (some (lit "./task.schema.json")) unstated any_item unlisted [])
                no_more)))))
      (lit "id" ∷ lit "state" ∷ [])

abbrev leases : List Named
leases = record { name = lit "job-lease"; schema = lease } ∷ []

lease_types :
    (print_ts (ts_type lease)
      ≡ some
          (lit "{ id: string; state: \"open\" | \"done\"; lock?: Array<number>; task?: MgdsTask }"))
    × (print_py (python_type lease) ≡ lit "dict[str, object]")
    × (csharp_type lease ≡ some (lit "Dictionary<string, object>"))
unfolding ts_type print_ts print_py python_type csharp_type
lease_types = (refl, refl, refl)

lease_ts_source :
    ts_source leases
    ≡ some (
        lit
          "// Generated from schemas/v0 by tools/codegen/generate.mjs. Do not edit.\n\nexport interface MgdsJobLease {\n  id: string;\n  state: \"open\" | \"done\";\n  lock?: Array<number>;\n  task?: MgdsTask;\n}\n")
unfolding ts_source ts_fields
lease_ts_source = refl

lease_python_source :
    python_source leases
    ≡ some (
        lit
          "# Generated from schemas/v0 by tools/codegen/generate.mjs. Do not edit.\nfrom typing import NotRequired, TypedDict\n\nMgdsJobLease = TypedDict(\n    \"MgdsJobLease\",\n    {\n    \"id\": str,\n    \"state\": str,\n    \"lock\": NotRequired[list[int]],\n    \"task\": NotRequired[dict[str, object]],\n    },\n)\n")
unfolding python_source
lease_python_source = refl

lease_csharp_source :
    csharp_source leases
    ≡ some (
        lit
          "// Generated from schemas/v0 by tools/codegen/generate.mjs. Do not edit.\nusing System;\nusing System.Collections.Generic;\n\nnamespace Mgds.Protocol.Generated\n{\n    [Serializable]\n    public sealed class MgdsJobLease\n    {\n        public string id = string.Empty;\n        public string state = string.Empty;\n        public List<long> @lock = new();\n        public MgdsTask task;\n    }\n\n}\n")
unfolding csharp_source
lease_csharp_source = refl

abbrev held : Value
held = obj (
    field (lit "id") (str (lit "a")) (
      field (lit "state") (str (lit "done"))
        (field (lit "lock") (arr (cons (num (pos 3)) nil)) end)))

held_printed :
    pretty 0 held ≡ lit "{\n  \"id\": \"a\",\n  \"state\": \"done\",\n  \"lock\": [\n    3\n  ]\n}"
unfolding pretty
held_printed = refl

abbrev NoRef : Text → Value → Type 0
NoRef ref v = ⊥

abbrev some_targets : Dict Text Text
unfolding outputs
some_targets = elim (outputs leases (record { name = lit "run"; content = held } ∷ [])) [
  | none ↦ []
  | some targets ↦ targets
]

held-Conforms : Conforms NoRef lease held
unfolding Conforms
held-Conforms = (
  tt,
  tt,
  tt,
  refl,
  tt,
  (
    (tt, tt, tt, refl, tt, tt, tt),
    (
      (tt, Memᴰ.tail (Memᴰ.head refl), tt, refl, tt, tt, tt),
      ((tt, tt, tt, refl, ((tt, tt, tt, refl, tt, tt, tt), tt), tt, tt), (tt, tt)),
    ),
  ),
  (tt, (tt, tt)),
)

conforming-HasType_example :
    HasType NoRef (ts_type lease) held × OnObject (HasFields NoRef (interface_fields lease)) held
unfolding is_supported
conforming-HasType_example = conforming-HasType NoRef lease held refl held-Conforms

stale_outputs-outputs_example :
    (stale_outputs (write_outputs [] some_targets) some_targets ≡ [])
    × (get (write_outputs [] some_targets) (lit "README.md") ≡ get [] (lit "README.md"))
unfolding outputs ts_fields get
stale_outputs-outputs_example =
    stale_outputs-outputs leases (record { name = lit "run"; content = held } ∷ []) some_targets []
      (lit "README.md") refl refl
