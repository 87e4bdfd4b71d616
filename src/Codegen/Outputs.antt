-- ===== src/Codegen/Outputs.antt =====
-- tools/codegen/generate.mjs: the generated files, written or compared with what is on disk. The
-- disk is a map from the paths of the repository to texts.
use mgds.Prelude.{
  Dict, List, Option, Text, [], get, if◌then◌else◌, lit, nat_eq, none, put, some, text_eq, ◌++◌,
  ◌==◌, ◌∷◌,
}
use mgds.Json.{Value}
use mgds.Codegen.Print.{Text?, pretty}
use mgds.Codegen.Sources.{Named, ts_source, python_source, csharp_source}

-- a schema of the campaign, which is copied
pub record Copied : Type 0 where
  pub name : Text
  pub content : Value

abbrev pub copied_path : Text → Text
copied_path name = lit "packages/campaign/schemas/" ++ (name ++ lit ".schema.json")

-- `outputs.set(…)` for each of them
unfoldable pub set_copies : Dict Text Text → List Copied → Dict Text Text
unfolding pretty put
set_copies targets [] = targets
set_copies targets (copied ∷ rest) =
    set_copies (put targets (copied_path copied.name) (pretty 0 copied.content ++ lit "\n")) rest

abbrev pub sources : Text → Text → Text → Dict Text Text
sources ts python csharp =
    (lit "packages/protocol-ts/src/generated.ts", ts)
    ∷ (lit "packages/protocol-py/mgds_protocol/generated.py", python)
    ∷ (lit "Packages/org.mgds.unity.core/Runtime/Generated/MgdsProtocol.g.cs", csharp)
    ∷ []

abbrev pub with_sources : Text? → Text? → Text? → List Copied → Option (Dict Text Text)
with_sources (some ts) (some python) (some csharp) rest =
    some (set_copies (sources ts python csharp) rest)
with_sources _ _ _ rest = none

-- `outputs`, whose keys are the targets
unfoldable pub outputs : List Named → List Copied → Option (Dict Text Text)
unfolding ts_source python_source csharp_source set_copies
outputs schemas campaign_schemas =
    with_sources (ts_source schemas) (python_source schemas) (csharp_source schemas)
      campaign_schemas

-- `readFile(target).catch(() => '')`
abbrev pub or_empty : Option Text → Text
or_empty none = []
or_empty (some content) = content

-- the run with `--check`: the targets that are stale
unfoldable pub stale_outputs : Dict Text Text → Dict Text Text → List Text
unfolding get
stale_outputs disk [] = []
stale_outputs disk ((target, content) ∷ rest) =
    if or_empty (get disk target) == content
    then stale_outputs disk rest
    else target ∷ stale_outputs disk rest

-- the run without it
unfoldable pub write_outputs : Dict Text Text → Dict Text Text → Dict Text Text
unfolding put
write_outputs disk [] = disk
write_outputs disk ((target, content) ∷ rest) = write_outputs (put disk target content) rest
