-- ===== src/Codegen/Fresh.antt =====
-- tools/codegen/generate.mjs: a run that writes, and then a run with `--check`.
use mgds.Prelude.{
  Dict, List, Text, [], ap, beq_cases, beq_of_ne, beq_refl, false, get, get-put_ne, get-put_self,
  inl, inr, lit, nat_eq, ne_of_beq, none, put, refl, some, some-inj, subst, sym, text_eq, ◌++◌,
  ◌==◌, ◌∙◌, ◌∷◌, ◌≡◌,
}
use mgds.Codegen.Print.{Text?, pretty}
use mgds.Codegen.Sources.{Named, ts_source, python_source, csharp_source}
use mgds.Codegen.Outputs.{
  Copied, copied_path, set_copies, sources, with_sources, outputs, or_empty, stale_outputs,
  write_outputs,
}

beq_false_sym : (s t : Text) → (s == t) ≡ false → (t == s) ≡ false
beq_false_sym s t h = beq_of_ne t s (λ e. ne_of_beq s t h (sym e))

-- no key stands twice
abbrev Distinct : Dict Text Text → Type 0
Distinct [] = Unit
Distinct ((key, content) ∷ d) = (get d key ≡ none) × Distinct d

put-Distinct : (d : Dict Text Text) (key content : Text) → Distinct d → Distinct (put d key content)
unfolding put get
put-Distinct [] key content h = (refl, tt)
put-Distinct ((k, c) ∷ d) key content h = elim (beq_cases k key) [
  | inl same ↦ rw (same, beq_refl key) (rw same at h.0, h.1)
  | inr other ↦
      rw other (
        get-put_ne d key k content (beq_false_sym k key other) ∙ h.0,
        put-Distinct d key content h.1,
      )
]

set_copies-Distinct :
    (targets : Dict Text Text) (copied : List Copied)
    → Distinct targets
    → Distinct (set_copies targets copied)
unfolding set_copies
set_copies-Distinct targets [] h = h
set_copies-Distinct targets (c ∷ copied) h =
    let path = copied_path c.name in
    let content = pretty 0 c.content ++ lit "\n" in
    set_copies-Distinct (put targets path content) copied (put-Distinct targets path content h)

sources-Distinct : (ts python csharp : Text) → Distinct (sources ts python csharp)
unfolding get
sources-Distinct ts python csharp = (refl, (refl, (refl, tt)))

with_sources-Distinct :
    (ts python csharp : Text?) (copied : List Copied) (targets : Dict Text Text)
    → with_sources ts python csharp copied ≡ some targets
    → Distinct targets
with_sources-Distinct (some ts) (some python) (some csharp) copied targets h =
    subst Distinct (some-inj h)
      (set_copies-Distinct (sources ts python csharp) copied (sources-Distinct ts python csharp))
with_sources-Distinct _ _ _ copied targets h = cc

write_outputs-get :
    (targets disk : Dict Text Text) (path : Text)
    → get targets path ≡ none
    → get (write_outputs disk targets) path ≡ get disk path
unfolding write_outputs get
write_outputs-get [] disk path h = refl
write_outputs-get ((target, content) ∷ targets) disk path h = elim (beq_cases target path) [
  | inl same ↦ cc (same, beq_refl path, h)
  | inr other ↦
      write_outputs-get targets (put disk target content) path (rw other at h)
      ∙ get-put_ne disk target path content other
]

stale_outputs-read :
    (targets disk : Dict Text Text) (target content : Text)
    → get disk target ≡ some content
    → stale_outputs disk ((target, content) ∷ targets) ≡ stale_outputs disk targets
unfolding stale_outputs
stale_outputs-read targets disk target content h = simp (ap or_empty h, beq_refl content) refl

stale_outputs-write_outputs :
    (targets disk : Dict Text Text)
    → Distinct targets
    → stale_outputs (write_outputs disk targets) targets ≡ []
unfolding write_outputs stale_outputs
stale_outputs-write_outputs [] disk h = refl
stale_outputs-write_outputs ((target, content) ∷ targets) disk h =
    let written : get (write_outputs (put disk target content) targets) target ≡ some content =
      write_outputs-get targets (put disk target content) target h.0
      ∙ get-put_self disk target content in
    let after = put disk target content in
    stale_outputs-read targets (write_outputs after targets) target content written
    ∙ stale_outputs-write_outputs targets after h.1

-- Where the generator gives its outputs, a run that writes them to any disk leaves a disk on which a
-- run with `--check` finds none of them stale, and leaves every file that is not an output as it was.
pub stale_outputs-outputs :
    (schemas : List Named) (campaign_schemas : List Copied) (targets disk : Dict Text Text)
    (path : Text)
    → outputs schemas campaign_schemas ≡ some targets
    → get targets path ≡ none
    → (stale_outputs (write_outputs disk targets) targets ≡ [])
      × (get (write_outputs disk targets) path ≡ get disk path)
unfolding outputs
stale_outputs-outputs schemas campaign_schemas targets disk path h new = (
  stale_outputs-write_outputs targets disk (
      with_sources-Distinct (ts_source schemas) (python_source schemas) (csharp_source schemas)
        campaign_schemas targets h),
  write_outputs-get targets disk path new,
)
