-- ===== src/Release/Options.antt =====
-- scripts/check-p2-release.mjs: its options, its errors, and steps that may throw one after the other.
use mgds.Prelude.{
  Bool, Dict, List, Option, Result, Text, [], drop, err, false, get, length, lit, ltb, nat_eq, need,
  none, ok, put, some, strip, text_eq, true, ◌∷◌,
}
use mgds.Campaign.Plan.{PlanError}
use mgds.Campaign.Sealing.{SealError}
use mgds.Evidence.Load.{LoadError}
use mgds.Release.Hosts.{HostError}

pub data ScriptError : Type 0 where
  invalid_argument option_required unreadable : Text → ScriptError
  sealing : SealError → ScriptError
  planning : PlanError → ScriptError
  loading : LoadError → ScriptError
  hosting : HostError → ScriptError

infixl 10 ◌>>=◌
unfoldable pub ◌>>=◌ :
    {A B : Type 0} → Result ScriptError A → (A → Result ScriptError B) → Result ScriptError B
ok a >>= f = f a
err x >>= f = err x

-- what a package throws, thrown on
unfoldable pub throw_as : {E A : Type 0} → (E → ScriptError) → Result E A → Result ScriptError A
throw_as wrap (ok a) = ok a
throw_as wrap (err x) = err (wrap x)

-- what is read, where it can be read
unfoldable pub found : {A : Type 0} → Text → Option A → Result ScriptError A
found name none = err (unreadable name)
found name (some a) = ok a

abbrev is_name : Option Text → Bool
is_name none = false
is_name (some name) = true

-- `parseOptions`: names and values in turn, a later one in the place of an earlier
unfoldable pub parse_pairs : Dict Text Text → List Text → Result ScriptError (Dict Text Text)
unfolding put
parse_pairs options [] = ok options
parse_pairs options (name ∷ []) = err (invalid_argument name)
parse_pairs options (name ∷ value ∷ args) =
    need (is_name (strip (lit "--") name)) (invalid_argument name)
      (parse_pairs (put options (drop 2 name) value) args)

abbrev pub or_else_this : {A : Type 0} → A → Option A → A
or_else_this a none = a
or_else_this a (some b) = b

-- `options[name]`, where there is none the empty text
abbrev pub option : Dict Text Text → Text → Text
option options name = or_else_this [] (get options name)

abbrev pub required_options : List Text
required_options =
    lit "candidate"
    ∷ lit "config"
    ∷ lit "runs"
    ∷ lit "evidence"
    ∷ lit "hosts"
    ∷ lit "review"
    ∷ lit "review-report"
    ∷ lit "signing"
    ∷ lit "evaluators"
    ∷ lit "reviewers"
    ∷ lit "release-authorities"
    ∷ lit "output"
    ∷ []

unfoldable pub check_options : Dict Text Text → List Text → Result ScriptError (Dict Text Text)
unfolding get
check_options options [] = ok options
check_options options (name ∷ names) =
    need (ltb 0 (length (option options name))) (option_required name) (check_options options names)

unfoldable pub parse_options : List Text → Result ScriptError (Dict Text Text)
unfolding parse_pairs check_options ◌>>=◌
parse_options args = do options ← parse_pairs [] args; check_options options required_options
