-- ===== src/Release/Checkout.antt =====
-- packages/release/src/source-checkout.mjs: whether the release's inputs are tracked files of a clean checkout.
-- `run_git` is what git prints for its arguments, none where it fails.
use mgds.Prelude.{
  err, Bool, Dict, List, Option, Result, Text, [], any, ap, behind_class, drop, drop_while,
  eq_of_beq, eqb, every, false, get, has, if◌then◌else◌, is_digit, is_hex, leb, length, lit, ltb,
  nat_eq, need, need-ok, none, not, ok, ok-inj, put, refl, some, split_on, strip, sym, take,
  text_eq, true, ℕ, ◌&&◌, ◌==◌, ◌>=◌, ◌||◌, ◌∙◌, ◌∷◌, ◌≡◌,
}
use mgds.Campaign.Aggregate.{distinct}
use mgds.Evidence.Load.{valid_repository_path}
use mgds.Release.{is_source_digest}
use mgds.Release.Input.{SourceState}

pub data CheckoutError : Type 0 where
  inputs_required git_failed head_mismatch not_clean not_tracked : CheckoutError
  path_required : Text → CheckoutError

abbrev is_blank_unit : ℕ → Bool
is_blank_unit c =
    (leb 9 c && leb c 13)
    || (leb 8192 c && leb c 8202)
    || has (32 ∷ 160 ∷ 5760 ∷ 8232 ∷ 8233 ∷ 8239 ∷ 8287 ∷ 12288 ∷ 65279 ∷ []) c

abbrev trim_end : Text → Text
trim_end [] = []
trim_end (c ∷ t) = close c (trim_end t)
  where
    close : ℕ → Text → Text
    close c [] = if is_blank_unit c then [] else c ∷ []
    close c (d ∷ rest) = c ∷ d ∷ rest

-- String.prototype.trim
abbrev pub trim : Text → Text
trim t = trim_end (drop_while is_blank_unit t)

-- a path: what `.` takes, at least once
abbrev is_line_rest : Text → Bool
is_line_rest t = ltb 0 (length t) && not (any (λ c. has (10 ∷ 13 ∷ 8232 ∷ 8233 ∷ []) c) t)

abbrev mode_and_path : Text → Option Text → Text × Text
mode_and_path mode none = ([], [])
mode_and_path mode (some path) = if is_line_rest path then (path, mode) else ([], [])

-- /^(\d{6}) [a-f0-9]+ \d+\t(.+)$/ on a line, as the path and its mode
unfoldable pub parse_line : Text → Text × Text
parse_line line =
    let mode = take 6 line in
    let rest =
      strip (lit " ") (drop 6 line)
      >= behind_class is_hex
      >= strip (lit " ")
      >= behind_class is_digit
      >= strip (lit "\t") in
    if eqb (length mode) 6 && every is_digit mode then mode_and_path mode rest else ([], [])

-- the `Map` of the lines that are not empty
unfoldable pub modes_of : Dict Text Text → List Text → Dict Text Text
unfolding parse_line put
modes_of modes [] = modes
modes_of modes ([] ∷ lines) = modes_of modes lines
modes_of modes ((c ∷ line) ∷ lines) =
    let (path, mode) = parse_line (c ∷ line) in modes_of (put modes path mode) lines

abbrev pub is_regular : Dict Text Text → Text → Bool
is_regular modes path = elim (get modes path) [ none ↦ false | some mode ↦ mode == lit "100644" ]

abbrev pub all_regular : List Text → Text → Bool
all_regular paths staged = every (is_regular (modes_of [] (split_on b'\n' (trim staged)))) paths

abbrev pub every_path : {A : Type 0} → List Text → Result CheckoutError A → Result CheckoutError A
every_path [] r = r
every_path (path ∷ paths) r =
    need (valid_repository_path path) (path_required path) (every_path paths r)

module _ (run_git : List Text → Option Text) (expected_source_digest : Text) where
  abbrev pub list_files : List Text → List Text
  list_files paths = lit "ls-files" ∷ lit "--stage" ∷ lit "--error-unmatch" ∷ lit "--" ∷ paths

  abbrev pub check_staged : Text → List Text → Option Text → Result CheckoutError SourceState
  check_staged head paths none = err not_tracked
  check_staged head paths (some staged) =
      need (all_regular paths staged) not_tracked
        (ok (record { head_digest = head; clean = true; tracked_inputs_verified = true }))

  abbrev pub check_status : Text → List Text → Option Text → Result CheckoutError SourceState
  check_status head paths none = err git_failed
  check_status head paths (some status) =
      need (eqb (length (trim status)) 0) not_clean
        (check_staged head paths (run_git (list_files paths)))

  abbrev pub check_head : List Text → Option Text → Result CheckoutError SourceState
  check_head paths none = err git_failed
  check_head paths (some head) = need (trim head == expected_source_digest) head_mismatch (
      check_status (trim head) paths
        (run_git (lit "status" ∷ lit "--porcelain=v1" ∷ lit "--untracked-files=all" ∷ [])))

  unfoldable pub verify_release_checkout : List Text → Result CheckoutError SourceState
  unfolding is_source_digest valid_repository_path distinct modes_of
  verify_release_checkout paths =
      need (is_source_digest expected_source_digest && ltb 0 (length paths)) inputs_required (
        every_path paths
          (check_head (distinct [] paths) (run_git (lit "rev-parse" ∷ lit "HEAD" ∷ []))))

  check_staged-regular :
      (head : Text) (paths : List Text) (o : Option Text) (state : SourceState)
      → check_staged head paths o ≡ ok state
      → (staged : Text) × (o ≡ some staged)
        × (all_regular paths staged ≡ true)
        × (state.head_digest ≡ head)
  check_staged-regular head paths none state h = cc
  check_staged-regular head paths (some staged) state h =
      let (regular, e) = need-ok (all_regular paths staged) not_tracked _ state h in
      (staged, refl, regular, sym (ap (λ (s : SourceState). s.head_digest) (ok-inj e)))

  check_status-regular :
      (head : Text) (paths : List Text) (o : Option Text) (state : SourceState)
      → check_status head paths o ≡ ok state
      → (status staged : Text) × (o ≡ some status)
        × (eqb (length (trim status)) 0 ≡ true)
        × (run_git (list_files paths) ≡ some staged)
        × (all_regular paths staged ≡ true)
        × (state.head_digest ≡ head)
  check_status-regular head paths none state h = cc
  check_status-regular head paths (some status) state h =
      let (clean, h1) = need-ok (eqb (length (trim status)) 0) not_clean _ state h in
      let (staged, listed, regular, same) =
        check_staged-regular head paths (run_git (list_files paths)) state h1 in
      (status, staged, refl, clean, listed, regular, same)

  -- A checkout is taken for the source only if git prints nothing but blanks as its status, lists every
  -- input with the mode 100644, and its head is the expected digest.
  pub checkout_is_source :
      (paths : List Text) (o : Option Text) (state : SourceState)
      → check_head paths o ≡ ok state
      → (status staged : Text) × (run_git
            (lit "status" ∷ lit "--porcelain=v1" ∷ lit "--untracked-files=all" ∷ [])
          ≡ some status)
        × (eqb (length (trim status)) 0 ≡ true)
        × (run_git (list_files paths) ≡ some staged)
        × (all_regular paths staged ≡ true)
        × (state.head_digest ≡ expected_source_digest)
  checkout_is_source paths none state h = cc
  checkout_is_source paths (some head) state h =
      let (matched, h1) = need-ok (trim head == expected_source_digest) head_mismatch _ state h in
      let (status, staged, printed, clean, listed, regular, same) =
        check_status-regular (trim head) paths
          (run_git (lit "status" ∷ lit "--porcelain=v1" ∷ lit "--untracked-files=all" ∷ [])) state
          h1 in
      (
        status,
        staged,
        printed,
        clean,
        listed,
        regular,
        same ∙ eq_of_beq (trim head) expected_source_digest matched,
      )
