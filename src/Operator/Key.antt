-- ===== src/Operator/Key.antt =====
-- packages/campaign-operator/src/index.mjs, `readExternalPrivateKey`. What `lstat`, the handle's `stat`, `realpath`,
-- `relative` and `createPrivateKey` give are arguments; `create_private_key` gives the key with its type, or
-- none where it throws.
use mgds.Prelude.{
  Bool, List, Option, Result, Result-cases, Text, [], ap, arith, beq_refl, eq_of_beq, eqb, err,
  false, if◌then◌else◌, inl, inr, join, leb, length, lit, ltb, nat_eq, need, need-ok, none, not, ok,
  ok-inj, refl, some, subst, text_eq, true, ℕ, ◌&&◌, ◌*◌, ◌++◌, ◌==◌, ◌||◌, ◌∙◌, ◌∷◌, ◌≡◌, ◌≤◌,
}
use Prim.Native.Nat.{◌%◌}
use mgds.Evidence.Read.{Stat, is_other_file}

pub data KeyError : Type 0 where
  regular_file_required owner_only_required inside_repository identity_changed : KeyError
  size_invalid not_a_key ed25519_required : KeyError

pub record PrivateKey : Type 0 where
  pub asymmetric_key_type : Text
  pub bytes : List ℕ

-- what the system says of the path
pub record Located : Type 0 where
  pub before : Stat
  pub mode : ℕ
  pub opened : Stat
  pub is_windows : Bool
  pub from_repository : Text
  pub is_absolute : Bool
  pub bytes : List ℕ

-- `path.startsWith("..")`
abbrev pub starts_with_dots : Text → Bool
starts_with_dots (c ∷ d ∷ t) = eqb c b'.' && eqb d b'.'
starts_with_dots _ = false

-- the test of `fromRepository`, where it does not throw
abbrev pub leads_outside : Located → Bool
leads_outside found =
    ltb 0 (length found.from_repository)
    && (starts_with_dots found.from_repository || found.is_absolute)

-- `(before.mode & 0o077) === 0`
abbrev pub is_owner_only : Located → Bool
is_owner_only found = found.is_windows || eqb (found.mode % 64) 0

abbrev pub is_same_file : Located → Bool
is_same_file found = found.opened.is_file && not (is_other_file found.before found.opened)

module _ (create_private_key : List ℕ → Option PrivateKey) where
  abbrev pub check_key : Option PrivateKey → Result KeyError PrivateKey
  check_key none = err not_a_key
  check_key (some key) = need (key.asymmetric_key_type == lit "ed25519") ed25519_required (ok key)

  unfoldable pub read_external_private_key : Located → Result KeyError PrivateKey
  read_external_private_key found =
      need (found.before.is_file && not found.before.is_symbolic_link) regular_file_required (
        need (is_owner_only found) owner_only_required (
          need (leads_outside found) inside_repository (
            need (is_same_file found) identity_changed (
              need (ltb 0 (length found.bytes) && leb (length found.bytes) (64 * 1024)) size_invalid
                (check_key (create_private_key found.bytes))))))

  check_key-ok :
      (o : Option PrivateKey) (key : PrivateKey)
      → check_key o ≡ ok key
      → (o ≡ some key) × (key.asymmetric_key_type ≡ lit "ed25519")
  check_key-ok none key h = cc
  check_key-ok (some made) key h =
      let (type, e) =
        need-ok (made.asymmetric_key_type == lit "ed25519") ed25519_required _ key h in
      let same = ok-inj e in
      (
        ap some same,
        subst (λ (k : PrivateKey). k.asymmetric_key_type ≡ lit "ed25519") same
            (eq_of_beq made.asymmetric_key_type (lit "ed25519") type),
      )

  -- A private key is read only from a regular file that no link stands for, that is the owner's alone
  -- (but on Windows), whose path from the repository leads outside of it as the test on its text says,
  -- that is the same when it is opened, and whose bytes, at most 64 KiB, make this Ed25519 key.
  pub read_external_private_key-External :
      (found : Located) (key : PrivateKey)
      → read_external_private_key found ≡ ok key
      → (found.before.is_file && not found.before.is_symbolic_link ≡ true)
        × (is_owner_only found ≡ true)
        × (leads_outside found ≡ true)
        × (is_same_file found ≡ true)
        × (length found.bytes ≤ 65536)
        × (create_private_key found.bytes ≡ some key)
        × (key.asymmetric_key_type ≡ lit "ed25519")
  unfolding read_external_private_key
  read_external_private_key-External found key h =
      let (regular, h1) = need-ok _ regular_file_required _ key h in
      let (owner, h2) = need-ok _ owner_only_required _ key h1 in
      let (outside, h3) = need-ok _ inside_repository _ key h2 in
      let (same, h4) = need-ok _ identity_changed _ key h3 in
      let (size, h5) =
        need-ok (ltb 0 (length found.bytes) && leb (length found.bytes) (64 * 1024)) size_invalid _
          key h4 in
      let (made, type) = check_key-ok (create_private_key found.bytes) key h5 in
      (regular, owner, outside, same, ground arith, made, type)

-- `relative` on the names of two resolved paths
abbrev pub ups : List Text → List Text → List Text
ups [] names = names
ups (name ∷ from) names = lit ".." ∷ ups from names

unfoldable pub relative : List Text → List Text → Text
relative [] to = join (lit "/") to
relative (name ∷ from) [] = join (lit "/") (ups (name ∷ from) [])
relative (name ∷ from) (other ∷ to) =
    let below = relative from to in
    if name == other then below else join (lit "/") (ups (name ∷ from) (other ∷ to))

relative-append : (from to : List Text) → relative from (from ++ to) ≡ join (lit "/") to
unfolding relative
relative-append [] to = refl
relative-append (name ∷ from) to = simp (beq_refl name) (relative-append from to)

slash : (t : Text) → starts_with_dots (b'/' ∷ t) ≡ false
slash [] = refl
slash (c ∷ t) = refl

no_way_out : (a b c : Bool) → (a && (b || c)) ≡ true → b ≡ false → c ≡ true
no_way_out a b c h e = ground arith

dots-join :
    (name : Text) (names : List Text)
    → starts_with_dots name ≡ false
    → starts_with_dots (join (lit "/") (name ∷ names)) ≡ false
dots-join name [] h = h
dots-join (c ∷ []) (next ∷ names) h = ground arith
dots-join (c ∷ d ∷ name) (next ∷ names) h = h
dots-join [] (next ∷ names) h = slash (join (lit "/") (next ∷ names))

-- A key whose resolved path is that of the repository with names behind it is refused, unless the first
-- of these names begins with two dots, if the relative path is not absolute.
pub inside_key_refused :
    (create_private_key : List ℕ → Option PrivateKey) (found : Located) (repository : List Text)
    (name : Text) (names : List Text)
    → found.from_repository ≡ relative repository (repository ++ name ∷ names)
    → found.is_absolute ≡ false
    → starts_with_dots name ≡ false
    → (x : KeyError) × (read_external_private_key create_private_key found ≡ err x)
unfolding read_external_private_key
inside_key_refused create_private_key found repository name names located rooted plain =
    elim (Result-cases (read_external_private_key create_private_key found)) [
      | inr refused ↦ refused
      | inl (key, e) ↦
          let (_, _, outside, _, _, _, _) =
            read_external_private_key-External create_private_key found key e in
          let dots : starts_with_dots found.from_repository ≡ false =
            rw (located ∙ relative-append repository (name ∷ names)) (dots-join name names plain) in
          cc (
            no_way_out (ltb 0 (length found.from_repository))
                (starts_with_dots found.from_repository) found.is_absolute outside dots,
            rooted,
          )
    ]
