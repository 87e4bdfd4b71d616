-- ===== src/Evidence/Read.antt =====
-- packages/campaign/src/index.mjs, `readBoundedEvidenceFile`. What `lstat` and the handle's `stat` say are
-- arguments, and the handle's `read` is a function of the position and of the asked length.
pub mod Whole
use mgds.Prelude.{
  Bool, List, Option, Result, [], eqb, err, false, if◌then◌else◌, leb, length, ltb, none, not, ok,
  some, suc, true, zero, ℕ, ◌&&◌, ◌*◌, ◌++◌, ◌+◌, ◌-◌, ◌||◌, ◌∷◌,
}

pub data ReadError : Type 0 where
  limit_required regular_file_required identity_mismatch limit_exceeded : ReadError

pub record Stat : Type 0 where
  pub is_file : Bool
  pub is_symbolic_link : Bool
  pub size : ℕ
  pub ino : ℕ
  pub dev : ℕ

-- an inode of 0 is not compared
abbrev pub is_other_file : Stat → Stat → Bool
is_other_file before opened =
    ltb 0 before.ino
    && ltb 0 opened.ino
    && (not (eqb before.ino opened.ino) || not (eqb before.dev opened.dev))

abbrev min : ℕ → ℕ → ℕ
min a b = if ltb b a then b else a

module _ (max_bytes : ℕ) (read : ℕ → ℕ → List ℕ) where
  -- `Math.min(64 * 1024, maxBytes - total + 1)`
  abbrev pub asked : ℕ → ℕ
  asked total = min (64 * 1024) (max_bytes - total + 1)

  -- the rest of a round, which ends the loop, throws, or goes on
  abbrev pub take_chunk :
      (ℕ → List ℕ → Option (Result ReadError (List ℕ)))
      → ℕ
      → List ℕ
      → List ℕ
      → Option (Result ReadError (List ℕ))
  take_chunk go total chunks [] = some (ok chunks)
  take_chunk go total chunks (b ∷ chunk) =
      let read_on = go (total + length (b ∷ chunk)) (chunks ++ b ∷ chunk) in
      if ltb max_bytes (total + length (b ∷ chunk)) then some (err limit_exceeded) else read_on

  -- The loop, with its chunks joined; none where the fuel ends.
  unfoldable pub read_loop : ℕ → ℕ → List ℕ → Option (Result ReadError (List ℕ))
  read_loop zero total chunks = none
  read_loop (suc fuel) total chunks =
      take_chunk (read_loop fuel) total chunks (read total (asked total))

  abbrev pub unless_failed :
      Bool → ReadError → Option (Result ReadError (List ℕ)) → Option (Result ReadError (List ℕ))
  unless_failed true error rest = rest
  unless_failed false error rest = some (err error)

  -- Each round that goes on has read a byte, so `max_bytes + 1` rounds are enough.
  unfoldable pub read_bounded_evidence_file : Stat → Stat → Option (Result ReadError (List ℕ))
  unfolding read_loop
  read_bounded_evidence_file before opened = unless_failed (ltb 0 max_bytes) limit_required (
      unless_failed (before.is_file && not before.is_symbolic_link) regular_file_required (
        unless_failed
          (opened.is_file && leb opened.size max_bytes && not (is_other_file before opened))
          identity_mismatch (read_loop (suc max_bytes) 0 [])))
