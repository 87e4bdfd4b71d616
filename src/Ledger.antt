-- ===== src/Ledger.antt =====
-- The event ledger of packages/artifacts/src/event-ledger.mjs: a file of entries, each of which
-- carries the hash of the one before it. The file is the list of its parsed lines.
-- A line is taken to have each member of an entry, null included: an entry that lacks one, which the
-- source reads as undefined, is not modelled.
-- `sha256` stands for the hexadecimal digest of node:crypto, which is not part of the repository.
pub mod Chain
pub mod Tamper
use mgds.Prelude.{
  Bool, Exec, List, Option, Result, Text, [], err, if◌then◌else◌, last?, length, lift, lit, load,
  none, ok, pos, pure, save, some, zeros, ℕ, ◌&&◌, ◌++◌, ◌+◌, ◌>>=◌, ◌>>◌, ◌∷◌,
}
use mgds.Json.{Value, null, num, str, obj, field, end, canonical, strict_eq}

pub record Entry : Type 0 where
  pub sequence : Value
  pub previous_hash : Value
  pub event : Value
  pub hash : Value

-- `{ sequence, previousHash, event }`, the part of an entry that is hashed
abbrev pub body : Value → Value → Value → Value
body sequence previous_hash event = obj (
    field (lit "sequence") sequence
      (field (lit "previousHash") previous_hash (field (lit "event") event end)))

abbrev pub genesis : Value
genesis = str (zeros 64)

abbrev pub or_genesis : Value → Value
or_genesis null = genesis
or_genesis hash = hash

abbrev pub hash_of : Option Entry → Value
hash_of none = genesis
hash_of (some entry) = or_genesis entry.hash

-- `entries.at(-1)?.hash ?? '0'.repeat(64)`
pub head_hash : List Entry → Value
head_hash entries = hash_of (last? entries)

module _ (sha256 : Text → Text) where
  abbrev pub digest : Value → Text
  digest value = sha256 (canonical value)

  -- the test of one round of `verify`, which throws where this is false
  unfoldable pub check_entry : ℕ → Value → Entry → Bool
  check_entry index previous_hash entry =
      strict_eq entry.sequence (num (pos (index + 1)))
      && strict_eq entry.previous_hash previous_hash
      && strict_eq entry.hash (str (digest (body entry.sequence entry.previous_hash entry.event)))

  -- the loop of `verify`; the error is the sequence that its message names
  unfoldable pub verify_from : ℕ → Value → List Entry → Result ℕ (Unit {0})
  verify_from index previous_hash [] = ok tt
  verify_from index previous_hash (entry ∷ entries) =
      if check_entry index previous_hash entry
      then verify_from (index + 1) entry.hash entries
      else err (index + 1)

  unfoldable pub verify : List Entry → Result ℕ (Unit {0})
  unfolding verify_from
  verify entries = verify_from 0 genesis entries

  pub next_entry : List Entry → Value → Entry
  unfolding head_hash
  next_entry entries event =
      let sequence = num (pos (length entries + 1)) in
      let previous_hash = head_hash entries in
      record {
        sequence = sequence;
        previous_hash = previous_hash;
        event = event;
        hash = str (digest (body sequence previous_hash event));
      }

  -- `verify` of an empty file returns at once, so the guard on the length changes nothing
  unfoldable pub append : Value → Exec (List Entry) ℕ Entry
  unfolding next_entry verify
  append event = do
    entries ← load
    lift (verify entries)
    save (entries ++ next_entry entries event ∷ [])
    pure (next_entry entries event)
