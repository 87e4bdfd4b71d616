-- ===== src/JobController/Store.antt =====
-- packages/controller/src/jobs/job-controller.mjs, `JsonJobStore`: the snapshot in a file that is replaced by a
-- rename. `print` and `parse` are JSON.stringify with an indent and JSON.parse.
use mgds.Prelude.{
  Bool, Dict, Exec, Option, Result, Text, ap, arith, beq_of_ne, err, false, get, get-put_ne,
  get-put_self, length, length-append, lit, nat_eq, none, ok, put, remove, some, text_eq, true, ℕ,
  ◌++◌, ◌==◌, ◌∙◌, ◌≡◌,
}
use mgds.JobController.{Snapshot, empty}

pub data StoreError : Type 0 where
  syntax_error write_failed rename_failed : StoreError

abbrev pub StoreDisk : Type 0
StoreDisk = Dict Text Text

-- what goes wrong in a `save`: a write that stops after some text, and a rename
pub record StoreFaults : Type 0 where
  pub partial_write : Option Text
  pub rename_fails : Bool

module _ (print : Snapshot → Text) (parse : Text → Option Snapshot) (file : Text) where
  abbrev parsed : Option Snapshot → Result StoreError Snapshot
  parsed none = err syntax_error
  parsed (some snapshot) = ok snapshot

  abbrev pub load_text : Option Text → Result StoreError Snapshot
  load_text none = ok empty
  load_text (some text) = parsed (parse text)

  unfoldable pub load_snapshot : StoreDisk → Result StoreError Snapshot
  unfolding get
  load_snapshot disk = load_text (get disk file)

  abbrev pub temporary : Text
  temporary = file ++ lit ".tmp"

  abbrev pub rename_written : Bool → Snapshot → Exec StoreDisk StoreError (Unit {0})
  rename_written true snapshot disk = (err rename_failed, disk)
  rename_written false snapshot disk = (ok tt, put (remove disk temporary) file (print snapshot))

  abbrev pub write_snapshot : Option Text → Bool → Snapshot → Exec StoreDisk StoreError (Unit {0})
  write_snapshot (some part) fails snapshot disk = (err write_failed, put disk temporary part)
  write_snapshot none fails snapshot disk =
      rename_written fails snapshot (put disk temporary (print snapshot))

  unfoldable pub save_snapshot : StoreFaults → Snapshot → Exec StoreDisk StoreError (Unit {0})
  unfolding put remove
  save_snapshot faults snapshot disk =
      write_snapshot faults.partial_write faults.rename_fails snapshot disk

  -- the snapshot that is loaded after a `save`: the new one, or after an error the old one
  abbrev pub after_save : Snapshot → Snapshot → Result StoreError (Unit {0}) → Snapshot
  after_save old snapshot (ok done) = snapshot
  after_save old snapshot (err x) = old

  temporary-ne : (temporary == file) ≡ false
  temporary-ne =
      beq_of_ne temporary file
        (λ e. absurd (omega (arith, ap (length {A = ℕ}) e, length-append file (lit ".tmp"))))

  load-temporary :
      (text : Text) (disk : StoreDisk)
      → load_snapshot (put disk temporary text) ≡ load_snapshot disk
  unfolding load_snapshot
  load-temporary text disk = ap load_text (get-put_ne disk temporary file text temporary-ne)

  write-load :
      (part : Option Text) (fails : Bool) (old snapshot : Snapshot) (disk : StoreDisk)
      → parse (print snapshot) ≡ some snapshot
      → load_snapshot disk ≡ ok old
      → load_snapshot (write_snapshot part fails snapshot disk).1
        ≡ ok (after_save old snapshot (write_snapshot part fails snapshot disk).0)
  unfolding load_snapshot
  write-load (some part) fails old snapshot disk again h = load-temporary part disk ∙ h
  write-load none true old snapshot disk again h = load-temporary (print snapshot) disk ∙ h
  write-load none false old snapshot disk again h =
      ap load_text (
        get-put_self (remove (put disk temporary (print snapshot)) temporary) file (print snapshot))
      ∙ ap parsed again

  -- What is loaded after a `save` is the saved snapshot, if it answers, and what was loaded before, if the
  -- write or the rename fails; where JSON.parse gives back the snapshot that is printed.
  pub load_snapshot-save_snapshot :
      (faults : StoreFaults) (old snapshot : Snapshot) (disk : StoreDisk)
      → parse (print snapshot) ≡ some snapshot
      → load_snapshot disk ≡ ok old
      → load_snapshot (save_snapshot faults snapshot disk).1
        ≡ ok (after_save old snapshot (save_snapshot faults snapshot disk).0)
  unfolding save_snapshot
  load_snapshot-save_snapshot faults old snapshot disk again h =
      write-load faults.partial_write faults.rename_fails old snapshot disk again h
