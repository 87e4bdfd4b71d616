-- ===== src/Operator/Atomic.antt =====
-- What a write of the checkpoint leaves behind.
use mgds.Prelude.{
  Bool, Bool-cases, Option, Result, Text, ap, arith, beq_of_ne, beq_refl, eqb, err, false, get,
  get-put_ne, get-put_self, get-remove, inl, inr, length, length-append, lit, nat_eq, none, not, ok,
  put, refl, remove, some, sym, text_eq, true, ℕ, ◌++◌, ◌<◌, ◌∙◌, ◌∷◌, ◌≡◌, ◌≢◌,
}
use mgds.Operator.{
  OperatorError, Checkpoint, Files, Faults, valid_fields, valid_slot_ids, temporary_path,
  finish_write, write_new, write_campaign_checkpoint_atomic,
}

longer-ne : (p q : Text) → length p < length q → p ≢ q
longer-ne p q h e = absurd (omega (arith, ap (length {A = ℕ}) e, h))

module _ (render : Checkpoint → Text) (process : Text) (publishable : Checkpoint → Bool) where
  temporary-ne : (path : Text) → path ≢ temporary_path render process publishable path
  temporary-ne path =
      longer-ne path (temporary_path render process publishable path)
        (rw (length-append path (b'.' ∷ (process ++ lit ".tmp"))) (omega arith))

  -- every file but the temporary one is as it was
  abbrev pub Untouched : Text → Files → Files → Type 0
  Untouched path before after =
      (other : Text)
      → other ≢ temporary_path render process publishable path
      → get after other ≡ get before other

  -- the new checkpoint stands under its path, the temporary file is gone, and other files are as they were
  pub record Replaced (path : Text) (checkpoint : Checkpoint) (before after : Files) : Type 0 where
    pub fields : valid_fields checkpoint ≡ true
    pub ids : valid_slot_ids checkpoint ≡ true
    pub public : publishable checkpoint ≡ true
    pub written : get after path ≡ some (render checkpoint)
    pub gone : get after (temporary_path render process publishable path) ≡ none
    pub others :
        (other : Text)
        → other ≢ path
        → other ≢ temporary_path render process publishable path
        → get after other ≡ get before other

  abbrev pub Outcome :
      Text → Checkpoint → Files → (Result OperatorError Checkpoint × Files) → Type 0
  Outcome path checkpoint before (ok written, after) =
      (written ≡ checkpoint) × Replaced path checkpoint before after
  Outcome path checkpoint before (err x, after) = Untouched path before after

  put-Untouched :
      (path content : Text) (files : Files)
      → Untouched path files (put files (temporary_path render process publishable path) content)
  put-Untouched path content files other ne =
      get-put_ne files _ other content (beq_of_ne _ other (λ e. ne (sym e)))

  finish_write-Outcome :
      (o : Option Text) (fails : Bool) (path : Text) (checkpoint : Checkpoint) (files : Files)
      → valid_fields checkpoint ≡ true
      → valid_slot_ids checkpoint ≡ true
      → publishable checkpoint ≡ true
      → Outcome path checkpoint files
          (finish_write render process publishable o fails path checkpoint files)
  finish_write-Outcome (some part) fails path checkpoint files f i p = put-Untouched path part files
  finish_write-Outcome none true path checkpoint files f i p =
      put-Untouched path (render checkpoint) files
  finish_write-Outcome none false path checkpoint files f i p =
      let temporary = temporary_path render process publishable path in
      let held = put files temporary (render checkpoint) in
      (
        refl,
        record {
          fields = f;
          ids = i;
          public = p;
          written = get-put_self (remove held temporary) path (render checkpoint);
          gone =
              get-put_ne (remove held temporary) path temporary (render checkpoint)
                (beq_of_ne path temporary (temporary-ne path))
              ∙ rw (get-remove held temporary temporary, beq_refl temporary) refl;
          others = λ other away aside.
              get-put_ne (remove held temporary) path other (render checkpoint)
                (beq_of_ne path other (λ e. away (sym e)))
              ∙ rw (get-remove held temporary other, beq_of_ne temporary other (λ e. aside (sym e)))
                  (put-Untouched path (render checkpoint) files other aside);
        },
      )

  write_new-Outcome :
      (faults : Faults) (path : Text) (checkpoint : Checkpoint) (o : Option Text) (files : Files)
      → valid_fields checkpoint ≡ true
      → valid_slot_ids checkpoint ≡ true
      → publishable checkpoint ≡ true
      → Outcome path checkpoint files
          (write_new render process publishable faults path checkpoint o files)
  write_new-Outcome faults path checkpoint (some old) files f i p = λ other ne. refl
  write_new-Outcome faults path checkpoint none files f i p =
      finish_write-Outcome faults.partial_write faults.rename_fails path checkpoint files f i p

  not-false : (b : Bool) → not b ≡ false → b ≡ true
  not-false b h = ground arith

  -- Whatever goes wrong, a checkpoint is written whole or not at all: a write that answers has checked the
  -- checkpoint, leaves its text under the path and no temporary file; and one that throws leaves the
  -- file under the path as it was. Other files never change.
  pub checkpoint_outcome :
      (faults : Faults) (path : Text) (checkpoint : Checkpoint) (files : Files)
      → Outcome path checkpoint files
          (write_campaign_checkpoint_atomic render process publishable faults path checkpoint files)
  unfolding write_campaign_checkpoint_atomic
  checkpoint_outcome faults path checkpoint files = elim (Bool-cases (eqb (length path) 0)) [
    | inl empty ↦ rw empty (λ other ne. refl)
    | inr named ↦ elim (Bool-cases (not (valid_fields checkpoint))) [
      | inl bad ↦ rw (named, bad) (λ other ne. refl)
      | inr f ↦ elim (Bool-cases (not (valid_slot_ids checkpoint))) [
        | inl bad ↦ rw (named, f, bad) (λ other ne. refl)
        | inr i ↦ elim (Bool-cases (not (publishable checkpoint))) [
          | inl bad ↦ rw (named, f, i, bad) (λ other ne. refl)
          | inr p ↦
              rw (named, f, i, p)
                (write_new-Outcome faults path checkpoint _ files (not-false _ f) (not-false _ i)
                  (not-false _ p))
        ]
      ]
    ]
  ]
