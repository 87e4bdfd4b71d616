-- ===== src/Tests/Ledger.antt =====
-- The event ledger at a file of two entries.
use mgds.Prelude.{List, [], err, lit, ok, pos, refl, ℕ, ◌++◌, ◌∷◌, ◌≡◌, ◌⊎◌}
use mgds.Json.{num, str}
use mgds.Ledger.{Entry, verify, next_entry, append}
use mgds.Ledger.Chain.{append_lem, Written, empty, more, Written-verify}
use mgds.Ledger.Tamper.{SameEvents, Clash, verify_binds_events}
use mgds.Tests.Toy.{toy, toy-IsHex64}

abbrev first : List Entry
first = next_entry toy [] (str (lit "started")) ∷ []

abbrev both : List Entry
both = first ++ next_entry toy first (num (pos 7)) ∷ []

append_lem_example :
    ((entry : Entry) × (append toy (num (pos 7)) first ≡ (ok entry, first ++ entry ∷ []))
      × (verify toy (first ++ entry ∷ []) ≡ ok tt)
      × (entry.event ≡ num (pos 7))
      × (entry.sequence ≡ num (pos 2)))
    ⊎ ((i : ℕ) × (verify toy first ≡ err i) × (append toy (num (pos 7)) first ≡ (err i, first)))
append_lem_example = append_lem toy first (num (pos 7))

first_written : Written toy first
unfolding append
first_written = more (str (lit "started")) empty refl

first_verifies : verify toy first ≡ ok tt
first_verifies = Written-verify toy first_written

both_written : Written toy both
unfolding append
both_written =
    more (num (pos 7)) {entry = next_entry toy first (num (pos 7))} first_written
      (rw first_verifies refl)

verify_binds_events_example : SameEvents both both ⊎ Clash toy both both
verify_binds_events_example =
    verify_binds_events toy toy-IsHex64 both both refl (Written-verify toy both_written)
      (Written-verify toy both_written) refl
