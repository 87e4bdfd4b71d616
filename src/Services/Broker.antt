-- ===== src/Services/Broker.antt =====
-- packages/broker/src/index.mjs: secrets behind handles. The handle that `randomBytes` makes and the
-- time are arguments.
use mgds.Prelude.{
  Bool, Bool-cases, Dict, Exec, List, Option, Result, Text, [], beq_refl, ensure, err, false, get,
  get-put_ne, get-put_self, get-remove, has, if◌then◌else◌, inl, inr, leb, load, nat_eq, none, not,
  ok, pure, put, refl, remove, save, some, text_eq, true, ℕ, ◌&&◌, ◌+◌, ◌==◌, ◌>>=◌, ◌>>◌, ◌∷◌, ◌≡◌,
}

pub record Secret : Type 0 where
  pub value : Text
  pub expires_at : ℕ

pub record Broker : Type 0 where
  pub destinations : List Text
  pub secrets : Dict Text Secret

pub data BrokerError : Type 0 where
  value_required ttl_out_of_range not_allowlisted expired_or_unknown : BrokerError

abbrev is_nothing : Text → Bool
is_nothing [] = true
is_nothing (c ∷ s) = false

unfoldable pub issue : Text → ℕ → Text → ℕ → Exec Broker BrokerError Text
issue value ttl_ms handle now = do
  ensure (not (is_nothing value)) value_required
  ensure (leb 1 ttl_ms && leb ttl_ms 3600000) ttl_out_of_range
  broker ← load
  save (record broker {
    secrets = put broker.secrets handle (record { value = value; expires_at = now + ttl_ms });
  })
  pure handle

abbrev pub unexpired : ℕ → Option Secret → Result BrokerError Text
unexpired at none = err expired_or_unknown
unexpired at (some secret) =
    if leb secret.expires_at at then err expired_or_unknown else ok secret.value

unfoldable pub resolve : Text → Text → ℕ → Broker → Result BrokerError Text
resolve handle destination at broker =
    if has broker.destinations destination
    then unexpired at (get broker.secrets handle)
    else err not_allowlisted

unfoldable pub revoke : Text → Broker → Broker
revoke handle broker = record broker { secrets = remove broker.secrets handle }

-- A secret that was issued is given out under its handle, to a destination on the list, exactly
-- until its time is over; other handles answer as before.
pub resolve-issue :
    (value : Text) (ttl now : ℕ) (handle other destination : Text) (at : ℕ) (b : Broker)
    → (issue value ttl handle now b).0 ≡ ok handle
    → has b.destinations destination ≡ true
    → (resolve handle destination at (issue value ttl handle now b).1
        ≡ (if leb (now + ttl) at then err expired_or_unknown else ok value))
      × ((handle == other) ≡ false
          → resolve other destination at (issue value ttl handle now b).1
            ≡ resolve other destination at b)
unfolding issue resolve
resolve-issue value ttl now handle other destination at b h d =
    elim (Bool-cases (is_nothing value)) [
      | inl empty ↦ cc (rw empty at h)
      | inr given ↦ elim (Bool-cases (leb 1 ttl && leb ttl 3600000)) [
        | inr out ↦ cc (rw (given, out) at h)
        | inl fits ↦ (
          rw
              (
                given,
                fits,
                d,
                get-put_self b.secrets handle (record { value = value; expires_at = now + ttl }),
              )
              refl,
          λ ne.
              rw
                (
                  given,
                  fits,
                  d,
                  get-put_ne b.secrets handle other
                      (record { value = value; expires_at = now + ttl }) ne,
                )
                refl,
        )
      ]
    ]

-- A revoked handle gives no secret to anyone, at any time.
pub resolve-revoke :
    (handle destination : Text) (at : ℕ) (b : Broker)
    → (x : BrokerError) × (resolve handle destination at (revoke handle b) ≡ err x)
unfolding resolve revoke
resolve-revoke handle destination at b = elim (Bool-cases (has b.destinations destination)) [
  | inr away ↦ (not_allowlisted, rw away refl)
  | inl listed ↦
      (expired_or_unknown, rw (listed, get-remove b.secrets handle handle, beq_refl handle) refl)
]
