-- ===== src/Centre/Ledger/Appends.antt =====
-- packages/centre/src/centre.ts: an append to the log of a centre, which may throw, keeps the tables
-- and the log consistent.
use zero_window.Prelude.{ℕ, ◌≡◌, ◌≢◌, ◌⊎◌, refl, false, length, ◌+◌, Bool-cases, inl, inr, ok, err}
use zero_window.Crypto.Sodium.{Sodium}
use zero_window.Log.Types.{EventType}
use zero_window.Log.Canonical.{Fields}
use zero_window.Centre.Store.{StoreError}
use zero_window.Centre.Node.{
  Outside, CentreOptions, CentreNode, Outcome, log_event, logged, append_failed, log_failed,
  store_failed,
}
use zero_window.Centre.Ledger.{IsSound, is_checkin, is_generation}
use zero_window.Centre.Ledger.Effects.{add_event, add_failure}

pub log_event_cases :
    (outside : Outside) (type : EventType) (payload : Fields) (ts : ℕ) (node : CentreNode)
    → (log_event outside type payload ts node
        ≡ (ok tt, logged (record { type = type; payload = payload; ts = ts }) node))
      ⊎ (log_event outside type payload ts node ≡ (err log_failed, append_failed node))
unfolding log_event
log_event_cases outside type payload ts node =
    elim (Bool-cases (outside.append_throws (length node.log + node.failed_appends))) [
      | inl throws ↦ inr (rw throws refl)
      | inr works ↦ inl (rw works refl)
    ]

module _ (sodium : Sodium) (outside : Outside) (opts : CentreOptions) where
  -- The node after a call is sound, and the call did not break a constraint.
  abbrev pub IsFine : {A : Type 0} → Outcome A → Type 0
  IsFine out = IsSound sodium outside opts out.1 × ((e : StoreError) → out.0 ≢ err (store_failed e))

  -- An event that is neither a check-in nor a generation.
  pub log_event-IsFine :
      (type : EventType) (payload : Fields) (ts : ℕ) (node : CentreNode)
      → is_checkin (record { type = type; payload = payload; ts = ts }) ≡ false
      → is_generation (record { type = type; payload = payload; ts = ts }) ≡ false
      → IsSound sodium outside opts node
      → IsFine (log_event outside type payload ts node)
  log_event-IsFine type payload ts node other1 other2 sound =
      elim (log_event_cases outside type payload ts node) [
        | inl works ↦ rw works (
          add_event sodium outside opts node.store node.log node.checkins_total
              node.papers_generated node.failed_appends _ other1 other2 sound,
          λ e q. absurd cc,
        )
        | inr throws ↦ rw throws (
          add_failure sodium outside opts node.store node.log node.checkins_total
              node.papers_generated node.failed_appends sound,
          λ e q. absurd cc,
        )
      ]
