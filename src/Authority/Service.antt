-- ===== src/Authority/Service.antt =====
-- packages/authority/src/authority.ts: the state of the authority service and what its operations
-- share. Every event goes to the log by `append` of Log/Store.
pub mod Extended
use zero_window.Prelude.{ℕ, Text, List, [], ◌∷◌, Result, ok, err, Result-cases, inl, inr, ◌≡◌, refl}
use zero_window.Crypto.Sodium.{Sodium}
use zero_window.Crypto.KekEngine.{KekEngine, KekError}
use zero_window.Log.Types.{EventType}
use zero_window.Log.Canonical.{Fields, Items, nil, cons, string, number, integer, field}
use zero_window.Log.Store.{Log, LogError, Writer, append}
use zero_window.Authority.Bank.{Problem}
use zero_window.Authority.Json.{JsonError}
use zero_window.Authority.Store.{AuthorityStore}
use zero_window.Centre.Store.{StoreError}

-- The codes of `ReleaseError`, the errors of provisioning, and what the calls throw.
pub data AuthorityError : Type 0 where
  unknown_bundle no_schedule schedule_tampered too_early insufficient_shares : AuthorityError
  share_invalid no_recipients budget_exceeded : AuthorityError
  low_threshold too_few_custodians custodian_not_enrolled centre_not_enrolled : AuthorityError
  bank_invalid : List Problem → AuthorityError
  store_failed : StoreError → AuthorityError
  log_failed : LogError → AuthorityError
  provider_failed : KekError → AuthorityError
  encoding_failed : JsonError → AuthorityError

-- With the three counters of `ReleaseMetrics`.
pub record Authority : Type 0 where
  pub store : AuthorityStore
  pub log : Log
  pub engine : KekEngine
  pub releases_total : ℕ
  pub early_attempts_total : ℕ
  pub budget_exceeded_total : ℕ

-- The result of a call and the authority after it.
abbrev pub Outcome : Type 0 → Type 0
Outcome A = Result AuthorityError A × Authority

-- The next step, if the one before did not throw.
abbrev pub then_do : {A B : Type 0} → Outcome A → (A → Authority → Outcome B) → Outcome B
then_do (ok a, authority) next = next a authority
then_do (err e, authority) next = (err e, authority)

-- A step that reads only.
abbrev pub demand :
    {A B : Type 0} → Result AuthorityError A → (A → Authority → Outcome B) → Authority → Outcome B
demand (ok a) next authority = next a authority
demand (err e) next authority = (err e, authority)

abbrev pub lift_json : {A : Type 0} → Result JsonError A → Result AuthorityError A
lift_json (ok a) = ok a
lift_json (err e) = err (encoding_failed e)

abbrev pub lift_kek : {A : Type 0} → Result KekError A → Result AuthorityError A
lift_kek (ok a) = ok a
lift_kek (err e) = err (provider_failed e)

abbrev pub texts : List Text → Items
texts [] = nil
texts (t ∷ ts) = cons (string t) (texts ts)

abbrev pub text_field : Text → Text → Fields → Fields
text_field k v rest = field k (string v) rest

abbrev pub number_field : Text → ℕ → Fields → Fields
number_field k n rest = field k (number (integer n)) rest

abbrev pub change_store : Result StoreError AuthorityStore → Authority → Outcome (Unit {0})
change_store (ok store) authority = (ok tt, record authority { store = store })
change_store (err e) authority = (err (store_failed e), authority)

module _ (sodium : Sodium) (writer : Writer) where
  unfoldable pub log_event : EventType → Fields → (ts : ℕ) → Authority → Outcome (Unit {0})
  log_event type payload ts authority =
      elim (append sodium writer (record { type = type; payload = payload; ts = ts })
        authority.log) [
          | ok (entry, log) ↦ (ok tt, record authority { log = log })
          | err e ↦ (err (log_failed e), authority)
        ]

-- Reasoning about a chain of steps: what holds after each way it may end.
module _ {ℓ} {A B : Type 0} (P : Outcome B → Type ℓ) where
  pub demand-cases :
      (r : Result AuthorityError A) (next : A → Authority → Outcome B) (authority : Authority)
      → ((e : AuthorityError) → r ≡ err e → P (err e, authority))
      → ((a : A) → r ≡ ok a → P (next a authority))
      → P (demand r next authority)
  demand-cases (ok a) next authority failed went = went a refl
  demand-cases (err e) next authority failed went = failed e refl

  pub then_do-cases :
      (o : Outcome A) (next : A → Authority → Outcome B)
      → ((e : AuthorityError) → o.0 ≡ err e → P (err e, o.1))
      → ((a : A) → o.0 ≡ ok a → P (next a o.1))
      → P (then_do o next)
  then_do-cases (ok a, authority) next failed went = went a refl
  then_do-cases (err e, authority) next failed went = failed e refl

-- What an append to the log does not change.
abbrev pub IsLogged : Authority → Authority → Type 0
IsLogged before after = (after.store ≡ before.store) × (after.engine ≡ before.engine)

pub log_event-IsLogged :
    (sodium : Sodium) (writer : Writer) (type : EventType) (payload : Fields) (ts : ℕ)
    (authority : Authority)
    → IsLogged authority (log_event sodium writer type payload ts authority).1
unfolding log_event
log_event-IsLogged sodium writer type payload ts authority =
    elim (Result-cases
      (append sodium writer (record { type = type; payload = payload; ts = ts }) authority.log)) [
        | inl ((entry, log), e) ↦ rw (e, log_event) (refl, refl)
        | inr (x, e) ↦ rw (e, log_event) (refl, refl)
      ]

pub log_event_counter :
    (sodium : Sodium) (writer : Writer) (type : EventType) (payload : Fields) (ts : ℕ)
    (authority : Authority)
    → (log_event sodium writer type payload ts authority).1.early_attempts_total
      ≡ authority.early_attempts_total
unfolding log_event
log_event_counter sodium writer type payload ts authority =
    elim (Result-cases
      (append sodium writer (record { type = type; payload = payload; ts = ts }) authority.log)) [
        | inl ((entry, log), e) ↦ rw (e, log_event) refl
        | inr (x, e) ↦ rw (e, log_event) refl
      ]
