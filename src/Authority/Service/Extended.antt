-- ===== src/Authority/Service/Extended.antt =====
-- packages/authority/src/authority.ts: what the calls of the service add to its log.
use zero_window.Prelude.{
  ℕ, ◌≡◌, refl, ap, ap₂, ◌∙◌, ◌⊎◌, inl, inr, Result-cases, List, [], ◌∷◌, ◌++◌, append_assoc, map,
  ok, err,
}
use zero_window.Crypto.Sodium.{Sodium, SodiumLaws}
use zero_window.Log.Canonical.{Fields}
use zero_window.Log.Types.{EventType, LogEntry}
use zero_window.Log.Store.{Log, LogError, Writer, append}
use zero_window.Log.Store.Chain.{IsChain}
use zero_window.Log.Store.Appends.{append-IsChain}
use zero_window.Authority.Service.{Authority, log_failed, log_event}

-- What an entry records.
abbrev pub event_of : LogEntry → EventType × Fields
event_of e = (e.type, e.payload)

module _ (sodium : Sodium) where
  -- The log after a call is the log before with entries for these events, still a chain.
  abbrev pub IsExtended : Authority → Authority → List (EventType × Fields) → Type 0
  IsExtended before after events =
      (added : List LogEntry) × (after.log.entries ≡ before.log.entries ++ added)
      × IsChain sodium after.log.entries
      × (map event_of added ≡ events)

  pub IsExtended-trans :
      (a b c : Authority) (events more : List (EventType × Fields))
      → IsExtended a b events
      → IsExtended b c more
      → IsExtended a c (events ++ more)
  IsExtended-trans a b c events more (added, grown, chain, shape) (added', grown', chain', shape') =
      (
        added ++ added',
        grown' ∙ ap (λ l. l ++ added') grown ∙ append_assoc a.log.entries added added',
        chain',
        map-append added added' ∙ ap₂ (λ s t. s ++ t) shape shape',
      )
    where
      map-append :
          (xs ys : List LogEntry) → map event_of (xs ++ ys) ≡ map event_of xs ++ map event_of ys
      map-append [] ys = refl
      map-append (x ∷ xs) ys = ap (◌∷◌ (event_of x)) (map-append xs ys)

  pub IsExtended-same :
      (a b c : Authority) (events : List (EventType × Fields))
      → b.log ≡ a.log
      → IsExtended b c events
      → IsExtended a c events
  IsExtended-same a b c events e (added, grown, chain, shape) =
      (added, grown ∙ ap (λ (l : Log). l.entries ++ added) e, chain, shape)

  module _ (laws : SodiumLaws sodium) (writer : Writer) where
    pub log_event-IsExtended :
        (type : EventType) (payload : Fields) (ts : ℕ) (authority : Authority)
        → IsChain sodium authority.log.entries
        → ((log_event sodium writer type payload ts authority).0 ≡ ok tt)
            × IsExtended authority
                (log_event sodium writer type payload ts authority).1
                ((type, payload) ∷ [])
          ⊎ ((x : LogError) × (log_event sodium writer type payload ts authority).0
                ≡ err (log_failed x))
    unfolding log_event
    log_event-IsExtended type payload ts authority chain =
        elim (Result-cases (
          append sodium writer (record { type = type; payload = payload; ts = ts })
            authority.log)) [
              | inl ((entry, log), e) ↦
                  let grown =
                    append-IsChain sodium laws writer
                      (record { type = type; payload = payload; ts = ts }) authority.log chain e in
                  rw (e, log_event)
                    (inl (
                      refl,
                      (entry ∷ [], grown.0, grown.1, ap₂ (λ t p. (t, p) ∷ []) grown.3 grown.4),
                    ))
              | inr (x, e) ↦ rw (e, log_event) (inr (x, refl))
            ]
