-- ===== src/Authority/Release/Early.antt =====
-- packages/authority/src/release.ts: an attempt before T-0.
use zero_window.Prelude.{
  ℕ, suc, ◌<◌, ◌≡◌, refl, sym, ap, subst, ◌∙◌, ◌⊎◌, inl, inr, true, Bytes, some, [], ◌∷◌, ltb, ok,
  err, err-injective, arith,
}
use zero_window.Crypto.Sodium.{Sodium, SodiumLaws}
use zero_window.Crypto.Box.{Boxes}
use zero_window.Log.Types.{early_release_attempt}
use zero_window.Log.Store.{LogError, Writer}
use zero_window.Log.Store.Chain.{IsChain}
use zero_window.Authority.Store.{BundleRecord, ScheduleRecord, bundle, schedule}
use zero_window.Authority.Service.{
  Authority, Outcome, log_failed, too_early, then_do-cases, log_event, log_event-IsLogged,
  log_event_counter,
}
use zero_window.Authority.Release.{
  ReleaseOptions, ReleaseOutcome, body_of_schedule, verify_schedule_signature, early_payload,
  refuse_early, perform_release,
}
use zero_window.Log.Canonical.{Fields}
use zero_window.Authority.Release.Recorded.{RecordsAttempt, early_payload-RecordsAttempt}
use zero_window.Authority.Release.Authorised.{IsRefusal}
use zero_window.Authority.Service.Extended.{IsExtended, log_event-IsExtended}

module _ (sodium : Sodium) where
  -- The call threw and left the tables and the keys as they were; it threw too_early, after an entry
  -- for the attempt and with the counter one up, unless the append to the log threw.
  abbrev pub IsEarly :
      ReleaseOptions → Authority → BundleRecord → ScheduleRecord → Outcome ReleaseOutcome → Type 0
  IsEarly opts before b s (result, after) =
      IsRefusal before (result, after)
      × ((result ≡ err too_early)
            × ((payload : Fields) × IsExtended sodium before after
                  ((early_release_attempt, payload) ∷ [])
                × RecordsAttempt b s opts payload)
            × (after.early_attempts_total ≡ suc before.early_attempts_total)
          ⊎ ((x : LogError) × (result ≡ err (log_failed x))))

module _ (sodium : Sodium) (laws : SodiumLaws sodium) (writer : Writer) (boxes : Boxes)
    (ephemeral : ℕ → Bytes) (authority_public_key : Bytes) where
  refuse_early-IsEarly :
      (b : BundleRecord) (s : ScheduleRecord) (opts : ReleaseOptions) (authority : Authority)
      → IsChain sodium authority.log.entries
      → IsEarly sodium opts authority b s (refuse_early sodium writer b s opts authority)
  unfolding refuse_early
  refuse_early-IsEarly b s opts authority chain =
      let counted = record authority {
        early_attempts_total = suc authority.early_attempts_total;
      } in
      let logged =
        log_event-IsLogged sodium writer early_release_attempt (early_payload b s opts) opts.now
          counted in
      let count =
        log_event_counter sodium writer early_release_attempt (early_payload b s opts) opts.now
          counted in
      then_do-cases {A = Unit {0}} (IsEarly sodium opts authority b s)
        (log_event sodium writer early_release_attempt (early_payload b s opts) opts.now counted)
        (λ _ after. (err too_early, after))
        (λ e h. (
          ((e, refl), logged),
          elim (log_event-IsExtended sodium laws writer early_release_attempt
              (early_payload b s opts) opts.now counted chain) [
                | inl (done, grown) ↦ cc
                | inr (x, failed) ↦ inr (x, ap err (err-injective (sym h ∙ failed)))
              ],
        ))
        (λ _ h. (
          ((too_early, refl), logged),
          elim (log_event-IsExtended sodium laws writer early_release_attempt
              (early_payload b s opts) opts.now counted chain) [
                | inl (done, grown) ↦ inl (
                  refl,
                  (early_payload b s opts, grown, early_payload-RecordsAttempt b s opts),
                  count,
                )
                | inr (x, failed) ↦ cc
              ],
        ))

  perform_release_before :
      (opts : ReleaseOptions) (lifetime_us : ℕ) (authority : Authority) (b : BundleRecord)
      (s : ScheduleRecord)
      → bundle opts.bundle_id authority.store ≡ some b
      → schedule opts.bundle_id authority.store ≡ some s
      → verify_schedule_signature sodium (body_of_schedule s) s.signature authority_public_key
        ≡ ok true
      → opts.now < s.release_at
      → perform_release sodium writer boxes ephemeral authority_public_key opts lifetime_us
          authority
        ≡ refuse_early sodium writer b s opts authority
  unfolding perform_release
  perform_release_before opts lifetime_us authority b s known scheduled signed early =
      let is_early : ltb opts.now s.release_at ≡ true = ground arith in
      rw (known, scheduled, signed, is_early) refl

  -- If the log is a chain and perform_release is called for a known bundle whose schedule verifies
  -- before the time of the schedule, then it throws and the tables stay as they were, and it
  -- throws too_early after the log has grown by an EARLY_RELEASE_ATTEMPT entry, which is still a
  -- chain, and the counter of such attempts by one, unless the append itself fails; read by its
  -- keys, the entry has the bundle, the exam, the time set, the time of the attempt, how early it
  -- is, and the custodians of all the submitted shares.
  pub perform_release-IsEarly :
      (opts : ReleaseOptions) (lifetime_us : ℕ) (authority : Authority) (b : BundleRecord)
      (s : ScheduleRecord)
      → IsChain sodium authority.log.entries
      → bundle opts.bundle_id authority.store ≡ some b
      → schedule opts.bundle_id authority.store ≡ some s
      → verify_schedule_signature sodium (body_of_schedule s) s.signature authority_public_key
        ≡ ok true
      → opts.now < s.release_at
      → IsEarly sodium opts authority b s (
          perform_release sodium writer boxes ephemeral authority_public_key opts lifetime_us
            authority)
  perform_release-IsEarly opts lifetime_us authority b s chain known scheduled signed early =
      subst (IsEarly sodium opts authority b s)
        (sym (perform_release_before opts lifetime_us authority b s known scheduled signed early))
        (refuse_early-IsEarly b s opts authority chain)
