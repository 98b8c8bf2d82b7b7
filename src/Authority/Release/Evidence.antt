-- ===== src/Authority/Release/Evidence.antt =====
-- packages/authority/src/release.ts: the evidence that a release, or an early attempt, leaves in the
-- log.
use zero_window.Prelude.{
  ℕ, suc, ◌*◌, ◌≡◌, ◌≢◌, refl, sym, ap, subst, inl, inr, not, Bytes, Text, some, Result-cases, List,
  [], ◌∷◌, ◌++◌, append-nil, map, ltb, if-cases, ok, err, ok-injective,
}
use zero_window.Encoding.{from_hex}
use zero_window.Crypto.Sodium.{Sodium, SodiumLaws}
use zero_window.Crypto.Box.{Boxes}
use zero_window.Crypto.KekEngine.Custody.{reconstruct_wrap_release}
use zero_window.Log.Canonical.{Fields}
use zero_window.Log.Types.{EventType, custodian_approved, early_release_attempt, kek_released}
use zero_window.Log.Store.{Log, Writer}
use zero_window.Log.Store.Chain.{IsChain}
use zero_window.Authority.Store.{BundleRecord, ScheduleRecord, bundle, schedule, record_release}
use zero_window.Authority.Service.{
  Authority, Outcome, too_early, unknown_bundle, no_schedule, schedule_tampered, then_do, lift_json,
  lift_kek, demand-cases, then_do-cases, log_event,
}
use zero_window.Authority.Release.{
  SubmittedShare, ReleaseOptions, ReleaseOutcome, custodian_ids, WrappedFor, wrapped_for,
  release_budget_ms, body_of_schedule, refuse_if, found, verify_schedule_signature, early_payload,
  approval_payload, released_payload, store_releases, log_approvals, refuse_early, check_submission,
  finish_release, release_now, perform_release,
}
use zero_window.Authority.Release.Recorded.{
  RecordsApprovals, approval_payload-RecordsApprovals, RecordsRelease,
  released_payload-RecordsRelease,
}
use zero_window.Authority.Release.Checks.{found-some}
use zero_window.Authority.Service.Extended.{
  IsExtended, IsExtended-trans, IsExtended-same, log_event-IsExtended,
}

abbrev pub released :
    BundleRecord → ScheduleRecord → ReleaseOptions → ℕ → List WrappedFor → EventType × Fields
released b s opts lifetime_us wrapped =
    (kek_released, released_payload b s opts (map (λ w. w.centre_id) wrapped) lifetime_us)

store_releases_log :
    (bundle_id : Text) (at : ℕ) (ws : List WrappedFor) (authority : Authority)
    → (store_releases bundle_id at ws authority).1.log ≡ authority.log
store_releases_log bundle_id at [] authority = refl
store_releases_log bundle_id at (w ∷ ws) authority =
    elim (Result-cases (record_release bundle_id w.centre_id at w.sealed authority.store)) [
      | inl (store, e) ↦
          rw e (store_releases_log bundle_id at ws (record authority { store = store }))
      | inr (x, e) ↦ rw e refl
    ]

module _ (sodium : Sodium) where
  abbrev pub approval : BundleRecord → Text → SubmittedShare → EventType × Fields
  approval b bundle_id s = (custodian_approved, approval_payload sodium b bundle_id s)

  approvals_as_events :
      (b : BundleRecord) (bundle_id : Text) (shares : List SubmittedShare)
      → ◌≡◌ {A = List (EventType × Fields)}
          (map (approval b bundle_id) shares)
          (map (λ p. (custodian_approved, p)) (map (approval_payload sodium b bundle_id) shares))
  approvals_as_events b bundle_id [] = refl
  approvals_as_events b bundle_id (s ∷ shares) =
      ap (◌∷◌ (approval b bundle_id s)) (approvals_as_events b bundle_id shares)

  module _ (laws : SodiumLaws sodium) (writer : Writer) where
    log_approvals-IsExtended :
        (b : BundleRecord) (bundle_id : Text) (at : ℕ) (shares : List SubmittedShare)
        (authority : Authority)
        → IsChain sodium authority.log.entries
        → (log_approvals sodium writer b bundle_id at shares authority).0 ≡ ok tt
        → IsExtended sodium authority
            (log_approvals sodium writer b bundle_id at shares authority).1
            (map (approval b bundle_id) shares)
    log_approvals-IsExtended b bundle_id at [] authority chain =
        λ done. ([], sym (append-nil authority.log.entries), chain, refl)
    log_approvals-IsExtended b bundle_id at (s ∷ shares) authority chain =
        let o =
          log_event sodium writer custodian_approved (approval_payload sodium b bundle_id s) at
            authority in
        then_do-cases {A = Unit {0}} {B = Unit {0}}
          (λ r.
            r.0 ≡ ok tt → IsExtended sodium authority r.1 (map (approval b bundle_id) (s ∷ shares)))
          o (λ _. log_approvals sodium writer b bundle_id at shares) (λ e h done. cc)
          (λ _ h done.
            elim (log_event-IsExtended sodium laws writer custodian_approved
              (approval_payload sodium b bundle_id s) at authority chain) [
                | inr (x, failed) ↦ cc
                | inl (logged, first) ↦
                    IsExtended-trans sodium authority o.1
                      (log_approvals sodium writer b bundle_id at shares o.1).1
                      (approval b bundle_id s ∷ []) (map (approval b bundle_id) shares) first
                      (log_approvals-IsExtended b bundle_id at shares o.1 first.2 done)
              ])

    finish_release-IsExtended :
        (b : BundleRecord) (s : ScheduleRecord) (opts : ReleaseOptions) (lifetime_us : ℕ)
        (wrapped : List WrappedFor) (authority : Authority) (outcome : ReleaseOutcome)
        → IsChain sodium authority.log.entries
        → (finish_release sodium writer b s opts lifetime_us wrapped authority).0 ≡ ok outcome
        → IsExtended sodium authority
            (finish_release sodium writer b s opts lifetime_us wrapped authority).1
            (released b s opts lifetime_us outcome.wrapped ∷ [])
    unfolding finish_release
    finish_release-IsExtended b s opts lifetime_us wrapped authority outcome chain =
        let stored = store_releases opts.bundle_id opts.now wrapped authority in
        let same = store_releases_log opts.bundle_id opts.now wrapped authority in
        let payload = released_payload b s opts (map (λ w. w.centre_id) wrapped) lifetime_us in
        let final : Unit {0} → Authority → Outcome ReleaseOutcome = λ _ after. (
          ok (record {
            bundle_id = opts.bundle_id;
            exam_id = b.exam_id;
            wrapped = wrapped;
            custodians = custodian_ids opts.shares;
          }),
          record after { releases_total = suc after.releases_total },
        ) in
        let P : Outcome ReleaseOutcome → Type 0 = λ r.
          r.0 ≡ ok outcome
          → IsExtended sodium authority r.1 (released b s opts lifetime_us outcome.wrapped ∷ []) in
        if-cases P (ltb (release_budget_ms * 1000) lifetime_us) _ _ (λ over done. cc)
          (λ within.
            then_do-cases {A = Unit {0}} P stored
              (λ _ after.
                then_do (log_event sodium writer kek_released payload opts.now after) final)
              (λ e h done. cc)
              (λ _ h.
                then_do-cases {A = Unit {0}} P
                  (log_event sodium writer kek_released payload opts.now stored.1) final
                  (λ e h2 done. cc)
                  (λ _ h2 done.
                    elim (log_event-IsExtended sodium laws writer kek_released payload opts.now
                      stored.1 (subst (λ (l : Log). IsChain sodium l.entries) (sym same) chain)) [
                        | inr (x, failed) ↦ cc
                        | inl (logged, grown) ↦
                            subst
                              (λ ws.
                                IsExtended sodium authority
                                  (log_event sodium writer kek_released payload opts.now stored.1).1
                                  (released b s opts lifetime_us ws ∷ []))
                              (ap (λ (o : ReleaseOutcome). o.wrapped) (ok-injective done))
                              (IsExtended-same sodium authority stored.1
                                (log_event sodium writer kek_released payload opts.now stored.1).1 _
                                same grown)
                      ])))

    module _ (boxes : Boxes) (ephemeral : ℕ → Bytes) (authority_public_key : Bytes) where
      release_now-IsExtended :
          (b : BundleRecord) (s : ScheduleRecord) (opts : ReleaseOptions) (lifetime_us : ℕ)
          (authority : Authority) (outcome : ReleaseOutcome)
          → IsChain sodium authority.log.entries
          → (release_now sodium writer boxes ephemeral authority_public_key b s opts lifetime_us
              authority).0
            ≡ ok outcome
          → IsExtended sodium authority
              (release_now sodium writer boxes ephemeral authority_public_key b s opts lifetime_us
                authority).1
              (map (approval b opts.bundle_id) opts.shares
                ++ released b s opts lifetime_us outcome.wrapped ∷ [])
      unfolding release_now
      release_now-IsExtended b s opts lifetime_us authority outcome chain =
          let P : Outcome ReleaseOutcome → Type 0 = λ r.
            r.0 ≡ ok outcome
            → IsExtended sodium authority r.1 (
                map (approval b opts.bundle_id) opts.shares
                ++ released b s opts lifetime_us outcome.wrapped ∷ []) in
          let approved =
            log_approvals sodium writer b opts.bundle_id opts.now opts.shares authority in
          demand-cases P (check_submission b opts authority.store) _ authority (λ e h done. cc)
            (λ recipients h.
              then_do-cases P approved _ (λ e h2 done. cc)
                (λ _ h2.
                  let first =
                    log_approvals-IsExtended b opts.bundle_id opts.now opts.shares authority chain
                      h2 in
                  demand-cases P
                    (lift_kek (
                      reconstruct_wrap_release sodium boxes ephemeral
                        (map (λ s. s.share_blob) opts.shares) recipients
                        (from_hex b.kek_fingerprint) approved.1.engine))
                    (λ result.
                      finish_release sodium writer b s opts lifetime_us
                        (map wrapped_for result.wrapped))
                    approved.1 (λ e h3 done. cc)
                    (λ result h3 done.
                      IsExtended-trans sodium authority approved.1
                        (finish_release sodium writer b s opts lifetime_us
                          (map wrapped_for result.wrapped) approved.1).1
                        (map (approval b opts.bundle_id) opts.shares)
                        (released b s opts lifetime_us outcome.wrapped ∷ []) first
                        (finish_release-IsExtended b s opts lifetime_us
                          (map wrapped_for result.wrapped) approved.1 outcome first.2 done))))

      refuse_early_throws :
          (b : BundleRecord) (s : ScheduleRecord) (opts : ReleaseOptions) (authority : Authority)
          (outcome : ReleaseOutcome)
          → (refuse_early sodium writer b s opts authority).0 ≢ ok outcome
      unfolding refuse_early
      refuse_early_throws b s opts authority outcome =
          let counted = record authority {
            early_attempts_total = suc authority.early_attempts_total;
          } in
          then_do-cases {A = Unit {0}} (λ r. r.0 ≢ ok outcome)
            (log_event sodium writer early_release_attempt (early_payload b s opts) opts.now
              counted)
            (λ _ after. (err too_early, after)) (λ e h done. cc) (λ _ h done. cc)

      perform_release_events :
          (opts : ReleaseOptions) (lifetime_us : ℕ) (authority : Authority)
          (outcome : ReleaseOutcome)
          → IsChain sodium authority.log.entries
          → (perform_release sodium writer boxes ephemeral authority_public_key opts lifetime_us
              authority).0
            ≡ ok outcome
          → (b : BundleRecord) × (s : ScheduleRecord) × (bundle opts.bundle_id authority.store
              ≡ some b)
            × (schedule opts.bundle_id authority.store ≡ some s)
            × IsExtended sodium authority
                (perform_release sodium writer boxes ephemeral authority_public_key opts lifetime_us
                  authority).1
                (map (approval b opts.bundle_id) opts.shares
                  ++ released b s opts lifetime_us outcome.wrapped ∷ [])
      unfolding perform_release
      perform_release_events opts lifetime_us authority outcome chain =
          let P : Outcome ReleaseOutcome → Type 0 = λ r.
            r.0 ≡ ok outcome
            → (b : BundleRecord) × (s : ScheduleRecord) × (bundle opts.bundle_id authority.store
                ≡ some b)
              × (schedule opts.bundle_id authority.store ≡ some s)
              × IsExtended sodium authority r.1 (
                  map (approval b opts.bundle_id) opts.shares
                  ++ released b s opts lifetime_us outcome.wrapped ∷ []) in
          demand-cases P (found (bundle opts.bundle_id authority.store) unknown_bundle) _ authority
            (λ e h done. cc)
            (λ b known.
              demand-cases P (found (schedule opts.bundle_id authority.store) no_schedule) _
                authority (λ e h done. cc)
                (λ s scheduled.
                  demand-cases P
                    (lift_json (
                      verify_schedule_signature sodium (body_of_schedule s) s.signature
                        authority_public_key))
                    _ authority (λ e h done. cc)
                    (λ valid signed.
                      demand-cases P (refuse_if (not valid) schedule_tampered) _ authority
                        (λ e h done. cc)
                        (λ _ h.
                          if-cases P (ltb opts.now s.release_at)
                            (refuse_early sodium writer b s opts authority)
                            (release_now sodium writer boxes ephemeral authority_public_key b s opts
                              lifetime_us authority)
                            (λ early done.
                              absurd (refuse_early_throws b s opts authority outcome done))
                            (λ due done. (
                              b,
                              s,
                              found-some (bundle opts.bundle_id authority.store) unknown_bundle b
                                  known,
                              found-some (schedule opts.bundle_id authority.store) no_schedule s
                                  scheduled,
                              release_now-IsExtended b s opts lifetime_us authority outcome chain
                                  done,
                            ))))))

      -- If the log is a chain and perform_release returns an outcome, then the log has grown by one
      -- CUSTODIAN_APPROVED entry for each submitted share, in their order, and a KEK_RELEASED entry
      -- after them, and is still a chain. Read by their keys, each approval has the bundle, the exam,
      -- the custodian of its share and the hash of the share, and the last entry has the fingerprint,
      -- the threshold, the custodians of all the shares, the centres of the outcome, the lifetime of
      -- the key with its budget, the time set and the time of the release.
      pub perform_release-IsExtended :
          (opts : ReleaseOptions) (lifetime_us : ℕ) (authority : Authority)
          (outcome : ReleaseOutcome)
          → IsChain sodium authority.log.entries
          → (perform_release sodium writer boxes ephemeral authority_public_key opts lifetime_us
              authority).0
            ≡ ok outcome
          → (b : BundleRecord) × (s : ScheduleRecord) × (approvals : List Fields)
            × (summary : Fields) × (bundle opts.bundle_id authority.store ≡ some b)
            × (schedule opts.bundle_id authority.store ≡ some s)
            × IsExtended sodium authority
                (perform_release sodium writer boxes ephemeral authority_public_key opts lifetime_us
                  authority).1
                (map (λ p. (custodian_approved, p)) approvals ++ (kek_released, summary) ∷ [])
            × RecordsApprovals sodium b opts.bundle_id opts.shares approvals
            × RecordsRelease b s opts lifetime_us outcome.wrapped summary
      perform_release-IsExtended opts lifetime_us authority outcome chain done =
          let found = perform_release_events opts lifetime_us authority outcome chain done in
          let b = found.0 in
          let s = found.1 in
          let after =
            (perform_release sodium writer boxes ephemeral authority_public_key opts lifetime_us
              authority).1 in
          (
            b,
            s,
            map (approval_payload sodium b opts.bundle_id) opts.shares,
            released_payload b s opts (map (λ w. w.centre_id) outcome.wrapped) lifetime_us,
            found.2,
            found.3,
            subst
                (λ events.
                  IsExtended sodium authority after
                    (events ++ released b s opts lifetime_us outcome.wrapped ∷ []))
                (approvals_as_events b opts.bundle_id opts.shares) found.4,
            approval_payload-RecordsApprovals sodium b opts.bundle_id opts.shares,
            released_payload-RecordsRelease b s opts lifetime_us outcome.wrapped,
          )
