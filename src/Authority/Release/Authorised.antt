-- ===== src/Authority/Release/Authorised.antt =====
-- packages/authority/src/release.ts: what must hold for a release to change the authority's tables.
use zero_window.Prelude.{
  ℕ, suc, ◌*◌, ◌≤◌, ◌≡◌, ◌≢◌, refl, subst, ◌∙◌, ◌⊎◌, inl, inr, true, false, not, Bytes, Text, some,
  Bool-cases, List, [], ◌∷◌, map, length, ltb, if-cases, ok, err, arith,
}
use zero_window.Prelude.Distinct.{AreDistinct}
use zero_window.Encoding.{from_hex}
use zero_window.Crypto.Sodium.{Sodium}
use zero_window.Crypto.Box.{Boxes}
use zero_window.Crypto.KekEngine.Custody.{KekRecipient, ReleaseResult, reconstruct_wrap_release}
use zero_window.Log.Store.{Writer}
use zero_window.Log.Types.{custodian_approved, early_release_attempt}
use zero_window.Authority.Store.{BundleRecord, ScheduleRecord, bundle, schedule}
use zero_window.Authority.Service.{
  Authority, AuthorityError, Outcome, too_early, budget_exceeded, unknown_bundle, no_schedule,
  schedule_tampered, lift_json, lift_kek, demand-cases, then_do-cases, IsLogged, log_event,
  log_event-IsLogged,
}
use zero_window.Authority.Release.{
  SubmittedShare, ReleaseOptions, ReleaseOutcome, WrappedFor, wrapped_for, release_budget_ms,
  custodian_ids, body_of_schedule, recipients_of, centre_ids_of, refuse_if, found,
  verify_schedule_signature, early_payload, approval_payload, log_approvals, refuse_early,
  check_submission, finish_release, release_now, perform_release,
}
use zero_window.Authority.Release.Checks.{
  AreEnrolled, found-some, refuse_if-false, lift_json-ok, lift_kek-ok, check_submission-ok,
}

module _ (sodium : Sodium) (boxes : Boxes) (ephemeral : ℕ → Bytes)
    (authority_public_key : Bytes) where
  -- The conditions of a release, on the authority as it is at the call.
  pub record IsAuthorised (opts : ReleaseOptions) (lifetime_us : ℕ) (authority : Authority)
      : Type 0 where
    pub bundle_row : BundleRecord
    pub schedule_row : ScheduleRecord
    pub recipients : List KekRecipient
    pub result : ReleaseResult
    pub is_known : bundle opts.bundle_id authority.store ≡ some bundle_row
    pub is_scheduled : schedule opts.bundle_id authority.store ≡ some schedule_row
    pub is_signed :
        verify_schedule_signature sodium
          (body_of_schedule schedule_row)
          schedule_row.signature
          authority_public_key
        ≡ ok true
    pub is_due : schedule_row.release_at ≤ opts.now
    pub are_enough : bundle_row.threshold ≤ length opts.shares
    pub are_distinct : AreDistinct (custodian_ids opts.shares)
    pub are_enrolled : AreEnrolled authority.store opts.shares
    pub are_some : centre_ids_of opts authority.store ≢ []
    pub are_centres :
        recipients_of (centre_ids_of opts authority.store) authority.store ≡ ok recipients
    pub is_reconstructed :
        reconstruct_wrap_release sodium boxes ephemeral
          (map (λ s. s.share_blob) opts.shares)
          recipients
          (from_hex bundle_row.kek_fingerprint)
          authority.engine
        ≡ ok result
    pub is_within_budget : lifetime_us ≤ release_budget_ms * 1000

IsLogged-trans : (a b c : Authority) → IsLogged a b → IsLogged b c → IsLogged a c
IsLogged-trans a b c (s, e) (t, f) = (t ∙ s, f ∙ e)

-- The call threw, and the tables and the keys are as they were.
abbrev pub IsRefusal : Authority → Outcome ReleaseOutcome → Type 0
IsRefusal before (result, after) = ((e : AuthorityError) × (result ≡ err e)) × IsLogged before after

module _ (sodium : Sodium) (writer : Writer) where
  log_approvals-IsLogged :
      (b : BundleRecord) (bundle_id : Text) (at : ℕ) (shares : List SubmittedShare)
      (authority : Authority)
      → IsLogged authority (log_approvals sodium writer b bundle_id at shares authority).1
  log_approvals-IsLogged b bundle_id at [] authority = (refl, refl)
  log_approvals-IsLogged b bundle_id at (s ∷ shares) authority =
      let o =
        log_event sodium writer custodian_approved (approval_payload sodium b bundle_id s) at
          authority in
      let first =
        log_event-IsLogged sodium writer custodian_approved (approval_payload sodium b bundle_id s)
          at authority in
      then_do-cases {A = Unit {0}} {B = Unit {0}} (λ o. IsLogged authority o.1) o
        (λ _. log_approvals sodium writer b bundle_id at shares) (λ e h. first)
        (λ _ h.
          IsLogged-trans authority o.1 (log_approvals sodium writer b bundle_id at shares o.1).1
            first (log_approvals-IsLogged b bundle_id at shares o.1))

  refuse_early-IsRefusal :
      (b : BundleRecord) (s : ScheduleRecord) (opts : ReleaseOptions) (authority : Authority)
      → IsRefusal authority (refuse_early sodium writer b s opts authority)
  unfolding refuse_early
  refuse_early-IsRefusal b s opts authority =
      let counted = record authority {
        early_attempts_total = suc authority.early_attempts_total;
      } in
      let logged =
        log_event-IsLogged sodium writer early_release_attempt (early_payload b s opts) opts.now
          counted in
      then_do-cases {A = Unit {0}} (IsRefusal authority)
        (log_event sodium writer early_release_attempt (early_payload b s opts) opts.now counted)
        (λ _ after. (err too_early, after)) (λ e h. ((e, refl), logged))
        (λ _ h. ((too_early, refl), logged))

finish_release_budget :
    (sodium : Sodium) (writer : Writer) (b : BundleRecord) (s : ScheduleRecord)
    (opts : ReleaseOptions) (lifetime_us : ℕ) (wrapped : List WrappedFor) (authority : Authority)
    → IsRefusal authority (finish_release sodium writer b s opts lifetime_us wrapped authority)
      ⊎ (lifetime_us ≤ release_budget_ms * 1000)
unfolding finish_release
finish_release_budget sodium writer b s opts lifetime_us wrapped authority =
    elim (Bool-cases (ltb (release_budget_ms * 1000) lifetime_us)) [
      | inl over ↦ rw (over, finish_release) (inl ((budget_exceeded, refl), (refl, refl)))
      | inr within ↦ inr (ground arith)
    ]

module _ (sodium : Sodium) (writer : Writer) (boxes : Boxes) (ephemeral : ℕ → Bytes)
    (authority_public_key : Bytes) where
  release_now-IsAuthorised :
      (b : BundleRecord) (s : ScheduleRecord) (opts : ReleaseOptions) (lifetime_us : ℕ)
      (authority : Authority)
      → bundle opts.bundle_id authority.store ≡ some b
      → schedule opts.bundle_id authority.store ≡ some s
      → verify_schedule_signature sodium (body_of_schedule s) s.signature authority_public_key
        ≡ ok true
      → ltb opts.now s.release_at ≡ false
      → IsRefusal authority (
          release_now sodium writer boxes ephemeral authority_public_key b s opts lifetime_us
            authority)
        ⊎ IsAuthorised sodium boxes ephemeral authority_public_key opts lifetime_us authority
  unfolding release_now
  release_now-IsAuthorised b s opts lifetime_us authority known scheduled signed due =
      let P : Outcome ReleaseOutcome → Type 0 = λ o.
        IsRefusal authority o
        ⊎ IsAuthorised sodium boxes ephemeral authority_public_key opts lifetime_us authority in
      let approved = log_approvals sodium writer b opts.bundle_id opts.now opts.shares authority in
      let logged =
        log_approvals-IsLogged sodium writer b opts.bundle_id opts.now opts.shares authority in
      demand-cases P (check_submission b opts authority.store) _ authority
        (λ e h. inl ((e, refl), (refl, refl)))
        (λ recipients h.
          then_do-cases P approved _ (λ e h2. inl ((e, refl), logged))
            (λ _ h2.
              demand-cases P
                (lift_kek (
                  reconstruct_wrap_release sodium boxes ephemeral
                    (map (λ s. s.share_blob) opts.shares) recipients (from_hex b.kek_fingerprint)
                    approved.1.engine))
                (λ result.
                  finish_release sodium writer b s opts lifetime_us
                    (map wrapped_for result.wrapped))
                approved.1 (λ e h3. inl ((e, refl), logged))
                (λ result h3.
                  let finished =
                    finish_release sodium writer b s opts lifetime_us
                      (map wrapped_for result.wrapped) approved.1 in
                  let conditions = check_submission-ok b opts authority.store recipients h in
                  elim (finish_release_budget sodium writer b s opts lifetime_us
                    (map wrapped_for result.wrapped) approved.1) [
                      | inl (thrown, kept) ↦
                          inl (thrown, IsLogged-trans authority approved.1 finished.1 logged kept)
                      | inr within ↦ inr (record {
                        bundle_row = b;
                        schedule_row = s;
                        recipients = recipients;
                        result = result;
                        is_known = known;
                        is_scheduled = scheduled;
                        is_signed = signed;
                        is_due = ground arith;
                        are_enough = conditions.0;
                        are_distinct = conditions.1;
                        are_enrolled = conditions.2;
                        are_some = conditions.3;
                        are_centres = conditions.4;
                        is_reconstructed =
                            subst
                              (λ e.
                                reconstruct_wrap_release sodium boxes ephemeral
                                  (map (λ s. s.share_blob) opts.shares) recipients
                                  (from_hex b.kek_fingerprint) e
                                ≡ ok result)
                              logged.1 (lift_kek-ok _ result h3);
                        is_within_budget = within;
                      })
                    ])))

  -- Every call of perform_release either throws and leaves the tables and the keys as they were, or
  -- meets all the conditions of a release: a known bundle, a schedule that verifies against the
  -- authority's key and whose time has come, at least as many shares as the threshold, from
  -- different enrolled custodians, some enrolled centres to release to, a key reconstructed from
  -- the shares with the fingerprint of the bundle, and the budget of its lifetime kept.
  pub perform_release-IsAuthorised :
      (opts : ReleaseOptions) (lifetime_us : ℕ) (authority : Authority)
      → IsRefusal authority (
          perform_release sodium writer boxes ephemeral authority_public_key opts lifetime_us
            authority)
        ⊎ IsAuthorised sodium boxes ephemeral authority_public_key opts lifetime_us authority
  unfolding perform_release
  perform_release-IsAuthorised opts lifetime_us authority =
      let P : Outcome ReleaseOutcome → Type 0 = λ o.
        IsRefusal authority o
        ⊎ IsAuthorised sodium boxes ephemeral authority_public_key opts lifetime_us authority in
      let refuse : (e : AuthorityError) → P (err e, authority) =
        λ e. inl ((e, refl), (refl, refl)) in
      demand-cases P (found (bundle opts.bundle_id authority.store) unknown_bundle) _ authority
        (λ e h. refuse e)
        (λ b known.
          demand-cases P (found (schedule opts.bundle_id authority.store) no_schedule) _ authority
            (λ e h. refuse e)
            (λ s scheduled.
              demand-cases P
                (lift_json (
                  verify_schedule_signature sodium (body_of_schedule s) s.signature
                    authority_public_key))
                _ authority (λ e h. refuse e)
                (λ valid signed.
                  demand-cases P (refuse_if (not valid) schedule_tampered) _ authority
                    (λ e h. refuse e)
                    (λ _ h.
                      let is_valid : valid ≡ true =
                        ground (arith, refuse_if-false (not valid) schedule_tampered h) in
                      if-cases P (ltb opts.now s.release_at)
                        (refuse_early sodium writer b s opts authority)
                        (release_now sodium writer boxes ephemeral authority_public_key b s opts
                          lifetime_us authority)
                        (λ early. inl (refuse_early-IsRefusal sodium writer b s opts authority))
                        (λ due.
                          release_now-IsAuthorised b s opts lifetime_us authority
                            (found-some (bundle opts.bundle_id authority.store) unknown_bundle b
                              known)
                            (found-some (schedule opts.bundle_id authority.store) no_schedule s
                              scheduled)
                            (subst
                              (λ v.
                                verify_schedule_signature sodium (body_of_schedule s) s.signature
                                  authority_public_key
                                ≡ ok v)
                              is_valid (lift_json-ok _ valid signed))
                            due)))))
