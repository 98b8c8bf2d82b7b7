-- ===== src/Authority/Operations/Scheduled.antt =====
-- packages/authority/src/authority.ts and release.ts: a schedule that was set is the one that a
-- release obeys.
use zero_window.Prelude.{
  ℕ, ◌<◌, ◌≡◌, refl, sym, ap, subst, ◌∙◌, inl, inr, true, false, Bytes, Text, none, some,
  Bool-cases, Result-cases, List, [], ◌∷◌, ◌++◌, any, find, equals_refl, ok, map_ok-ok,
  ok-injective, arith,
}
use zero_window.Prelude.Search.{find-none}
use zero_window.Encoding.{from_hex}
use zero_window.Encoding.Laws.{from_hex-to_hex}
use zero_window.Crypto.Sodium.{Sodium, SodiumLaws}
use zero_window.Crypto.Hash.{codes, sign_domain, sign_domain-AreBytes, verify_domain-sign_domain}
use zero_window.Log.Types.{release_scheduled}
use zero_window.Log.Canonical.{Fields, end}
use zero_window.Log.Store.{Writer}
use zero_window.Log.Store.Chain.{IsChain}
use zero_window.Crypto.Box.{Boxes}
use zero_window.Authority.Store.{
  AuthorityStore, BundleRecord, ScheduleRecord, bundle, is_bundle, is_schedule, is_schedule_of,
  schedule, put_schedule, upsert,
}
use zero_window.Authority.Service.{
  Authority, Outcome, log_event-IsLogged, lift_json, text_field, number_field, demand-cases,
}
use zero_window.Authority.Release.{
  ReleaseOptions, perform_release, ScheduleBody, schedule_domain, schedule_bytes, body_of_schedule,
  sign_schedule, verify_schedule_signature,
}
use zero_window.Authority.Release.Checks.{lift_json-ok}
use zero_window.Authority.Service.Extended.{log_event-IsExtended}
use zero_window.Authority.Release.Early.{IsEarly, perform_release-IsEarly}
use zero_window.Authority.Operations.{schedule_release}

verify_schedule_signature-sign_schedule :
    (sodium : Sodium)
    → SodiumLaws sodium
    → (secret_key : Bytes) (body : ScheduleBody) (signature : Text)
    → sign_schedule sodium secret_key body ≡ ok signature
    → verify_schedule_signature sodium body signature (sodium.public_key secret_key) ≡ ok true
unfolding sign_schedule verify_schedule_signature
verify_schedule_signature-sign_schedule sodium laws secret_key body signature h =
    let signed = map_ok-ok _ (schedule_bytes body) signature h in
    let sig = sign_domain sodium schedule_domain signed.0 secret_key in
    let back : from_hex signature ≡ sig =
      ap from_hex (sym signed.2)
      ∙ from_hex-to_hex sig
          (sign_domain-AreBytes sodium laws schedule_domain signed.0 secret_key) in
    rw (signed.1, back)
      (ap ok (verify_domain-sign_domain sodium laws schedule_domain signed.0 secret_key))

any_weaker :
    (exam_id bundle_id : Text) (rows : List ScheduleRecord)
    → any (is_schedule_of bundle_id) rows ≡ false
    → any (is_schedule exam_id bundle_id) rows ≡ false
any_weaker exam_id bundle_id [] h = refl
any_weaker exam_id bundle_id (r ∷ rows) h = ground (arith, any_weaker exam_id bundle_id rows)

find-snoc :
    (bundle_id : Text) (rows : List ScheduleRecord) (r : ScheduleRecord)
    → find (is_schedule_of bundle_id) rows ≡ none
    → is_schedule_of bundle_id r ≡ true
    → find (is_schedule_of bundle_id) (rows ++ r ∷ []) ≡ some r
find-snoc bundle_id [] r h is_one = rw is_one refl
find-snoc bundle_id (x ∷ rows) r h is_one = elim (Bool-cases (is_schedule_of bundle_id x)) [
  | inl holds ↦ let found = rw holds at h in cc
  | inr fails ↦ rw fails (find-snoc bundle_id rows r (rw fails at h) is_one)
]

schedule-put_schedule :
    (r : ScheduleRecord) (store after : AuthorityStore)
    → schedule r.bundle_id store ≡ none
    → put_schedule r store ≡ ok after
    → schedule r.bundle_id after ≡ some r
unfolding schedule put_schedule upsert
schedule-put_schedule r store after unscheduled h =
    let fresh =
      any_weaker r.exam_id r.bundle_id store.schedules
        (find-none (is_schedule_of r.bundle_id) store.schedules unscheduled) in
    elim (Bool-cases (any (is_bundle r.bundle_id) store.bundles)) [
      | inr missing ↦ let refused = rw (missing, put_schedule) at h in cc
      | inl known ↦
          let kept = ok-injective (rw (known, fresh, put_schedule, upsert) at h) in
          subst (λ (t : AuthorityStore). find (is_schedule_of r.bundle_id) t.schedules ≡ some r)
            kept (find-snoc r.bundle_id store.schedules r unscheduled (equals_refl r.bundle_id))
    ]

put_schedule_bundles :
    (r : ScheduleRecord) (store after : AuthorityStore)
    → put_schedule r store ≡ ok after
    → after.bundles ≡ store.bundles
unfolding put_schedule
put_schedule_bundles r store after h = ground arith

module _ (sodium : Sodium) (laws : SodiumLaws sodium) (writer : Writer) where
  -- The row that a call of schedule_release left.
  abbrev pub IsScheduled : Text → ℕ → Authority → Authority → Type 0
  IsScheduled bundle_id release_at before after =
      (s : ScheduleRecord) × (schedule bundle_id after.store ≡ some s)
      × (s.release_at ≡ release_at)
      × (verify_schedule_signature sodium (body_of_schedule s) s.signature
            (sodium.public_key writer.secret_key)
          ≡ ok true)
      × (after.store.bundles ≡ before.store.bundles)
      × IsChain sodium after.log.entries

  schedule_release-IsScheduled :
      (exam_id bundle_id : Text) (release_at at : ℕ) (authority : Authority)
      → IsChain sodium authority.log.entries
      → schedule bundle_id authority.store ≡ none
      → (schedule_release sodium writer exam_id bundle_id release_at at authority).0 ≡ ok tt
      → IsScheduled bundle_id release_at authority
          (schedule_release sodium writer exam_id bundle_id release_at at authority).1
  unfolding schedule_release
  schedule_release-IsScheduled exam_id bundle_id release_at at authority chain unscheduled =
      let P : Outcome (Unit {0}) → Type 0 =
        λ r. r.0 ≡ ok tt → IsScheduled bundle_id release_at authority r.1 in
      let body : ScheduleBody = record {
        v = 1;
        exam_id = exam_id;
        bundle_id = bundle_id;
        release_at = release_at;
      } in
      demand-cases {A = Text} P (lift_json (sign_schedule sodium writer.secret_key body)) _
        authority (λ x h done. cc)
        (λ signature h.
          let row : ScheduleRecord = record {
            exam_id = exam_id;
            bundle_id = bundle_id;
            release_at = release_at;
            signature = signature;
            created_at = at;
          } in
          let payload : Fields = text_field (codes "bundle_id") bundle_id (
            text_field (codes "exam_id") exam_id (
              number_field (codes "release_at") release_at
                (text_field (codes "schedule_signature") signature end))) in
          elim (Result-cases (put_schedule row authority.store)) [
            | inr (x, e) ↦ rw e (λ done. cc)
            | inl (store, e) ↦
                let stored = record authority { store = store } in
                let same = log_event-IsLogged sodium writer release_scheduled payload at stored in
                rw e (λ done.
                  elim (log_event-IsExtended sodium laws writer release_scheduled payload at stored
                    chain) [
                      | inr (x, failed) ↦ cc
                      | inl (logged, grown) ↦ (
                        row,
                        ap (schedule bundle_id) same.0
                            ∙ schedule-put_schedule row authority.store store unscheduled e,
                        refl,
                        verify_schedule_signature-sign_schedule sodium laws writer.secret_key body
                            signature (lift_json-ok _ signature h),
                        ap (λ (t : AuthorityStore). t.bundles) same.0
                            ∙ put_schedule_bundles row authority.store store e,
                        grown.2,
                      )
                    ])
          ])

  -- If schedule_release sets the first schedule of a bundle that the authority has, then every call of
  -- perform_release for that bundle with an earlier time, made on the authority as it is then, is
  -- refused as an early attempt and leaves its evidence in the log, unless the append throws.
  pub perform_release-schedule_release :
      (boxes : Boxes) (ephemeral : ℕ → Bytes) (exam_id : Text) (release_at at : ℕ)
      (authority : Authority) (opts : ReleaseOptions) (lifetime_us : ℕ) (b : BundleRecord)
      → IsChain sodium authority.log.entries
      → bundle opts.bundle_id authority.store ≡ some b
      → schedule opts.bundle_id authority.store ≡ none
      → (schedule_release sodium writer exam_id opts.bundle_id release_at at authority).0 ≡ ok tt
      → opts.now < release_at
      → (s : ScheduleRecord) × (s.release_at ≡ release_at)
        × IsEarly sodium opts
            (schedule_release sodium writer exam_id opts.bundle_id release_at at authority).1
            b
            s
            (perform_release sodium writer boxes ephemeral
              (sodium.public_key writer.secret_key)
              opts
              lifetime_us
              (schedule_release sodium writer exam_id opts.bundle_id release_at at authority).1)
  unfolding bundle
  perform_release-schedule_release boxes ephemeral exam_id release_at at authority opts lifetime_us
        b chain known unscheduled done early =
      let after =
        (schedule_release sodium writer exam_id opts.bundle_id release_at at authority).1 in
      let set_to =
        schedule_release-IsScheduled exam_id opts.bundle_id release_at at authority chain
          unscheduled done in
      (
        set_to.0,
        set_to.2,
        perform_release-IsEarly sodium laws writer boxes ephemeral
            (sodium.public_key writer.secret_key) opts lifetime_us after b set_to.0 set_to.5
            (ap (find (is_bundle opts.bundle_id)) set_to.4 ∙ known) set_to.1 set_to.3
            (omega (arith, set_to.2)),
      )
