-- ===== src/Authority/Release.antt =====
-- packages/authority/src/release.ts: the threshold release. The time and the lifetime of the key in
-- memory, which clocks give, are arguments; warnings and the histogram are left out.
pub mod Checks
pub mod Recorded
pub mod Authorised
pub mod Evidence
pub mod Early
use zero_window.Prelude.{
  ℕ, suc, ◌*◌, ◌-◌, Bool, true, false, not, Bytes, Text, Option, none, some, List, [], ◌∷◌, map,
  any, length, ltb, ◌==◌, equals, if◌then◌else◌, Result, ok, err, map_ok, and_then,
}
use zero_window.Encoding.{to_hex, from_hex}
use zero_window.Crypto.Sodium.{Sodium}
use zero_window.Crypto.Hash.{codes, domain_hash, sign_domain, verify_domain}
use zero_window.Crypto.Box.{Boxes}
use zero_window.Crypto.KekEngine.{KekEngine}
use zero_window.Crypto.KekEngine.Custody.{
  KekRecipient, WrappedKek, ReleaseResult, reconstruct_wrap_release,
}
use zero_window.Log.Types.{early_release_attempt, custodian_approved, kek_released}
use zero_window.Log.Canonical.{Fields, end, field, array}
use zero_window.Log.Store.{Writer}
use zero_window.Authority.Json.{
  Json, JsonError, number, string, object, end as done, member, canonical_json,
}
use zero_window.Authority.Store.{
  AuthorityStore, BundleRecord, CentreRecord, ScheduleRecord, bundle, schedule, custodian, centre,
  distributed_centres, record_release,
}
use zero_window.Authority.Service.{
  Authority, AuthorityError, Outcome, unknown_bundle, no_schedule, schedule_tampered, too_early,
  insufficient_shares, share_invalid, no_recipients, budget_exceeded, then_do, demand, lift_json,
  lift_kek, texts, text_field, number_field, change_store, log_event,
}

abbrev pub release_budget_ms : ℕ
release_budget_ms = 500

abbrev pub schedule_domain : Text
schedule_domain = codes "release-schedule"

pub record ScheduleBody : Type 0 where
  pub v : ℕ
  pub exam_id : Text
  pub bundle_id : Text
  pub release_at : ℕ

unfoldable pub schedule_bytes : ScheduleBody → Result JsonError Bytes
schedule_bytes body = canonical_json (
    object (
      member (codes "v") (number body.v) (
        member (codes "examId") (string body.exam_id) (
          member (codes "bundleId") (string body.bundle_id)
            (member (codes "releaseAt") (number body.release_at) done)))))

pub record SubmittedShare : Type 0 where
  pub custodian_id : Text
  pub share_blob : Bytes

pub record ReleaseOptions : Type 0 where
  pub bundle_id : Text
  pub shares : List SubmittedShare
  pub centre_ids : Option (List Text)
  pub now : ℕ

pub record WrappedFor : Type 0 where
  pub centre_id : Text
  pub sealed : Bytes

pub record ReleaseOutcome : Type 0 where
  pub bundle_id : Text
  pub exam_id : Text
  pub wrapped : List WrappedFor
  pub custodians : List Text

abbrev pub custodian_ids : List SubmittedShare → List Text
custodian_ids shares = map (λ s. s.custodian_id) shares

abbrev pub body_of_schedule : ScheduleRecord → ScheduleBody
body_of_schedule s = record {
  v = 1;
  exam_id = s.exam_id;
  bundle_id = s.bundle_id;
  release_at = s.release_at;
}

-- The loop over the submitted shares; `seen` are the custodians so far.
unfoldable pub check_custodians :
    List Text → List SubmittedShare → AuthorityStore → Result AuthorityError (Unit {0})
check_custodians seen [] store = ok tt
check_custodians seen (s ∷ shares) store =
    let rest = check_custodians (s.custodian_id ∷ seen) shares store in
    if any (equals s.custodian_id) seen
    then err share_invalid
    else elim (custodian s.custodian_id store) [ none ↦ err share_invalid | some c ↦ rest ]

unfoldable pub recipients_of :
    List Text → AuthorityStore → Result AuthorityError (List KekRecipient)
recipients_of [] store = ok []
recipients_of (id ∷ ids) store =
    let rest = recipients_of ids store in
    elim (centre id store) [
      | none ↦ err no_recipients
      | some c ↦
          map_ok (◌∷◌ (record { recipient_id = id; box_public_key = from_hex c.box_public_key }))
            rest
    ]

abbrev pub centre_ids_of : ReleaseOptions → AuthorityStore → List Text
centre_ids_of opts store = elim opts.centre_ids [
  | some ids ↦ ids
  | none ↦ distributed_centres opts.bundle_id store
]

abbrev pub or_empty : List Text → Result AuthorityError (List Text)
or_empty [] = err no_recipients
or_empty (id ∷ ids) = ok (id ∷ ids)

abbrev pub wrapped_for : WrappedKek → WrappedFor
wrapped_for w = record { centre_id = w.recipient_id; sealed = w.sealed }

abbrev pub refuse_if : Bool → AuthorityError → Result AuthorityError (Unit {0})
refuse_if test e = if test then err e else ok tt

abbrev pub found : {A : Type 0} → Option A → AuthorityError → Result AuthorityError A
found none e = err e
found (some a) e = ok a

abbrev pub early_payload : BundleRecord → ScheduleRecord → ReleaseOptions → Fields
early_payload b s opts = text_field (codes "bundle_id") opts.bundle_id (
    text_field (codes "exam_id") b.exam_id (
      number_field (codes "release_at") s.release_at (
        number_field (codes "attempted_at") opts.now (
          number_field (codes "early_by_ms") (s.release_at - opts.now)
            (field (codes "custodian_ids") (array (texts (custodian_ids opts.shares))) end)))))

abbrev pub released_payload :
    BundleRecord
    → ScheduleRecord
    → ReleaseOptions
    → (centre_ids : List Text) → (lifetime_us : ℕ) → Fields
released_payload b s opts centre_ids lifetime_us = text_field (codes "bundle_id") opts.bundle_id (
    text_field (codes "exam_id") b.exam_id (
      text_field (codes "kek_fingerprint") b.kek_fingerprint (
        number_field (codes "threshold") b.threshold (
          field (codes "custodian_ids") (array (texts (custodian_ids opts.shares))) (
            field (codes "centre_ids") (array (texts centre_ids)) (
              number_field (codes "kek_lifetime_us") lifetime_us (
                number_field (codes "kek_budget_ms") release_budget_ms (
                  number_field (codes "scheduled_at") s.release_at
                    (number_field (codes "released_at") opts.now end)))))))))

abbrev pub store_releases : Text → ℕ → List WrappedFor → Authority → Outcome (Unit {0})
store_releases bundle_id at [] authority = (ok tt, authority)
store_releases bundle_id at (w ∷ ws) authority =
    then_do
      (change_store (record_release bundle_id w.centre_id at w.sealed authority.store) authority)
      (λ _. store_releases bundle_id at ws)

-- After the checks of the schedule: who submits, and to whom the key goes.
unfoldable pub check_submission :
    BundleRecord → ReleaseOptions → AuthorityStore → Result AuthorityError (List KekRecipient)
check_submission b opts store =
    and_then (refuse_if (ltb (length opts.shares) b.threshold) insufficient_shares) (λ _.
      and_then (check_custodians [] opts.shares store)
        (λ _. and_then (or_empty (centre_ids_of opts store)) (λ ids. recipients_of ids store)))

module _ (sodium : Sodium) where
  unfoldable pub sign_schedule : (secret_key : Bytes) → ScheduleBody → Result JsonError Text
  sign_schedule secret_key body =
      map_ok (λ bytes. to_hex (sign_domain sodium schedule_domain bytes secret_key))
        (schedule_bytes body)

  unfoldable pub verify_schedule_signature :
      ScheduleBody → (signature : Text) → (authority_public_key : Bytes) → Result JsonError Bool
  verify_schedule_signature body signature authority_public_key =
      map_ok
        (λ bytes.
          verify_domain sodium schedule_domain bytes (from_hex signature) authority_public_key)
        (schedule_bytes body)

  abbrev pub approval_payload : BundleRecord → Text → SubmittedShare → Fields
  approval_payload b bundle_id s = text_field (codes "bundle_id") bundle_id (
      text_field (codes "exam_id") b.exam_id (
        text_field (codes "custodian_id") s.custodian_id (
          text_field (codes "share_hash")
            (to_hex (domain_hash sodium (codes "submitted-share") (s.share_blob ∷ []))) end)))

  module _ (writer : Writer) where
    abbrev pub log_approvals :
        BundleRecord → Text → ℕ → List SubmittedShare → Authority → Outcome (Unit {0})
    log_approvals b bundle_id at [] authority = (ok tt, authority)
    log_approvals b bundle_id at (s ∷ shares) authority =
        then_do
          (log_event sodium writer custodian_approved (approval_payload b bundle_id s) at authority)
          (λ _. log_approvals b bundle_id at shares)

    unfoldable pub refuse_early :
        BundleRecord → ScheduleRecord → ReleaseOptions → Authority → Outcome ReleaseOutcome
    refuse_early b s opts authority =
        then_do
          (log_event sodium writer early_release_attempt (early_payload b s opts) opts.now
            (record authority { early_attempts_total = suc authority.early_attempts_total }))
          (λ _ authority. (err too_early, authority))

    -- After the provider has wrapped the key.
    unfoldable pub finish_release :
        BundleRecord
        → ScheduleRecord
        → ReleaseOptions
        → (lifetime_us : ℕ) → List WrappedFor
        → Authority
        → Outcome ReleaseOutcome
    finish_release b s opts lifetime_us wrapped authority =
        if ltb (release_budget_ms * 1000) lifetime_us
        then (
          err budget_exceeded,
          record authority { budget_exceeded_total = suc authority.budget_exceeded_total },
        )
        else then_do (store_releases opts.bundle_id opts.now wrapped authority) (λ _ authority.
          then_do
            (log_event sodium writer kek_released
              (released_payload b s opts (map (λ w. w.centre_id) wrapped) lifetime_us) opts.now
              authority)
            (λ _ authority. (
              ok (record {
                bundle_id = opts.bundle_id;
                exam_id = b.exam_id;
                wrapped = wrapped;
                custodians = custodian_ids opts.shares;
              }),
              record authority { releases_total = suc authority.releases_total },
            )))

    module _ (boxes : Boxes) (ephemeral : ℕ → Bytes) (authority_public_key : Bytes) where
      -- From T-0 on.
      unfoldable pub release_now :
          BundleRecord
          → ScheduleRecord
          → ReleaseOptions
          → (lifetime_us : ℕ) → Authority
          → Outcome ReleaseOutcome
      release_now b s opts lifetime_us authority =
          demand (check_submission b opts authority.store)
            (λ recipients authority.
              then_do (log_approvals b opts.bundle_id opts.now opts.shares authority)
                (λ _ authority.
                  demand
                    (lift_kek (
                      reconstruct_wrap_release sodium boxes ephemeral
                        (map (λ s. s.share_blob) opts.shares) recipients
                        (from_hex b.kek_fingerprint) authority.engine))
                    (λ result. finish_release b s opts lifetime_us (map wrapped_for result.wrapped))
                    authority))
            authority

      unfoldable pub perform_release :
          ReleaseOptions → (lifetime_us : ℕ) → Authority → Outcome ReleaseOutcome
      perform_release opts lifetime_us authority =
          demand (found (bundle opts.bundle_id authority.store) unknown_bundle)
            (λ b. demand (found (schedule opts.bundle_id authority.store) no_schedule) (λ s.
              demand
                (lift_json
                  (verify_schedule_signature (body_of_schedule s) s.signature authority_public_key))
                (λ valid. demand (refuse_if (not valid) schedule_tampered) (λ _ authority.
                  if ltb opts.now s.release_at
                  then refuse_early b s opts authority
                  else release_now b s opts lifetime_us authority))))
            authority
