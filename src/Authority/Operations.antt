-- ===== src/Authority/Operations.antt =====
-- packages/authority/src/authority.ts: the operations of the authority service. The time of each
-- call is an argument, and gauges, histograms and health checks are left out.
pub mod Scheduled
use zero_window.Prelude.{
  ℕ, Bytes, Text, Option, none, some, List, [], ◌∷◌, map, length, Result, ok, err, map_ok, and_then,
}
use zero_window.Encoding.{to_hex, from_hex}
use zero_window.Crypto.Sodium.{Sodium}
use zero_window.Crypto.Hash.{codes}
use zero_window.Crypto.Aead.{Ciphers}
use zero_window.Crypto.Box.{Boxes}
use zero_window.Crypto.KekEngine.Custody.{CustodianRecipient}
use zero_window.Log.Types.{centre_enrolled, admit_tokens_issued, release_scheduled, exam_closed}
use zero_window.Log.Canonical.{Fields, end, field, array}
use zero_window.Log.Store.{Writer}
use zero_window.Authority.Bank.{ItemBank, Blueprint}
use zero_window.Authority.Json.{JsonError}
use zero_window.Authority.Admit.{AdmitToken, issue_admit_token, admit_token_hash, registration_hash}
use zero_window.Authority.Medium.{OfflineReleaseMedium, Wrapped, build_offline_medium}
use zero_window.Authority.Store.{
  AuthorityStore, CentreRecord, CustodianRecord, AdmitTokenRecord, bundle,
  enrol_centre as store_centre, enrol_custodian as store_custodian, custodians_by_id,
  put_admit_token, put_schedule,
}
use zero_window.Authority.Service.{
  Authority, AuthorityError, Outcome, unknown_bundle, then_do, demand, lift_json, texts, text_field,
  number_field, change_store, log_event,
}
use zero_window.Authority.Release.{
  ReleaseOptions, ReleaseOutcome, WrappedFor, found, sign_schedule, perform_release,
}
use zero_window.Authority.Provision.{ProvisionOptions, ProvisionResult, Draws, provision_exam}

-- The arguments of `enrolCentre` and of `enrolCustodian`.
pub record CentreEnrolment : Type 0 where
  pub centre_id : Text
  pub box_public_key : Bytes
  pub cert_fingerprint : Text
  pub hardware_id : Text

pub record CustodianEnrolment : Type 0 where
  pub custodian_id : Text
  pub name : Text
  pub box_public_key : Bytes
  pub cert_fingerprint : Text

pub record Candidate : Type 0 where
  pub registration_id : Text
  pub seat : Text

pub record AdmitOptions : Type 0 where
  pub exam_id : Text
  pub centre_id : Text
  pub salt : Bytes
  pub expires_at : ℕ
  pub candidates : List Candidate

unfoldable pub enrol_custodian : CustodianEnrolment → (at : ℕ) → Authority → Authority
enrol_custodian r at authority = record authority {
  store =
      store_custodian
        (record {
          custodian_id = r.custodian_id;
          name = r.name;
          box_public_key = to_hex r.box_public_key;
          cert_fingerprint = r.cert_fingerprint;
          enrolled_at = at;
        })
        authority.store;
}

abbrev pub recipient_from : CustodianRecord → CustodianRecipient
recipient_from c = record {
  custodian_id = c.custodian_id;
  box_public_key = from_hex c.box_public_key;
}

-- The custodians given, or all that are enrolled.
abbrev pub default_custodians :
    Option (List CustodianRecipient) → AuthorityStore → List CustodianRecipient
default_custodians (some custodians) store = custodians
default_custodians none store = map recipient_from (custodians_by_id store)

module _ (sodium : Sodium) where
  abbrev pub token_for :
      (secret_key : Bytes) → AdmitOptions → Candidate → Result JsonError AdmitToken
  token_for secret_key opts c = issue_admit_token sodium secret_key (record {
    exam_id = opts.exam_id;
    centre_id = opts.centre_id;
    seat = c.seat;
    registration_hash = registration_hash sodium opts.salt c.registration_id;
    expires_at = opts.expires_at;
  })

  abbrev pub issue_tokens :
      (secret_key : Bytes) → AdmitOptions → List Candidate → Result JsonError (List AdmitToken)
  issue_tokens secret_key opts [] = ok []
  issue_tokens secret_key opts (c ∷ candidates) =
      and_then (token_for secret_key opts c)
        (λ t. map_ok (◌∷◌ t) (issue_tokens secret_key opts candidates))

  -- The rows of the tokens; each token goes with the candidate of its place.
  abbrev pub put_tokens :
      AdmitOptions → ℕ → List AdmitToken → List Candidate → Authority → Outcome (Unit {0})
  put_tokens opts at [] candidates authority = (ok tt, authority)
  put_tokens opts at (t ∷ tokens) [] authority = (ok tt, authority)
  put_tokens opts at (t ∷ tokens) (c ∷ candidates) authority =
      demand (lift_json (admit_token_hash sodium t.body))
        (λ hash authority.
          then_do
            (change_store
              (put_admit_token
                (record {
                  token_hash = to_hex hash;
                  exam_id = opts.exam_id;
                  centre_id = opts.centre_id;
                  seat = c.seat;
                  issued_at = at;
                })
                authority.store)
              authority)
            (λ _. put_tokens opts at tokens candidates))
        authority

  abbrev pub token_hashes : List AdmitToken → Result JsonError (List Text)
  token_hashes [] = ok []
  token_hashes (t ∷ tokens) =
      and_then (admit_token_hash sodium t.body)
        (λ hash. map_ok (◌∷◌ (to_hex hash)) (token_hashes tokens))

  module _ (writer : Writer) where
    unfoldable pub enrol_centre : CentreEnrolment → (at : ℕ) → Authority → Outcome (Unit {0})
    enrol_centre r at authority =
        log_event sodium writer centre_enrolled
          (text_field (codes "centre_id") r.centre_id (
            text_field (codes "cert_fingerprint") r.cert_fingerprint (
              text_field (codes "hardware_id") r.hardware_id
                (text_field (codes "box_public_key") (to_hex r.box_public_key) end))))
          at
          (record authority {
            store =
                store_centre
                  (record {
                    centre_id = r.centre_id;
                    box_public_key = to_hex r.box_public_key;
                    cert_fingerprint = r.cert_fingerprint;
                    hardware_id = r.hardware_id;
                    enrolled_at = at;
                  })
                  authority.store;
          })

    unfoldable pub issue_admit_tokens :
        AdmitOptions → (at : ℕ) → Authority → Outcome (List AdmitToken)
    issue_admit_tokens opts at authority =
        demand (lift_json (issue_tokens writer.secret_key opts opts.candidates))
          (λ tokens authority. then_do (put_tokens opts at tokens opts.candidates authority) (λ _.
            demand (lift_json (token_hashes tokens)) (λ hashes authority.
              then_do
                (log_event sodium writer admit_tokens_issued
                  (text_field (codes "exam_id") opts.exam_id (
                    text_field (codes "centre_id") opts.centre_id (
                      number_field (codes "count") (length tokens) (
                        number_field (codes "expires_at") opts.expires_at
                          (field (codes "token_hashes") (array (texts hashes)) end)))))
                  at authority)
                (λ _ authority. (ok tokens, authority)))))
          authority

    unfoldable pub schedule_release :
        (exam_id bundle_id : Text) → (release_at at : ℕ) → Authority → Outcome (Unit {0})
    schedule_release exam_id bundle_id release_at at authority =
        demand
          (lift_json (
            sign_schedule sodium writer.secret_key (record {
              v = 1;
              exam_id = exam_id;
              bundle_id = bundle_id;
              release_at = release_at;
            })))
          (λ signature authority.
            then_do
              (change_store
                (put_schedule
                  (record {
                    exam_id = exam_id;
                    bundle_id = bundle_id;
                    release_at = release_at;
                    signature = signature;
                    created_at = at;
                  })
                  authority.store)
                authority)
              (λ _.
                log_event sodium writer release_scheduled
                  (text_field (codes "bundle_id") bundle_id (
                    text_field (codes "exam_id") exam_id (
                      number_field (codes "release_at") release_at
                        (text_field (codes "schedule_signature") signature end))))
                  at))
          authority

    unfoldable pub close_exam :
        (exam_id centre_id : Text) → (at : ℕ) → Authority → Outcome (Unit {0})
    close_exam exam_id centre_id at authority =
        log_event sodium writer exam_closed
          (text_field (codes "exam_id") exam_id (text_field (codes "centre_id") centre_id end)) at
          authority

    module _ (boxes : Boxes) (ephemeral : ℕ → Bytes) where
      -- The log's signing key is the authority's.
      unfoldable pub release_offline :
          ReleaseOptions
          → (lifetime_us : ℕ) → Authority
          → Outcome (ReleaseOutcome × OfflineReleaseMedium)
      release_offline opts lifetime_us authority =
          then_do
            (perform_release sodium writer boxes ephemeral (sodium.public_key writer.secret_key)
              opts lifetime_us authority)
            (λ outcome authority.
              demand (found (bundle opts.bundle_id authority.store) unknown_bundle)
                (λ b.
                  demand
                    (lift_json (
                      build_offline_medium sodium outcome.bundle_id outcome.exam_id
                        (map
                          (λ (w : WrappedFor). record {
                            centre_id = w.centre_id;
                            sealed = w.sealed;
                          })
                          outcome.wrapped)
                        b.kek_fingerprint writer.secret_key opts.now))
                    (λ medium authority. (ok (outcome, medium), authority)))
                authority)

    module _ (ciphers : Ciphers) (boxes : Boxes) where
      unfoldable pub provision :
          ItemBank
          → Blueprint
          → (threshold : ℕ) → Option (List CustodianRecipient)
          → (paper_draws answers_draws : Draws) → Authority
          → Outcome ProvisionResult
      provision bank blueprint threshold custodians paper_draws answers_draws authority =
          provision_exam sodium writer ciphers boxes
            (record {
              bank = bank;
              blueprint = blueprint;
              custodians = default_custodians custodians authority.store;
              threshold = threshold;
            })
            paper_draws answers_draws authority
