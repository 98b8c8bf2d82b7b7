-- ===== src/Centre/Ledger/Custody.antt =====
-- packages/centre/src/centre.ts: each call keeps the tables and the log consistent, and none breaks a
-- constraint of the schema.
use zero_window.Prelude.{
  ℕ, ◌≡◌, refl, Bytes, Text, Option, none, some, [], ◌∷◌, ◌++◌, find, equals, Bool-cases,
  Option-cases, Result-cases, inl, inr,
}
use zero_window.Encoding.{to_hex, from_hex}
use zero_window.Crypto.Sodium.{Sodium}
use zero_window.Crypto.Hash.{codes, domain_hash}
use zero_window.Crypto.Aead.{parse_aead}
use zero_window.Crypto.KekEngine.{import_kek}
use zero_window.Authority.Admit.{AdmitToken, Expected, verify_admit_token}
use zero_window.Authority.Medium.{OfflineReleaseMedium, verify_offline_medium}
use zero_window.Centre.Store.{
  CentreBundleRecord, CheckinRecord, bundle, checkin_by_token, checkin_by_seat,
}
use zero_window.Centre.Node.{
  Outside, CentreOptions, CentreNode, Outcome, ExpectedBundle, receive_bundle, accept_kek,
  receive_wrapped_kek, receive_offline_medium, kek_id_of, hold_kek, is_for,
}
use zero_window.Log.Types.{candidate_checked_in}
use zero_window.Centre.ExamDay.{admit, checkin_payload, check_in}
use zero_window.Centre.Ledger.{IsSound}
use zero_window.Centre.Ledger.Effects.{add_bundle, add_checkin}
use zero_window.Centre.Ledger.Appends.{IsFine, log_event_cases, log_event-IsFine}

module _ (sodium : Sodium) (outside : Outside) (opts : CentreOptions) where
  abbrev Fine : {A : Type 0} → Outcome A → Type 0
  Fine out = IsFine sodium outside opts out

  pub receive_bundle-IsFine :
      (envelope : Bytes) (expected : ExpectedBundle) (at : ℕ) (node : CentreNode)
      → IsSound sodium outside opts node
      → Fine (receive_bundle sodium outside opts envelope expected at node)
  unfolding receive_bundle
  receive_bundle-IsFine envelope expected at node sound =
      elim (Bool-cases (
        equals (to_hex (domain_hash sodium (codes "bundle-envelope") (envelope ∷ [])))
          expected.bundle_hash)) [
            | inr differs ↦ rw (differs) (sound, λ e q. absurd cc)
            | inl agrees ↦ elim (Result-cases (parse_aead envelope)) [
              | inr (e, failed) ↦ rw (agrees, failed) (sound, λ e q. absurd cc)
              | inl (ct, parsed) ↦ elim (Option-cases (bundle expected.bundle_id node.store)) [
                | inr (old, held) ↦ rw (agrees, parsed, held) (sound, λ e q. absurd cc)
                | inl free ↦
                    let r : CentreBundleRecord = record {
                      bundle_id = expected.bundle_id;
                      exam_id = expected.exam_id;
                      kind = expected.kind;
                      bundle_hash = expected.bundle_hash;
                      kek_fingerprint = expected.kek_fingerprint;
                      threshold = expected.threshold;
                      received_at = at;
                      ciphertext = envelope;
                    } in
                    let (put, kept) =
                      add_bundle sodium outside opts node.store node.log node.checkins_total
                        node.papers_generated node.failed_appends r free sound in
                    rw (agrees, parsed, free, put)
                      (log_event-IsFine sodium outside opts _ _ at
                        (record node {
                          store = record node.store { bundles = node.store.bundles ++ r ∷ [] };
                        })
                        refl refl kept)
              ]
            ]
          ]

  accept_kek-IsFine :
      (bundle_id : Text) (b : CentreBundleRecord) (fp : Bytes) (at : ℕ) (node : CentreNode)
      → IsSound sodium outside opts node
      → Fine (accept_kek sodium outside opts bundle_id b fp at node)
  accept_kek-IsFine bundle_id b fp at node sound =
      elim (Bool-cases (equals (to_hex fp) b.kek_fingerprint)) [
        | inr differs ↦ rw (differs) (sound, λ e q. absurd cc)
        | inl agrees ↦ rw (agrees) (
            log_event-IsFine sodium outside opts _ _ at
              (record node { held_keks = hold_kek bundle_id (kek_id_of bundle_id) node.held_keks })
              refl refl sound)
      ]

  pub receive_wrapped_kek-IsFine :
      (bundle_id : Text) (sealed : Bytes) (at : ℕ) (node : CentreNode)
      → IsSound sodium outside opts node
      → Fine (receive_wrapped_kek sodium outside opts bundle_id sealed at node)
  unfolding receive_wrapped_kek
  receive_wrapped_kek-IsFine bundle_id sealed at node sound =
      elim (Option-cases (bundle bundle_id node.store)) [
        | inl unknown ↦ rw (unknown, receive_wrapped_kek) (sound, λ e q. absurd cc)
        | inr (b, known) ↦ elim (Option-cases (outside.open_box sealed)) [
          | inl closed ↦ rw (known, closed, receive_wrapped_kek) (sound, λ e q. absurd cc)
          | inr (raw, opened) ↦
              elim (Result-cases (import_kek sodium (kek_id_of bundle_id) raw node.engine).0) [
                | inr (e, refused) ↦
                    rw (known, opened, refused, receive_wrapped_kek) (sound, λ e q. absurd cc)
                | inl (fp, imported) ↦
                    rw (known, opened, imported, receive_wrapped_kek)
                      (accept_kek-IsFine bundle_id b fp at
                        (record node {
                          engine = (import_kek sodium (kek_id_of bundle_id) raw node.engine).1;
                        })
                        sound)
              ]
        ]
      ]

  pub receive_offline_medium-IsFine :
      (medium : OfflineReleaseMedium) (at : ℕ) (node : CentreNode)
      → IsSound sodium outside opts node
      → Fine (receive_offline_medium sodium outside opts medium at node)
  unfolding receive_offline_medium
  receive_offline_medium-IsFine medium at node sound =
      elim (Result-cases (verify_offline_medium sodium medium opts.authority_public_key)) [
        | inr (e, failed) ↦ rw (failed, receive_offline_medium) (sound, λ e q. absurd cc)
        | inl (valid, verified) ↦ elim (Bool-cases valid) [
          | inr forged ↦ rw (verified, forged, receive_offline_medium) (sound, λ e q. absurd cc)
          | inl genuine ↦ elim (Option-cases (find (is_for opts.centre_id) medium.body.entries)) [
            | inl none_for_us ↦
                rw (verified, genuine, none_for_us, receive_offline_medium)
                  (sound, λ e q. absurd cc)
            | inr (entry, ours) ↦
                rw (verified, genuine, ours, receive_offline_medium)
                  (receive_wrapped_kek-IsFine medium.body.bundle_id (from_hex entry.sealed_hex) at
                    node sound)
          ]
        ]
      ]

  admit-IsFine :
      (token : AdmitToken) (token_hash : Text) (at : ℕ) (node : CentreNode)
      → checkin_by_token token_hash node.store ≡ none
      → checkin_by_seat token.body.seat node.store ≡ none
      → IsSound sodium outside opts node
      → Fine (admit sodium outside opts token token_hash at node)
  admit-IsFine token token_hash at node new_token free_seat sound =
      let r : CheckinRecord = record {
        token_hash = token_hash;
        seat = token.body.seat;
        registration_hash = token.body.registration_hash;
        checked_in_at = at;
      } in
      let (put, counted, uncounted) =
        add_checkin sodium outside opts node.store node.log node.checkins_total
          node.papers_generated node.failed_appends r new_token free_seat sound in
      let stored : CentreNode = record node {
        store = record node.store { checkins = node.store.checkins ++ r ∷ [] };
      } in
      elim (log_event_cases outside candidate_checked_in (checkin_payload sodium outside opts r) at
        stored) [
          | inl works ↦ rw (put, works, admit) (counted, λ e q. absurd cc)
          | inr throws ↦ rw (put, throws, admit) (uncounted, λ e q. absurd cc)
        ]

  pub check_in-IsFine :
      (token : Option AdmitToken) (now at : ℕ) (node : CentreNode)
      → IsSound sodium outside opts node
      → Fine (check_in sodium outside opts token now at node)
  unfolding check_in
  check_in-IsFine none now at node sound = (sound, λ e q. absurd cc)
  check_in-IsFine (some token) now at node sound =
      let expect : Expected = record {
        exam_id = opts.exam_id;
        centre_id = opts.centre_id;
        now = now;
      } in
      elim (Result-cases (verify_admit_token sodium token opts.authority_public_key expect)) [
        | inr (e, failed) ↦ rw (failed, check_in) (sound, λ e q. absurd cc)
        | inl (verdict, verified) ↦ elim (Result-cases verdict) [
          | inr (code, refused) ↦ rw (verified, refused, check_in) (sound, λ e q. absurd cc)
          | inl (hash, passed) ↦ elim (Option-cases (checkin_by_token (to_hex hash) node.store)) [
            | inr (old, twice) ↦ rw (verified, passed, twice, check_in) (sound, λ e q. absurd cc)
            | inl new_token ↦ elim (Option-cases (checkin_by_seat token.body.seat node.store)) [
              | inr (old, taken) ↦
                  rw (verified, passed, new_token, taken, check_in) (sound, λ e q. absurd cc)
              | inl free_seat ↦
                  rw (verified, passed, new_token, free_seat, check_in)
                    (admit-IsFine token (to_hex hash) at node new_token free_seat sound)
            ]
          ]
        ]
      ]
