-- ===== src/Authority/Provision.antt =====
-- packages/authority/src/provision.ts and bank.ts: building, encrypting and splitting the two
-- bundles of an exam, and their distribution. The random values and the clock's answers for a
-- bundle are one record.
pub mod Recorded
pub mod Built
pub mod Entries
pub mod Described
pub mod Recovered
use zero_window.Prelude.{
  ℕ, suc, ◌-◌, ◌<◌, ◌≡◌, Bool, true, false, not, Bytes, Text, Option, none, some, List, [], ◌∷◌,
  ◌++◌, map, any, length, ltb, ◌==◌, equals, if◌then◌else◌, Result, ok, err, map_ok, and_then,
}
use zero_window.Encoding.{to_hex, from_hex}
use zero_window.Crypto.Sodium.{Sodium}
use zero_window.Crypto.Hash.{codes, domain_hash}
use zero_window.Crypto.Aead.{Ciphers, serialize_aead}
use zero_window.Crypto.Box.{Boxes}
use zero_window.Crypto.KekEngine.{KekEngine, KekError, generate, encrypt, Outcome as KekOutcome}
use zero_window.Crypto.KekEngine.Custody.{CustodianRecipient, EncryptedShare, split_and_destroy}
use zero_window.Log.Types.{bundle_created, shares_issued, bundle_distributed}
use zero_window.Log.Canonical.{
  Fields, Items, Value, end, field, array, nil, cons, object as log_object,
}
use zero_window.Log.Store.{Writer}
use zero_window.Authority.Bank.{
  ItemBank, Blueprint, BlueprintSlot, PaperItem, PaperBundleContent, Answer, AnswerBundleContent,
  Problem, difficulty_name, validate_bank, split_bank,
}
use zero_window.Authority.Json.{
  Json, JsonError, number, string, array as json_array, elements, object, end as done, member,
  canonical_json,
}
use zero_window.Centre.Store.{BundleKind, paper_bundle, answers_bundle}
use zero_window.Authority.Store.{
  AuthorityStore, BundleRecord, ShareRecord, bundle, custodian, centre, put_bundle, put_share,
  record_distribution,
}
use zero_window.Authority.Service.{
  Authority, AuthorityError, Outcome, unknown_bundle, low_threshold, too_few_custodians,
  custodian_not_enrolled, centre_not_enrolled, bank_invalid, provider_failed, then_do, demand,
  lift_json, lift_kek, texts, text_field, number_field, change_store, log_event,
}
use zero_window.Authority.Release.{refuse_if, found}
use zero_window.Authority.Content.{paper_json, answers_json}

abbrev pub kind_name : BundleKind → Text
kind_name paper_bundle = codes "paper"
kind_name answers_bundle = codes "answers"

unfoldable pub bundle_id_of : (exam_id : Text) → BundleKind → Text
bundle_id_of exam_id kind = exam_id ++ codes ":" ++ kind_name kind

unfoldable pub bundle_associated_data : Text → BundleKind → Text → Result JsonError Bytes
bundle_associated_data id kind exam_id = canonical_json (
    object (
      member (codes "bundleId") (string id) (
        member (codes "kind") (string (kind_name kind))
          (member (codes "examId") (string exam_id) (member (codes "v") (number 1) done)))))

-- What the provider draws and the clock says while one bundle is built.
pub record Draws : Type 0 where
  pub kek : Bytes
  pub nonce : Bytes
  pub fill : ℕ → ℕ → Bytes
  pub ephemeral : ℕ → Bytes
  pub created_at : ℕ

pub record ProvisionOptions : Type 0 where
  pub bank : ItemBank
  pub blueprint : Blueprint
  pub custodians : List CustodianRecipient
  pub threshold : ℕ

pub record ProvisionedBundle : Type 0 where
  pub bundle_id : Text
  pub kind : BundleKind
  pub bundle_hash : Text
  pub content_hash : Text
  pub kek_fingerprint : Text

pub record ProvisionResult : Type 0 where
  pub exam_id : Text
  pub paper : ProvisionedBundle
  pub answers : ProvisionedBundle

-- A call of the provider that changes the keys it holds.
abbrev pub change_engine : {A : Type 0} → KekOutcome A → Authority → Outcome A
change_engine (r, engine) authority = (lift_kek r, record authority { engine = engine })

unfoldable pub all_enrolled :
    List CustodianRecipient → AuthorityStore → Result AuthorityError (Unit {0})
all_enrolled [] store = ok tt
all_enrolled (c ∷ custodians) store =
    let rest = all_enrolled custodians store in
    elim (custodian c.custodian_id store) [ none ↦ err custodian_not_enrolled | some r ↦ rest ]

abbrev pub lift_bank : Result (List Problem) Unit → Result AuthorityError (Unit {0})
lift_bank (ok u) = ok tt
lift_bank (err problems) = err (bank_invalid problems)

abbrev pub share_row : Text → ℕ → EncryptedShare → ShareRecord
share_row id at s = record {
  bundle_id = id;
  custodian_id = s.custodian_id;
  x = s.x;
  sealed = s.sealed;
  issued_at = at;
}

abbrev pub put_shares : Text → ℕ → List EncryptedShare → Authority → Outcome (Unit {0})
put_shares id at [] authority = (ok tt, authority)
put_shares id at (s ∷ shares) authority =
    then_do (change_store (put_share (share_row id at s) authority.store) authority)
      (λ _. put_shares id at shares)

module _ (sodium : Sodium) where
  unfoldable pub content_hash_of : (canonical : Bytes) → Bytes
  content_hash_of canonical = domain_hash sodium (codes "bundle-content") (canonical ∷ [])

  abbrev pub bundle_row :
      ProvisionOptions
      → BundleKind
      → Draws
      → (fingerprint canonical envelope : Bytes) → List EncryptedShare
      → BundleRecord
  bundle_row opts kind draws fingerprint canonical envelope shares = record {
    bundle_id = bundle_id_of opts.bank.exam_id kind;
    exam_id = opts.bank.exam_id;
    kind = kind;
    bundle_hash = to_hex (domain_hash sodium (codes "bundle-envelope") (envelope ∷ []));
    content_hash = to_hex (content_hash_of canonical);
    kek_fingerprint = to_hex fingerprint;
    threshold = opts.threshold;
    share_count = length shares;
    created_at = draws.created_at;
    ciphertext = envelope;
  }

  abbrev pub created_payload : ProvisionOptions → BundleRecord → Fields
  created_payload opts b = text_field (codes "bundle_id") b.bundle_id (
      text_field (codes "exam_id") b.exam_id (
        text_field (codes "kind") (kind_name b.kind) (
          text_field (codes "bundle_hash") b.bundle_hash (
            text_field (codes "content_hash") b.content_hash (
              text_field (codes "kek_fingerprint") b.kek_fingerprint (
                number_field (codes "threshold") b.threshold (
                  number_field (codes "share_count") b.share_count
                    (number_field (codes "item_count") (length opts.bank.items) end))))))))

  abbrev pub issued_items : List EncryptedShare → Items
  issued_items [] = nil
  issued_items (s ∷ shares) =
      cons
        (log_object (
          text_field (codes "custodian_id") s.custodian_id (
            number_field (codes "x") s.x (
              text_field (codes "sealed_hash")
                (to_hex (domain_hash sodium (codes "sealed-share") (s.sealed ∷ []))) end))))
        (issued_items shares)

  abbrev pub issued_payload : BundleRecord → List EncryptedShare → Fields
  issued_payload b shares = text_field (codes "bundle_id") b.bundle_id (
      text_field (codes "exam_id") b.exam_id (
        number_field (codes "threshold") b.threshold
          (field (codes "custodians") (array (issued_items shares)) end)))

  module _ (writer : Writer) where
    -- The second half of `buildBundle`: the tables and the log.
    unfoldable pub record_bundle :
        ProvisionOptions
        → BundleRecord
        → List EncryptedShare
        → Authority
        → Outcome ProvisionedBundle
    record_bundle opts b shares authority =
        then_do (change_store (put_bundle b authority.store) authority) (λ _ authority.
          then_do
            (log_event sodium writer bundle_created (created_payload opts b) b.created_at authority)
            (λ _ authority.
              then_do (put_shares b.bundle_id b.created_at shares authority) (λ _ authority.
                then_do
                  (log_event sodium writer shares_issued (issued_payload b shares) b.created_at
                    authority)
                  (λ _ authority. (
                    ok (record {
                      bundle_id = b.bundle_id;
                      kind = b.kind;
                      bundle_hash = b.bundle_hash;
                      content_hash = b.content_hash;
                      kek_fingerprint = b.kek_fingerprint;
                    }),
                    authority,
                  )))))

    module _ (ciphers : Ciphers) (boxes : Boxes) where
      unfoldable pub build_bundle :
          ProvisionOptions → BundleKind → Json → Draws → Authority → Outcome ProvisionedBundle
      build_bundle opts kind content draws authority =
          let id = bundle_id_of opts.bank.exam_id kind in
          let kek_id = codes "kek:" ++ id in
          then_do (change_engine (generate sodium kek_id draws.kek authority.engine) authority)
            (λ fingerprint authority.
              demand (lift_json (canonical_json content))
                (λ canonical.
                  demand (lift_json (bundle_associated_data id kind opts.bank.exam_id))
                    (λ ad authority.
                      demand
                        (lift_kek
                          (encrypt ciphers kek_id canonical ad draws.nonce authority.engine))
                        (λ ct authority.
                          then_do
                            (change_engine
                              (split_and_destroy sodium boxes draws.ephemeral draws.fill kek_id
                                opts.threshold opts.custodians authority.engine)
                              authority)
                            (λ shares.
                              record_bundle opts
                                (bundle_row opts kind draws fingerprint canonical
                                  (serialize_aead ct) shares)
                                shares))
                        authority))
                authority)

      unfoldable pub provision_exam :
          ProvisionOptions
          → (paper_draws answers_draws : Draws) → Authority
          → Outcome ProvisionResult
      provision_exam opts paper_draws answers_draws authority =
          demand (lift_bank (validate_bank opts.bank opts.blueprint))
            (λ _. demand (refuse_if (ltb opts.threshold 2) low_threshold) (λ _.
              demand (refuse_if (ltb (length opts.custodians) opts.threshold) too_few_custodians)
                (λ _ authority.
                  demand (all_enrolled opts.custodians authority.store)
                    (λ _ authority.
                      let (paper, answers) = split_bank opts.bank opts.blueprint in
                      then_do
                        (build_bundle opts paper_bundle (paper_json paper) paper_draws authority)
                        (λ p authority.
                          then_do
                            (build_bundle opts answers_bundle (answers_json answers) answers_draws
                              authority)
                            (λ a authority. (
                              ok (record { exam_id = opts.bank.exam_id; paper = p; answers = a }),
                              authority,
                            ))))
                    authority)))
            authority

    -- `recordDistribution`.
    unfoldable pub distribute :
        (bundle_id centre_id : Text) → (at : ℕ) → Authority → Outcome (Unit {0})
    distribute bundle_id centre_id at authority =
        demand (found (bundle bundle_id authority.store) unknown_bundle)
          (λ b.
            demand (found (centre centre_id authority.store) centre_not_enrolled) (λ c authority.
              then_do
                (change_store (record_distribution bundle_id centre_id at authority.store)
                  authority)
                (λ _ authority.
                  log_event sodium writer bundle_distributed
                    (text_field (codes "bundle_id") bundle_id (
                      text_field (codes "exam_id") b.exam_id (
                        text_field (codes "centre_id") centre_id (
                          text_field (codes "bundle_hash") b.bundle_hash
                            (number_field (codes "bytes") (length b.ciphertext) end)))))
                    at authority)))
          authority
