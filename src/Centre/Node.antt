-- ===== src/Centre/Node.antt =====
-- packages/centre/src/centre.ts: the state of a centre node, custody of bundles and receipt of keys.
-- An append to the log adds an event or throws; Log/Store models how it is sealed. Times are
-- arguments.
use zero_window.Prelude.{
  ℕ, suc, ◌+◌, Bool, not, Bytes, Text, Option, none, some, List, [], ◌∷◌, ◌++◌, length, equals,
  if◌then◌else◌, Result, ok, err, find,
}
use zero_window.Encoding.{to_hex, from_hex}
use zero_window.Crypto.Sodium.{Sodium}
use zero_window.Crypto.Hash.{codes, domain_hash}
use zero_window.Crypto.Aead.{Ciphers, AeadError, parse_aead}
use zero_window.Crypto.KekEngine.{KekEngine, KekError, import_kek, destroy, share_invalid}
use zero_window.Authority.Bank.{PaperBundleContent}
use zero_window.Authority.Json.{JsonError}
use zero_window.Authority.Admit.{AdmitFailureCode}
use zero_window.Authority.Medium.{OfflineReleaseMedium, MediumEntry, verify_offline_medium}
use zero_window.Log.Types.{EventType, bundle_received, kek_received}
use zero_window.Log.Canonical.{Fields, end, field, string, number, integer}
use zero_window.Centre.Assemble.{AssembledPaper, AssemblyError}
use zero_window.Centre.Print.{PrintRoom, FailedOver}
use zero_window.Centre.Store.{
  CentreStore, CentreBundleRecord, BundleKind, StoreError, bundle, put_bundle,
}

-- What the node calls that the repository does not hold: ciphers, the opening of a sealed box with
-- the centre's box key, `JSON.parse` of a bundle, the drawing of the PDF with its number of pages.
pub record Outside : Type 0 where
  pub ciphers : Ciphers
  pub open_box : Bytes → Option Bytes
  pub parse_content : Bytes → Option PaperBundleContent
  pub draw_pdf : AssembledPaper → (content_hash : Bytes) → Bytes × ℕ
  -- Whether the append number n to the log throws: signing, or the database of the log, may fail.
  pub append_throws : ℕ → Bool

pub record CentreOptions : Type 0 where
  pub centre_id : Text
  pub exam_id : Text
  pub authority_public_key : Bytes
  -- The print service, where printers or a spool directory are configured.
  pub print_room : Option PrintRoom
  -- How many tries a draw of the stream gets.
  pub tries : ℕ

pub data CentreError : Type 0 where
  bundle_hash_mismatch bundle_unknown duplicate_bundle kek_not_held : CentreError
  kek_fingerprint_mismatch medium_invalid admit_refused duplicate_checkin seat_taken : CentreError
  seat_mismatch not_checked_in already_generated not_generated : CentreError
  -- What the calls throw.
  store_failed : StoreError → CentreError
  envelope_refused : AeadError → CentreError
  provider_failed : KekError → CentreError
  encoding_failed : JsonError → CentreError
  content_unreadable : CentreError
  assembly_failed : AssemblyError → CentreError
  printing_failed : List FailedOver → CentreError
  spooling_failed : Text → CentreError
  log_failed : CentreError

pub record Event : Type 0 where
  pub type : EventType
  pub payload : Fields
  pub ts : ℕ

pub record CentreNode : Type 0 where
  pub store : CentreStore
  pub log : List Event
  -- How many appends to the log have thrown.
  pub failed_appends : ℕ
  pub held_keks : List (Text × Text)
  pub engine : KekEngine
  pub checkins_total : ℕ
  pub papers_generated : ℕ
  pub admit_refusals : List AdmitFailureCode

-- The result of a call and the node after it.
abbrev pub Outcome : Type 0 → Type 0
Outcome A = Result CentreError A × CentreNode

-- The next step, if the one before did not throw.
abbrev pub then_do : {A B : Type 0} → Outcome A → (A → CentreNode → Outcome B) → Outcome B
then_do (ok a, node) next = next a node
then_do (err e, node) next = (err e, node)

abbrev pub logged : Event → CentreNode → CentreNode
logged e node = record node { log = node.log ++ e ∷ [] }

abbrev pub append_failed : CentreNode → CentreNode
append_failed node = record node { failed_appends = suc node.failed_appends }

unfoldable pub log_event : Outside → EventType → Fields → ℕ → CentreNode → Outcome (Unit {0})
log_event outside type payload ts node =
    if outside.append_throws (length node.log + node.failed_appends)
    then (err log_failed, append_failed node)
    else (ok tt, logged (record { type = type; payload = payload; ts = ts }) node)

abbrev pub text_field : Text → Text → Fields → Fields
text_field k v rest = field k (string v) rest

abbrev pub number_field : Text → ℕ → Fields → Fields
number_field k n rest = field k (number (integer n)) rest

-- The `expected` argument of `receiveBundle`.
pub record ExpectedBundle : Type 0 where
  pub bundle_id : Text
  pub exam_id : Text
  pub kind : BundleKind
  pub bundle_hash : Text
  pub kek_fingerprint : Text
  pub threshold : ℕ

abbrev pub kek_id_of : Text → Text
kek_id_of bundle_id = codes "kek:" ++ bundle_id

abbrev pub is_for : Text → MediumEntry → Bool
is_for centre_id e = equals e.centre_id centre_id

-- `heldKeks.get`, `heldKeks.set`.
unfoldable pub held_kek : Text → List (Text × Text) → Option Text
held_kek bundle_id [] = none
held_kek bundle_id ((k, kek_id) ∷ held) =
    if equals k bundle_id then some kek_id else held_kek bundle_id held

unfoldable pub hold_kek : Text → Text → List (Text × Text) → List (Text × Text)
hold_kek bundle_id kek_id [] = (bundle_id, kek_id) ∷ []
hold_kek bundle_id kek_id ((k, old) ∷ held) =
    if equals k bundle_id then (k, kek_id) ∷ held else (k, old) ∷ hold_kek bundle_id kek_id held

module _ (sodium : Sodium) (outside : Outside) (opts : CentreOptions) where
  abbrev pub paper_bundle_id : Text
  paper_bundle_id = opts.exam_id ++ codes ":paper"

  unfoldable pub receive_bundle :
      (envelope : Bytes) → ExpectedBundle → (at : ℕ) → CentreNode → Outcome Unit
  unfolding domain_hash to_hex parse_aead bundle put_bundle
  receive_bundle envelope expected at node =
      if not (
        equals (to_hex (domain_hash sodium (codes "bundle-envelope") (envelope ∷ [])))
          expected.bundle_hash)
      then (err bundle_hash_mismatch, node)
      else elim (parse_aead envelope) [
        | err e ↦ (err (envelope_refused e), node)
        | ok ct ↦ elim (bundle expected.bundle_id node.store) [
          | some old ↦ (err duplicate_bundle, node)
          | none ↦
              elim (put_bundle
                (record {
                  bundle_id = expected.bundle_id;
                  exam_id = expected.exam_id;
                  kind = expected.kind;
                  bundle_hash = expected.bundle_hash;
                  kek_fingerprint = expected.kek_fingerprint;
                  threshold = expected.threshold;
                  received_at = at;
                  ciphertext = envelope;
                })
                node.store) [
                  | err e ↦ (err (store_failed e), node)
                  | ok store ↦
                      log_event outside bundle_received
                        (text_field (codes "bundle_id") expected.bundle_id (
                          text_field (codes "exam_id") expected.exam_id (
                            text_field (codes "centre_id") opts.centre_id (
                              text_field (codes "bundle_hash") expected.bundle_hash
                                (number_field (codes "bytes") (length envelope) end)))))
                        at (record node { store = store })
                ]
        ]
      ]

  -- After the provider has answered: the fingerprint of the key it now holds.
  abbrev pub accept_kek : Text → CentreBundleRecord → Bytes → ℕ → CentreNode → Outcome Unit
  accept_kek bundle_id b fp at node =
      if not (equals (to_hex fp) b.kek_fingerprint)
      then (
        err kek_fingerprint_mismatch,
        record node { engine = destroy (kek_id_of bundle_id) node.engine },
      )
      else log_event outside kek_received
          (text_field (codes "bundle_id") bundle_id (
            text_field (codes "exam_id") b.exam_id (
              text_field (codes "centre_id") opts.centre_id
                (text_field (codes "kek_fingerprint") b.kek_fingerprint end))))
          at (record node { held_keks = hold_kek bundle_id (kek_id_of bundle_id) node.held_keks })

  -- `provider.unwrapKek` opens the box and imports what is in it.
  unfoldable pub receive_wrapped_kek :
      (bundle_id : Text) → (sealed : Bytes) → (at : ℕ) → CentreNode → Outcome Unit
  unfolding bundle import_kek destroy hold_kek to_hex
  receive_wrapped_kek bundle_id sealed at node = elim (bundle bundle_id node.store) [
    | none ↦ (err bundle_unknown, node)
    | some b ↦ elim (outside.open_box sealed) [
      | none ↦ (err (provider_failed share_invalid), node)
      | some raw ↦
          let (answer, engine) = import_kek sodium (kek_id_of bundle_id) raw node.engine in
          elim answer [
            | err e ↦ (err (provider_failed e), record node { engine = engine })
            | ok fp ↦ accept_kek bundle_id b fp at (record node { engine = engine })
          ]
    ]
  ]

  unfoldable pub receive_offline_medium :
      OfflineReleaseMedium → (at : ℕ) → CentreNode → Outcome Unit
  unfolding verify_offline_medium receive_wrapped_kek from_hex
  receive_offline_medium medium at node =
      elim (verify_offline_medium sodium medium opts.authority_public_key) [
        | err e ↦ (err (encoding_failed e), node)
        | ok valid ↦
            if not valid
            then (err medium_invalid, node)
            else elim (find (is_for opts.centre_id) medium.body.entries) [
              | none ↦ (err medium_invalid, node)
              | some entry ↦
                  receive_wrapped_kek medium.body.bundle_id (from_hex entry.sealed_hex) at node
            ]
      ]
