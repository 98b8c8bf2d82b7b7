-- ===== src/Tests/Authority.antt =====
-- An authority that schedules a release, refuses an early attempt and releases a key.
use zero_window.Prelude.{
  ℕ, ◌≡◌, ◌⊎◌, refl, true, false, Bytes, Text, none, some, List, [], ◌∷◌, ◌++◌, map, Result, ok,
  err, arith,
}
use zero_window.Encoding.{to_hex}
use zero_window.Crypto.Hash.{codes}
use zero_window.Crypto.Aead.{aead_encrypt, serialize_aead}
use zero_window.Crypto.Gf256.{gf_div}
use zero_window.Crypto.Box.{seal}
use zero_window.Crypto.Share.{ShareError, serialize_share, parse_share}
use zero_window.Crypto.Shamir.{shamir_combine, share_at, coefficients}
use zero_window.Crypto.KekEngine.{generate, encrypt, fingerprint_of}
use zero_window.Crypto.KekEngine.Custody.{reconstruct_wrap_release}
use zero_window.Log.Store.{Writer, empty_tables}
use zero_window.Centre.Store.{paper_bundle}
use zero_window.Authority.Json.{JsonError, canonical_json, write_object, write_entries, quote}
use zero_window.Authority.Store.{
  AuthorityStore, BundleRecord, ScheduleRecord, CustodianRecord, bundle, schedule, custodian,
  centre, put_schedule, put_bundle, put_share, record_release, upsert,
}
use zero_window.Authority.Service.{Authority, AuthorityError, Outcome, log_event}
use zero_window.Authority.Release.{
  ReleaseOptions, ReleaseOutcome, schedule_bytes, sign_schedule, verify_schedule_signature,
  body_of_schedule, check_submission, check_custodians, recipients_of, finish_release, release_now,
  perform_release,
}
use zero_window.Authority.Release.Authorised.{IsRefusal, IsAuthorised, perform_release-IsAuthorised}
use zero_window.Authority.Release.Early.{IsEarly, perform_release-IsEarly}
use zero_window.Authority.Release.Evidence.{perform_release-IsExtended}
use zero_window.Authority.Release.Recorded.{RecordsApprovals, RecordsRelease}
use zero_window.Log.Types.{custodian_approved, kek_released}
use zero_window.Log.Canonical.{Fields}
use zero_window.Authority.Service.Extended.{IsExtended}
use zero_window.Authority.Provision.{
  build_bundle, record_bundle, bundle_id_of, bundle_associated_data, content_hash_of,
}
use zero_window.Authority.Operations.{schedule_release}
use zero_window.Authority.Operations.Scheduled.{perform_release-schedule_release}
use zero_window.Tests.Toy.{mixed, mixed_laws, toy_boxes, toy_fill}
use zero_window.Tests.Log.{run_log}
use zero_window.Tests.Shamir.{run_keys, no_randomness, kek}

-- Names the definitions that a run of the authority computes with.
unfoldable pub run_authority : Unit {0}
unfolding run_log run_keys shamir_combine gf_div parse_share seal generate encrypt fingerprint_of
    aead_encrypt serialize_aead reconstruct_wrap_release canonical_json write_object write_entries
    quote bundle schedule custodian centre put_schedule put_bundle put_share record_release upsert
    log_event schedule_bytes sign_schedule verify_schedule_signature check_submission
    check_custodians recipients_of finish_release release_now perform_release build_bundle
    record_bundle bundle_id_of bundle_associated_data content_hash_of schedule_release
run_authority = tt

abbrev pub writer : Writer
writer = record { actor = codes "authority"; secret_key = 1 ∷ 2 ∷ [] }

abbrev authority_key : Bytes
authority_key = mixed.public_key writer.secret_key

abbrev signed_text : Result JsonError Text → Text
signed_text (ok t) = t
signed_text (err e) = []

abbrev blob_of : Result ShareError Bytes → Bytes
blob_of (ok b) = b
blob_of (err e) = []

abbrev custodian_row : Text → CustodianRecord
custodian_row id = record {
  custodian_id = id;
  name = id;
  box_public_key = [];
  cert_fingerprint = [];
  enrolled_at = 1;
}

abbrev pub paper_row : BundleRecord
paper_row = record {
  bundle_id = codes "b";
  exam_id = codes "E";
  kind = paper_bundle;
  bundle_hash = [];
  content_hash = [];
  kek_fingerprint = to_hex (fingerprint_of mixed kek);
  threshold = 2;
  share_count = 3;
  created_at = 2;
  ciphertext = [];
}

abbrev schedule_row : ScheduleRecord
schedule_row = record {
  exam_id = codes "E";
  bundle_id = codes "b";
  release_at = 100;
  signature = signed_text (
      sign_schedule mixed writer.secret_key
        (record { v = 1; exam_id = codes "E"; bundle_id = codes "b"; release_at = 100 }));
  created_at = 3;
}

abbrev unscheduled : AuthorityStore
unscheduled = record {
  centres =
      record {
        centre_id = codes "X";
        box_public_key = to_hex (toy_boxes.box_public_key (7 ∷ []));
        cert_fingerprint = [];
        hardware_id = [];
        enrolled_at = 1;
      }
      ∷ [];
  custodians =
      custodian_row (codes "A") ∷ custodian_row (codes "B") ∷ custodian_row (codes "C") ∷ [];
  bundles = paper_row ∷ [];
  shares = [];
  schedules = [];
  admit_tokens = [];
  distributions = [];
  releases = [];
}

abbrev pub new_authority : Authority
new_authority = record {
  store = unscheduled;
  log = empty_tables;
  engine = record { keks = []; closed = false };
  releases_total = 0;
  early_attempts_total = 0;
  budget_exceeded_total = 0;
}

abbrev ready : Authority
ready = record new_authority { store = record unscheduled { schedules = schedule_row ∷ [] } }

abbrev blob : ℕ → Bytes
blob x =
    blob_of (serialize_share mixed (share_at (toy_fill 0 8) 2 (coefficients toy_fill 2 1 kek) x))

abbrev submission : ℕ → ReleaseOptions
submission now = record {
  bundle_id = codes "b";
  shares =
      record { custodian_id = codes "A"; share_blob = blob 1 }
      ∷ record { custodian_id = codes "C"; share_blob = blob 3 }
      ∷ [];
  centre_ids = some (codes "X" ∷ []);
  now = now;
}

abbrev released_at_120 : Outcome ReleaseOutcome
released_at_120 =
    perform_release mixed writer toy_boxes no_randomness authority_key (submission 120) 400 ready

abbrev no_release : ReleaseOutcome
no_release = record { bundle_id = []; exam_id = []; wrapped = []; custodians = [] }

abbrev outcome_of : Result AuthorityError ReleaseOutcome → ReleaseOutcome
outcome_of (ok o) = o
outcome_of (err e) = no_release

release-run : released_at_120.0 ≡ ok (outcome_of (released_at_120.0))
unfolding run_authority
release-run = refl

perform_release-IsAuthorised_example :
    IsRefusal ready released_at_120
    ⊎ IsAuthorised mixed toy_boxes no_randomness authority_key (submission 120) 400 ready
perform_release-IsAuthorised_example =
    perform_release-IsAuthorised mixed writer toy_boxes no_randomness authority_key (submission 120)
      400 ready

perform_release-IsExtended_example :
    (b : BundleRecord) × (s : ScheduleRecord) × (approvals : List Fields) × (summary : Fields)
    × (bundle (codes "b") ready.store ≡ some b)
    × (schedule (codes "b") ready.store ≡ some s)
    × IsExtended mixed ready
        (released_at_120.1)
        (map (λ p. (custodian_approved, p)) approvals ++ (kek_released, summary) ∷ [])
    × RecordsApprovals mixed b (codes "b") ((submission 120).shares) approvals
    × RecordsRelease b s (submission 120) 400 ((outcome_of (released_at_120.0)).wrapped) summary
perform_release-IsExtended_example =
    perform_release-IsExtended mixed mixed_laws writer toy_boxes no_randomness authority_key
      (submission 120) 400 ready (outcome_of (released_at_120.0)) tt release-run

known-run :
    (bundle (codes "b") ready.store ≡ some paper_row)
    × (schedule (codes "b") ready.store ≡ some schedule_row)
    × (verify_schedule_signature mixed
          (body_of_schedule schedule_row)
          schedule_row.signature
          authority_key
        ≡ ok true)
unfolding run_authority
known-run = (refl, refl, refl)

perform_release-IsEarly_example :
    IsEarly mixed
      (submission 40)
      ready
      paper_row
      schedule_row
      (perform_release mixed writer toy_boxes no_randomness authority_key (submission 40) 400 ready)
perform_release-IsEarly_example =
    perform_release-IsEarly mixed mixed_laws writer toy_boxes no_randomness authority_key
      (submission 40) 400 ready paper_row schedule_row tt known-run.0 known-run.1 known-run.2
      (omega arith)

abbrev scheduled : Outcome (Unit {0})
scheduled = schedule_release mixed writer (codes "E") (codes "b") 100 5 new_authority

scheduled-run :
    (bundle (codes "b") new_authority.store ≡ some paper_row)
    × (schedule (codes "b") new_authority.store ≡ none)
    × (scheduled.0 ≡ ok tt)
unfolding run_authority
scheduled-run = (refl, refl, refl)

perform_release-schedule_release_example :
    (s : ScheduleRecord) × (s.release_at ≡ 100)
    × IsEarly mixed (submission 40) (scheduled.1) paper_row s (
        perform_release mixed writer toy_boxes no_randomness authority_key
          (submission 40)
          400
          (scheduled.1))
perform_release-schedule_release_example =
    perform_release-schedule_release mixed mixed_laws writer toy_boxes no_randomness (codes "E") 100
      5 new_authority (submission 40) 400 paper_row tt scheduled-run.0 scheduled-run.1
      scheduled-run.2 (omega arith)
