-- ===== src/Authority/Store.antt =====
-- packages/authority/src/store.ts: the tables of the authority, each the list of its rows in the
-- order of insertion. A statement that violates a constraint of the schema, foreign keys included,
-- throws and changes nothing.
use zero_window.Prelude.{
  ℕ, Bool, not, ◌&&◌, ◌||◌, Bytes, Text, Option, List, [], ◌∷◌, ◌++◌, map, any, find, select,
  length, equals, if◌then◌else◌, Result, ok, err,
}
use zero_window.Prelude.Sort.{sort_by}
use zero_window.Encoding.{utf8}
use zero_window.Centre.Store.{BundleKind, StoreError, constraint_violated}

pub record CentreRecord : Type 0 where
  pub centre_id : Text
  pub box_public_key : Text
  pub cert_fingerprint : Text
  pub hardware_id : Text
  pub enrolled_at : ℕ

pub record CustodianRecord : Type 0 where
  pub custodian_id : Text
  pub name : Text
  pub box_public_key : Text
  pub cert_fingerprint : Text
  pub enrolled_at : ℕ

pub record BundleRecord : Type 0 where
  pub bundle_id : Text
  pub exam_id : Text
  pub kind : BundleKind
  pub bundle_hash : Text
  pub content_hash : Text
  pub kek_fingerprint : Text
  pub threshold : ℕ
  pub share_count : ℕ
  pub created_at : ℕ
  pub ciphertext : Bytes

pub record ShareRecord : Type 0 where
  pub bundle_id : Text
  pub custodian_id : Text
  pub x : ℕ
  pub sealed : Bytes
  pub issued_at : ℕ

pub record ScheduleRecord : Type 0 where
  pub exam_id : Text
  pub bundle_id : Text
  pub release_at : ℕ
  pub signature : Text
  pub created_at : ℕ

pub record AdmitTokenRecord : Type 0 where
  pub token_hash : Text
  pub exam_id : Text
  pub centre_id : Text
  pub seat : Text
  pub issued_at : ℕ

pub record DistributionRecord : Type 0 where
  pub bundle_id : Text
  pub centre_id : Text
  pub distributed_at : ℕ

pub record ReleaseRecord : Type 0 where
  pub bundle_id : Text
  pub centre_id : Text
  pub released_at : ℕ
  pub wrapped : Bytes

pub record AuthorityStore : Type 0 where
  pub centres : List CentreRecord
  pub custodians : List CustodianRecord
  pub bundles : List BundleRecord
  pub shares : List ShareRecord
  pub schedules : List ScheduleRecord
  pub admit_tokens : List AdmitTokenRecord
  pub distributions : List DistributionRecord
  pub releases : List ReleaseRecord

-- `INSERT … ON CONFLICT DO UPDATE`: the update of the row with the key, or a new row.
module _ {A : Type 0} where
  abbrev pub update_where : (A → Bool) → (A → A) → List A → List A
  update_where same update [] = []
  update_where same update (r ∷ rows) =
      (if same r then update r else r) ∷ update_where same update rows

  unfoldable pub upsert : (A → Bool) → (A → A) → A → List A → List A
  upsert same update row rows =
      if any same rows then update_where same update rows else rows ++ row ∷ []

abbrev pub is_centre : Text → CentreRecord → Bool
is_centre id r = equals r.centre_id id

abbrev pub is_custodian : Text → CustodianRecord → Bool
is_custodian id r = equals r.custodian_id id

abbrev pub is_bundle : Text → BundleRecord → Bool
is_bundle id r = equals r.bundle_id id

abbrev pub is_share : Text → Text → ShareRecord → Bool
is_share bundle_id custodian_id r =
    equals r.bundle_id bundle_id && equals r.custodian_id custodian_id

abbrev pub is_schedule : Text → Text → ScheduleRecord → Bool
is_schedule exam_id bundle_id r = equals r.exam_id exam_id && equals r.bundle_id bundle_id

abbrev pub is_schedule_of : Text → ScheduleRecord → Bool
is_schedule_of bundle_id r = equals r.bundle_id bundle_id

abbrev pub is_distribution : Text → Text → DistributionRecord → Bool
is_distribution bundle_id centre_id r = equals r.bundle_id bundle_id && equals r.centre_id centre_id

abbrev pub is_release : Text → Text → ReleaseRecord → Bool
is_release bundle_id centre_id r = equals r.bundle_id bundle_id && equals r.centre_id centre_id

-- The `excluded` values, in the row that is there.
abbrev pub renew_centre : CentreRecord → CentreRecord → CentreRecord
renew_centre r old = record old {
  box_public_key = r.box_public_key;
  cert_fingerprint = r.cert_fingerprint;
  hardware_id = r.hardware_id;
  enrolled_at = r.enrolled_at;
}

abbrev pub renew_custodian : CustodianRecord → CustodianRecord → CustodianRecord
renew_custodian r old = record old {
  name = r.name;
  box_public_key = r.box_public_key;
  cert_fingerprint = r.cert_fingerprint;
}

abbrev pub renew_schedule : ScheduleRecord → ScheduleRecord → ScheduleRecord
renew_schedule r old = record old {
  release_at = r.release_at;
  signature = r.signature;
  created_at = r.created_at;
}

-- The foreign keys of distributions and releases.
abbrev pub refers : Text → Text → AuthorityStore → Bool
refers bundle_id centre_id store =
    any (is_bundle bundle_id) store.bundles && any (is_centre centre_id) store.centres

unfoldable pub enrol_centre : CentreRecord → AuthorityStore → AuthorityStore
enrol_centre r store = record store {
  centres = upsert (is_centre r.centre_id) (renew_centre r) r store.centres;
}

-- `ORDER BY` on a text compares its bytes.
unfoldable pub centres_by_id : AuthorityStore → List CentreRecord
centres_by_id store = sort_by (λ (r : CentreRecord). utf8 r.centre_id) store.centres

unfoldable pub centre : Text → AuthorityStore → Option CentreRecord
centre id store = find (is_centre id) store.centres

unfoldable pub enrol_custodian : CustodianRecord → AuthorityStore → AuthorityStore
enrol_custodian r store = record store {
  custodians = upsert (is_custodian r.custodian_id) (renew_custodian r) r store.custodians;
}

unfoldable pub custodians_by_id : AuthorityStore → List CustodianRecord
custodians_by_id store = sort_by (λ (r : CustodianRecord). utf8 r.custodian_id) store.custodians

unfoldable pub custodian : Text → AuthorityStore → Option CustodianRecord
custodian id store = find (is_custodian id) store.custodians

unfoldable pub put_bundle : BundleRecord → AuthorityStore → Result StoreError AuthorityStore
put_bundle r store =
    if any (is_bundle r.bundle_id) store.bundles
    then err constraint_violated
    else ok (record store { bundles = store.bundles ++ r ∷ [] })

unfoldable pub bundle : Text → AuthorityStore → Option BundleRecord
bundle id store = find (is_bundle id) store.bundles

unfoldable pub put_share : ShareRecord → AuthorityStore → Result StoreError AuthorityStore
put_share r store =
    if any (is_share r.bundle_id r.custodian_id) store.shares
      || not (
          any (is_bundle r.bundle_id) store.bundles
          && any (is_custodian r.custodian_id) store.custodians)
    then err constraint_violated
    else ok (record store { shares = store.shares ++ r ∷ [] })

-- `ORDER BY x`.
unfoldable pub shares_of : Text → AuthorityStore → List ShareRecord
shares_of bundle_id store =
    sort_by (λ (r : ShareRecord). r.x ∷ [])
      (select (λ r. equals r.bundle_id bundle_id) store.shares)

unfoldable pub put_schedule : ScheduleRecord → AuthorityStore → Result StoreError AuthorityStore
put_schedule r store =
    if not (any (is_bundle r.bundle_id) store.bundles)
    then err constraint_violated
    else ok (record store {
      schedules = upsert (is_schedule r.exam_id r.bundle_id) (renew_schedule r) r store.schedules;
    })

-- The first row of the bundle.
unfoldable pub schedule : Text → AuthorityStore → Option ScheduleRecord
schedule bundle_id store = find (is_schedule_of bundle_id) store.schedules

abbrev pub breaks_unique : AdmitTokenRecord → AdmitTokenRecord → Bool
breaks_unique r old =
    equals old.token_hash r.token_hash
    || (equals old.exam_id r.exam_id
        && (equals old.centre_id r.centre_id && equals old.seat r.seat))

unfoldable pub put_admit_token :
    AdmitTokenRecord → AuthorityStore → Result StoreError AuthorityStore
put_admit_token r store =
    if any (breaks_unique r) store.admit_tokens
    then err constraint_violated
    else ok (record store { admit_tokens = store.admit_tokens ++ r ∷ [] })

unfoldable pub admit_token_count : Text → Text → AuthorityStore → ℕ
admit_token_count exam_id centre_id store =
    length
      (select (λ r. equals r.exam_id exam_id && equals r.centre_id centre_id) store.admit_tokens)

unfoldable pub record_distribution :
    Text → Text → (at : ℕ) → AuthorityStore → Result StoreError AuthorityStore
record_distribution bundle_id centre_id at store =
    if not (refers bundle_id centre_id store)
    then err constraint_violated
    else ok (record store {
      distributions =
          upsert (is_distribution bundle_id centre_id) (λ old. record old { distributed_at = at })
            (record { bundle_id = bundle_id; centre_id = centre_id; distributed_at = at })
            store.distributions;
    })

unfoldable pub distributed_centres : Text → AuthorityStore → List Text
distributed_centres bundle_id store =
    sort_by utf8
      (map (λ r. r.centre_id) (select (λ r. equals r.bundle_id bundle_id) store.distributions))

unfoldable pub record_release :
    Text → Text → (at : ℕ) → Bytes → AuthorityStore → Result StoreError AuthorityStore
record_release bundle_id centre_id at wrapped store =
    if not (refers bundle_id centre_id store)
    then err constraint_violated
    else ok (record store {
      releases =
          upsert (is_release bundle_id centre_id)
            (λ old. record old { released_at = at; wrapped = wrapped })
            (record {
              bundle_id = bundle_id;
              centre_id = centre_id;
              released_at = at;
              wrapped = wrapped;
            })
            store.releases;
    })

unfoldable pub release_of : Text → Text → AuthorityStore → Option ReleaseRecord
release_of bundle_id centre_id store = find (is_release bundle_id centre_id) store.releases
