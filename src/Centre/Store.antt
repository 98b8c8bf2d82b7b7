-- ===== src/Centre/Store.antt =====
-- packages/centre/src/store.ts: the three tables of a centre, each the list of its rows in the order
-- of insertion. An insertion fails where a constraint of the schema is violated.
use zero_window.Prelude.{
  ℕ, Bool, not, ◌||◌, Bytes, Text, Option, some, List, [], ◌∷◌, ◌++◌, map, any, find, equals,
  if◌then◌else◌, Result, ok, err,
}
use zero_window.Prelude.Sort.{sort_by}
use zero_window.Encoding.{utf8}

pub data BundleKind : Type 0 where
  paper_bundle answers_bundle : BundleKind

pub record CentreBundleRecord : Type 0 where
  pub bundle_id : Text
  pub exam_id : Text
  pub kind : BundleKind
  pub bundle_hash : Text
  pub kek_fingerprint : Text
  pub threshold : ℕ
  pub received_at : ℕ
  pub ciphertext : Bytes

pub record CheckinRecord : Type 0 where
  pub token_hash : Text
  pub seat : Text
  pub registration_hash : Text
  pub checked_in_at : ℕ

pub record PaperRecord : Type 0 where
  pub seat : Text
  pub token_hash : Text
  pub paper_hash : Text
  pub content_hash : Text
  pub page_count : ℕ
  pub generated_at : ℕ
  pub printed_at : Option ℕ
  pub printer_id : Option Text
  pub job_ref : Option Text
  pub transport : Option Text

pub record CentreStore : Type 0 where
  pub bundles : List CentreBundleRecord
  pub checkins : List CheckinRecord
  pub papers : List PaperRecord

pub data StoreError : Type 0 where
  constraint_violated : StoreError

abbrev pub empty_store : CentreStore
empty_store = record { bundles = []; checkins = []; papers = [] }

abbrev pub has_bundle_id : Text → CentreBundleRecord → Bool
has_bundle_id id r = equals r.bundle_id id

abbrev pub has_token : Text → CheckinRecord → Bool
has_token token_hash r = equals r.token_hash token_hash

abbrev pub has_seat : Text → CheckinRecord → Bool
has_seat seat r = equals r.seat seat

abbrev pub is_paper_of : Text → PaperRecord → Bool
is_paper_of seat r = equals r.seat seat

abbrev pub is_paper_for : Text → PaperRecord → Bool
is_paper_for token_hash r = equals r.token_hash token_hash

unfoldable pub put_bundle : CentreBundleRecord → CentreStore → Result StoreError CentreStore
put_bundle r store =
    if any (has_bundle_id r.bundle_id) store.bundles
    then err constraint_violated
    else ok (record store { bundles = store.bundles ++ r ∷ [] })

unfoldable pub bundle : Text → CentreStore → Option CentreBundleRecord
bundle id store = find (has_bundle_id id) store.bundles

unfoldable pub put_checkin : CheckinRecord → CentreStore → Result StoreError CentreStore
put_checkin r store =
    if any (has_token r.token_hash) store.checkins || any (has_seat r.seat) store.checkins
    then err constraint_violated
    else ok (record store { checkins = store.checkins ++ r ∷ [] })

unfoldable pub checkin_by_token : Text → CentreStore → Option CheckinRecord
checkin_by_token token_hash store = find (has_token token_hash) store.checkins

unfoldable pub checkin_by_seat : Text → CentreStore → Option CheckinRecord
checkin_by_seat seat store = find (has_seat seat) store.checkins

-- `ORDER BY seat` compares the texts' bytes.
abbrev pub seat_bytes : CheckinRecord → Bytes
seat_bytes r = utf8 r.seat

unfoldable pub checkins_by_seat : CentreStore → List CheckinRecord
unfolding sort_by utf8
checkins_by_seat store = sort_by seat_bytes store.checkins

unfoldable pub put_paper : PaperRecord → CentreStore → Result StoreError CentreStore
put_paper r store =
    if any (is_paper_of r.seat) store.papers
      || (any (is_paper_for r.token_hash) store.papers
          || not (any (has_token r.token_hash) store.checkins))
    then err constraint_violated
    else ok (record store { papers = store.papers ++ r ∷ [] })

abbrev pub printed : Text → ℕ → Text → Text → Text → PaperRecord → PaperRecord
printed seat at printer_id job_ref transport r =
    if equals r.seat seat
    then record r {
      printed_at = some at;
      printer_id = some printer_id;
      job_ref = some job_ref;
      transport = some transport;
    }
    else r

unfoldable pub mark_printed : Text → ℕ → Text → Text → Text → CentreStore → CentreStore
mark_printed seat at printer_id job_ref transport store = record store {
  papers = map (printed seat at printer_id job_ref transport) store.papers;
}

unfoldable pub paper : Text → CentreStore → Option PaperRecord
paper seat store = find (is_paper_of seat) store.papers
