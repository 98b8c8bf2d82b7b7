-- ===== src/Centre/Ledger.antt =====
-- packages/centre/src/centre.ts and store.ts: what the tables of a centre and its log say of
-- each other.
pub mod Rows
pub mod Effects
pub mod Appends
pub mod Custody
pub mod Day
pub mod Reach
pub mod Making
pub mod Release
use zero_window.Prelude.{
  ℕ, zero, suc, ◌+◌, ◌≤◌, ◌≡◌, ◌⊎◌, refl, Bool, true, false, Bytes, Text, Option, none, some, List,
  [], ◌∷◌, ◌++◌, length, map, any, find, select, equals,
}
use zero_window.Prelude.Sort.{HasDistinctKeys}
use zero_window.Crypto.Sodium.{Sodium}
use zero_window.Crypto.KekEngine.{KekEngine}
use zero_window.Crypto.Hash.{codes}
use zero_window.Log.Fields.{HasText, HasNumber}
use zero_window.Log.Types.{EventType, candidate_checked_in, paper_generated}
use zero_window.Authority.Admit.{AdmitToken}
use zero_window.Authority.Medium.{OfflineReleaseMedium}
use zero_window.Centre.Store.{
  CentreStore, CentreBundleRecord, CheckinRecord, PaperRecord, has_seat, empty_store,
}
use zero_window.Centre.Node.{
  Outside, CentreOptions, CentreNode, Event, ExpectedBundle, receive_bundle, receive_wrapped_kek,
  receive_offline_medium,
}
use zero_window.Centre.ExamDay.{checkin_payload, paper_payload, check_in}
use zero_window.Centre.Papers.{generate_paper, print_paper, run_t0, close_exam, close_node}

abbrev pub is_checkin : Event → Bool
is_checkin e = elim e.type [ candidate_checked_in ↦ true | _ ↦ false ]

abbrev pub is_generation : Event → Bool
is_generation e = elim e.type [ paper_generated ↦ true | _ ↦ false ]

abbrev pub bundle_key : CentreBundleRecord → Text
bundle_key r = r.bundle_id

abbrev pub token_key : CheckinRecord → Text
token_key r = r.token_hash

abbrev pub seat_key : CheckinRecord → Text
seat_key r = r.seat

abbrev pub paper_seat : PaperRecord → Text
paper_seat r = r.seat

abbrev pub paper_token : PaperRecord → Text
paper_token r = r.token_hash

-- The first list is what is left of the second when some of its members are left out.
abbrev pub IsPart : List Event → List Event → Type 0
IsPart [] ys = Unit
IsPart (x ∷ xs) [] = ⊥
IsPart (x ∷ xs) (y ∷ ys) = ((x ≡ y) × IsPart xs ys) ⊎ IsPart (x ∷ xs) ys

-- Each paper is that of the candidate checked in at its seat.
abbrev pub AreMatched : List CheckinRecord → List PaperRecord → Type 0
AreMatched checkins [] = Unit
AreMatched checkins (p ∷ ps) =
    ((c : CheckinRecord) × (find (has_seat p.seat) checkins ≡ some c)
      × (c.token_hash ≡ p.token_hash))
    × AreMatched checkins ps

module _ (sodium : Sodium) (outside : Outside) (opts : CentreOptions) where
  abbrev pub checkin_event : CheckinRecord → Event
  checkin_event r = record {
    type = candidate_checked_in;
    payload = checkin_payload sodium outside opts r;
    ts = r.checked_in_at;
  }

  abbrev pub paper_event : PaperRecord → Event
  paper_event r = record {
    type = paper_generated;
    payload = paper_payload sodium outside opts r;
    ts = r.generated_at;
  }

  -- What the event of a check-in, and that of a generation, say of the row, read by the keys of the
  -- payload.
  abbrev pub RecordsCheckin : CheckinRecord → Event → Type 0
  RecordsCheckin r e =
      (e.type ≡ candidate_checked_in)
      × (e.ts ≡ r.checked_in_at)
      × HasText (codes "exam_id") opts.exam_id e.payload
      × HasText (codes "centre_id") opts.centre_id e.payload
      × HasText (codes "seat") r.seat e.payload
      × HasText (codes "token_hash") r.token_hash e.payload

  abbrev pub RecordsPaper : PaperRecord → Event → Type 0
  RecordsPaper r e =
      (e.type ≡ paper_generated)
      × (e.ts ≡ r.generated_at)
      × HasText (codes "exam_id") opts.exam_id e.payload
      × HasText (codes "centre_id") opts.centre_id e.payload
      × HasText (codes "seat") r.seat e.payload
      × HasText (codes "token_hash") r.token_hash e.payload
      × HasText (codes "paper_hash") r.paper_hash e.payload
      × HasText (codes "content_hash") r.content_hash e.payload
      × HasNumber (codes "page_count") r.page_count e.payload

  -- No bundle, token, seat or paper occurs twice, each paper belongs to the candidate checked in at
  -- its seat, every check-in event of the log is that of a row of `checkins`, one each and in their
  -- order, every generation event that of a row of `papers`, the counters count the events, and there
  -- are at most as many rows without an event as appends that threw.
  abbrev pub IsConsistent : CentreStore → List Event → ℕ → ℕ → ℕ → Type 0
  IsConsistent store log checked generated failed =
      HasDistinctKeys bundle_key store.bundles
      × HasDistinctKeys token_key store.checkins
      × HasDistinctKeys seat_key store.checkins
      × HasDistinctKeys paper_seat store.papers
      × HasDistinctKeys paper_token store.papers
      × AreMatched store.checkins store.papers
      × IsPart (select is_checkin log) (map checkin_event store.checkins)
      × IsPart (select is_generation log) (map paper_event store.papers)
      × (checked ≡ length (select is_checkin log))
      × (generated ≡ length (select is_generation log))
      × (length store.checkins + length store.papers ≤ checked + generated + failed)

  abbrev pub IsSound : CentreNode → Type 0
  IsSound node =
      IsConsistent node.store node.log node.checkins_total node.papers_generated node.failed_appends

  -- A call on a node, with any arguments, whether it succeeds or fails.
  pub data Call : CentreNode → CentreNode → Type 0 where
    called_receive_bundle :
        {node : CentreNode} (envelope : Bytes) (expected : ExpectedBundle) (at : ℕ)
        → Call node (receive_bundle sodium outside opts envelope expected at node).1
    called_receive_wrapped_kek :
        {node : CentreNode} (bundle_id : Text) (sealed : Bytes) (at : ℕ)
        → Call node (receive_wrapped_kek sodium outside opts bundle_id sealed at node).1
    called_receive_offline_medium :
        {node : CentreNode} (medium : OfflineReleaseMedium) (at : ℕ)
        → Call node (receive_offline_medium sodium outside opts medium at node).1
    called_check_in :
        {node : CentreNode} (token : Option AdmitToken) (now at : ℕ)
        → Call node (check_in sodium outside opts token now at node).1
    called_generate_paper :
        {node : CentreNode} (seat : Text) (at : ℕ)
        → Call node (generate_paper sodium outside opts seat at node).1
    called_print_paper :
        {node : CentreNode} (seat : Text) (pdf : Bytes) (at : ℕ)
        → Call node (print_paper sodium outside opts seat pdf at node).1
    called_run_t0 :
        {node : CentreNode} (clock : Text → ℕ × ℕ)
        → Call node (run_t0 sodium outside opts clock node).1
    called_close_exam :
        {node : CentreNode} (at : ℕ) → Call node (close_exam sodium outside opts at node).1
    called_close_node : {node : CentreNode} → Call node (close_node sodium outside opts node)

  abbrev pub new_node : CentreNode
  new_node = record {
    store = empty_store;
    log = [];
    failed_appends = 0;
    held_keks = [];
    engine = record { keks = []; closed = false };
    checkins_total = 0;
    papers_generated = 0;
    admit_refusals = [];
  }

  pub data Calls : CentreNode → Type 0 where
    opened : Calls new_node
    after : {node node' : CentreNode} → Calls node → Call node node' → Calls node'
