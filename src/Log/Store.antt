-- ===== src/Log/Store.antt =====
-- packages/log/src/store.ts: the transparency log over its two SQLite tables. A table is the list
-- of its rows in the order of the primary key; an INSERT that breaks a constraint throws.
pub mod Chain
pub mod Appends
pub mod Checkpoints
use zero_window.Prelude.{
  ℕ, zero, suc, ◌+◌, ◌-◌, Bool, true, false, ◌&&◌, ◌||◌, not, Bytes, Text, Option, none, some, List,
  [], ◌∷◌, ◌++◌, map, length, get_last?, get_or, ltb, leb, ◌==◌, equals, if◌then◌else◌, Result, ok,
  err, map_ok, and_then,
}
use zero_window.Crypto.Sodium.{Sodium}
use zero_window.Crypto.Hash.{codes, domain_hash, sign_domain, verify_domain}
use zero_window.Encoding.{to_hex, from_hex, utf8}
use zero_window.Log.Canonical.{Fields, Value, CanonicalizationError, canonicalize}
use zero_window.Log.Merkle.{merkle_root}
use zero_window.Log.Types.{
  EventType, LogEntry, LogEntryBody, Checkpoint, CheckpointBody, Anchor, EvidenceBundle, body_value,
  checkpoint_value,
}

abbrev pub zeros : ℕ → Text
zeros zero = []
zeros (suc n) = 48 ∷ zeros n

-- `"0".repeat(64)`.
abbrev pub zero_hash : Text
zero_hash = zeros 64

abbrev pub entry_domain : Text
entry_domain = codes "log-entry"

abbrev pub checkpoint_domain : Text
checkpoint_domain = codes "log-checkpoint"

-- What the store throws: a value that has no canonical form, a broken constraint of a table, and
-- its own errors.
pub data LogError : Type 0 where
  not_canonical : CanonicalizationError → LogError
  constraint_violated empty_log unknown_checkpoint imprint_mismatch : LogError

abbrev pub thrown : {A : Type 0} → Result CanonicalizationError A → Result LogError A
thrown (ok a) = ok a
thrown (err e) = err (not_canonical e)

unfoldable pub canonical_bytes : Value → Result CanonicalizationError Bytes
canonical_bytes v = map_ok utf8 (canonicalize v)

unfoldable pub entry_commitment_bytes : LogEntryBody → Result CanonicalizationError Bytes
unfolding canonical_bytes
entry_commitment_bytes body = canonical_bytes (body_value body)

unfoldable pub checkpoint_commitment_bytes : CheckpointBody → Result CanonicalizationError Bytes
unfolding canonical_bytes
checkpoint_commitment_bytes body = canonical_bytes (checkpoint_value body)

-- The row of the highest key.
unfoldable pub head : List LogEntry → Option LogEntry
head entries = get_last? entries

pub record Reservation : Type 0 where
  pub seq : ℕ
  pub prev_hash : Text

-- The IMMEDIATE transaction at the start of `append`.
unfoldable pub reserve : List LogEntry → Reservation
unfolding head
reserve entries = elim (head entries) [
  | none ↦ record { seq = 0; prev_hash = zero_hash }
  | some row ↦ record { seq = row.seq + 1; prev_hash = row.hash }
]

-- PRIMARY KEY (seq) and UNIQUE (hash).
unfoldable pub conflicts : LogEntry → List LogEntry → Bool
conflicts entry [] = false
conflicts entry (row ∷ rows) =
    (row.seq == entry.seq || equals row.hash entry.hash) || conflicts entry rows

unfoldable pub place : LogEntry → List LogEntry → List LogEntry
place entry [] = entry ∷ []
place entry (row ∷ rows) =
    if ltb row.seq entry.seq then row ∷ place entry rows else entry ∷ row ∷ rows

unfoldable pub insert_entry : LogEntry → List LogEntry → Result LogError (List LogEntry)
unfolding conflicts place
insert_entry entry rows =
    if conflicts entry rows then err constraint_violated else ok (place entry rows)

-- The options of `append`, its timestamp filled in.
pub record AppendOptions : Type 0 where
  pub type : EventType
  pub payload : Fields
  pub ts : ℕ

-- What a `TransparencyLog` object holds beside its tables. The key provider signs with the secret
-- key of the log's signing key.
pub record Writer : Type 0 where
  pub actor : Text
  pub secret_key : Bytes

pub record Log : Type 0 where
  pub entries : List LogEntry
  pub checkpoints : List Checkpoint

-- A log whose tables are new.
abbrev pub empty_tables : Log
empty_tables = record { entries = []; checkpoints = [] }

abbrev pub body_for : Text → Reservation → AppendOptions → LogEntryBody
body_for actor slot opts = record {
  seq = slot.seq;
  ts = opts.ts;
  type = opts.type;
  actor = actor;
  payload = opts.payload;
  prev_hash = slot.prev_hash;
}

-- `bodyOf`.
abbrev pub body_of : LogEntry → LogEntryBody
body_of e = record {
  seq = e.seq;
  ts = e.ts;
  type = e.type;
  actor = e.actor;
  payload = e.payload;
  prev_hash = e.prev_hash;
}

module _ (sodium : Sodium) where
  unfoldable pub compute_entry_hash : LogEntryBody → Result CanonicalizationError Bytes
  unfolding entry_commitment_bytes
  compute_entry_hash body =
      map_ok (λ bytes. domain_hash sodium entry_domain (bytes ∷ [])) (entry_commitment_bytes body)

  -- The entry that `append` makes of a body and of the bytes that the body commits to.
  unfoldable pub signed_entry : Writer → LogEntryBody → Bytes → LogEntry
  signed_entry w body commitment = record {
    seq = body.seq;
    ts = body.ts;
    type = body.type;
    actor = body.actor;
    payload = body.payload;
    prev_hash = body.prev_hash;
    hash = to_hex (domain_hash sodium entry_domain (commitment ∷ []));
    signature = to_hex (sign_domain sodium entry_domain commitment w.secret_key);
    signer_public_key = to_hex (sodium.public_key w.secret_key);
  }

  -- The second half of `append`, after the reservation: hash, sign and insert.
  unfoldable pub commit :
      Writer → Reservation → AppendOptions → Log → Result LogError (LogEntry × Log)
  unfolding signed_entry
  commit w slot opts log =
      let body = body_for w.actor slot opts in
      and_then (thrown (entry_commitment_bytes body)) (λ commitment.
        map_ok (λ rows. (signed_entry w body commitment, record log { entries = rows }))
          (insert_entry (signed_entry w body commitment) log.entries))

  unfoldable pub append : Writer → AppendOptions → Log → Result LogError (LogEntry × Log)
  unfolding commit
  append w opts log = commit w (reserve log.entries) opts log

  unfoldable pub entry_hashes : Log → List Bytes
  entry_hashes log = map (λ e. from_hex e.hash) log.entries
