-- ===== src/Log/Types.antt =====
-- packages/log/src/types.ts: what the log stores. Hashes, signatures and keys are hex texts;
-- timestamps are milliseconds, as natural numbers.
use zero_window.Prelude.{ℕ, Text, List}
use zero_window.Crypto.Hash.{codes}
use zero_window.Log.Canonical.{Value, Fields, number, integer, string, object, end, field}

pub data EventType : Type 0 where
  bundle_created shares_issued bundle_distributed bundle_received : EventType
  admit_tokens_issued : EventType
  release_scheduled early_release_attempt custodian_approved kek_released kek_received : EventType
  candidate_checked_in paper_generated paper_printed printer_failover : EventType
  exam_closed answer_key_released : EventType
  centre_enrolled centre_restored checkpoint : EventType

unfoldable pub event_name : EventType → Text
event_name bundle_created = codes "BUNDLE_CREATED"
event_name shares_issued = codes "SHARES_ISSUED"
event_name bundle_distributed = codes "BUNDLE_DISTRIBUTED"
event_name bundle_received = codes "BUNDLE_RECEIVED"
event_name admit_tokens_issued = codes "ADMIT_TOKENS_ISSUED"
event_name release_scheduled = codes "RELEASE_SCHEDULED"
event_name early_release_attempt = codes "EARLY_RELEASE_ATTEMPT"
event_name custodian_approved = codes "CUSTODIAN_APPROVED"
event_name kek_released = codes "KEK_RELEASED"
event_name kek_received = codes "KEK_RECEIVED"
event_name candidate_checked_in = codes "CANDIDATE_CHECKED_IN"
event_name paper_generated = codes "PAPER_GENERATED"
event_name paper_printed = codes "PAPER_PRINTED"
event_name printer_failover = codes "PRINTER_FAILOVER"
event_name exam_closed = codes "EXAM_CLOSED"
event_name answer_key_released = codes "ANSWER_KEY_RELEASED"
event_name centre_enrolled = codes "CENTRE_ENROLLED"
event_name centre_restored = codes "CENTRE_RESTORED"
event_name checkpoint = codes "CHECKPOINT"

pub record LogEntryBody : Type 0 where
  pub seq : ℕ
  pub ts : ℕ
  pub type : EventType
  pub actor : Text
  pub payload : Fields
  pub prev_hash : Text

pub record LogEntry : Type 0 where
  pub seq : ℕ
  pub ts : ℕ
  pub type : EventType
  pub actor : Text
  pub payload : Fields
  pub prev_hash : Text
  pub hash : Text
  pub signature : Text
  pub signer_public_key : Text

pub record Anchor : Type 0 where
  pub tsa : Text
  pub url : Text
  pub token : Text
  pub gen_time : ℕ
  pub imprint : Text
  pub hash_algorithm : Text

pub record CheckpointBody : Type 0 where
  pub size : ℕ
  pub root : Text
  pub head_hash : Text
  pub ts : ℕ

pub record Checkpoint : Type 0 where
  pub size : ℕ
  pub root : Text
  pub head_hash : Text
  pub ts : ℕ
  pub signature : Text
  pub signer_public_key : Text
  pub anchors : List Anchor

pub record EvidenceBundle : Type 0 where
  pub version : ℕ
  pub exam_id : Text
  pub entries : List LogEntry
  pub checkpoints : List Checkpoint
  pub signers : List (Text × Text)

-- The objects that the commitments encode.
unfoldable pub body_value : LogEntryBody → Value
unfolding event_name
body_value b = object (
    field (codes "seq") (number (integer b.seq)) (
      field (codes "ts") (number (integer b.ts)) (
        field (codes "type") (string (event_name b.type)) (
          field (codes "actor") (string b.actor) (
            field (codes "payload") (object b.payload)
              (field (codes "prevHash") (string b.prev_hash) end))))))

unfoldable pub checkpoint_value : CheckpointBody → Value
checkpoint_value b = object (
    field (codes "size") (number (integer b.size)) (
      field (codes "root") (string b.root) (
        field (codes "headHash") (string b.head_hash)
          (field (codes "ts") (number (integer b.ts)) end))))
