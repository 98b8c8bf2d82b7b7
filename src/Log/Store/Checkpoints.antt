-- ===== src/Log/Store/Checkpoints.antt =====
-- packages/log/src/store.ts: checkpoints, anchors and the evidence bundle.
use zero_window.Prelude.{
  ℕ, Bool, true, false, Bytes, Text, Option, none, some, List, [], ◌∷◌, ◌++◌, length, get_last?,
  ltb, ◌==◌, equals, if◌then◌else◌, Result, ok, err, and_then,
}
use zero_window.Crypto.Sodium.{Sodium}
use zero_window.Crypto.Hash.{sign_domain}
use zero_window.Encoding.{to_hex}
use zero_window.Log.Merkle.{merkle_root}
use zero_window.Log.Types.{LogEntry, Checkpoint, CheckpointBody, Anchor, EvidenceBundle}
use zero_window.Log.Store.{
  Log, Writer, LogError, empty_log, unknown_checkpoint, imprint_mismatch, thrown, checkpoint_domain,
  checkpoint_commitment_bytes, entry_hashes,
}

-- `SELECT * FROM checkpoints WHERE size = ?`.
unfoldable pub checkpoint_of : ℕ → List Checkpoint → Option Checkpoint
checkpoint_of size [] = none
checkpoint_of size (row ∷ rows) = if row.size == size then some row else checkpoint_of size rows

-- `INSERT … ON CONFLICT(size) DO NOTHING`, in the order of the key.
unfoldable pub insert_checkpoint : Checkpoint → List Checkpoint → List Checkpoint
insert_checkpoint cp [] = cp ∷ []
insert_checkpoint cp (row ∷ rows) =
    if ltb row.size cp.size
    then row ∷ insert_checkpoint cp rows
    else if row.size == cp.size
    then row ∷ rows
    else cp ∷ row ∷ rows

-- `UPDATE checkpoints SET anchors = ? WHERE size = ?`.
unfoldable pub update_anchors : ℕ → List Anchor → List Checkpoint → List Checkpoint
update_anchors size anchors [] = []
update_anchors size anchors (row ∷ rows) =
    (if row.size == size then record row { anchors = anchors } else row)
    ∷ update_anchors size anchors rows

unfoldable pub all_imprints_match : Text → List Anchor → Bool
all_imprints_match root [] = true
all_imprints_match root (a ∷ as') =
    if equals a.imprint root then all_imprints_match root as' else false

unfoldable pub attach_anchors : ℕ → List Anchor → Log → Result LogError (Checkpoint × Log)
unfolding checkpoint_of update_anchors all_imprints_match
attach_anchors size anchors log = elim (checkpoint_of size log.checkpoints) [
  | none ↦ err unknown_checkpoint
  | some existing ↦
      if all_imprints_match existing.root anchors
      then ok (
        record existing { anchors = existing.anchors ++ anchors },
        record log {
          checkpoints = update_anchors size (existing.anchors ++ anchors) log.checkpoints;
        },
      )
      else err imprint_mismatch
]

-- `signers[e.actor] = e.signerPublicKey`.
unfoldable pub put_signer : Text → Text → List (Text × Text) → List (Text × Text)
put_signer actor key [] = (actor, key) ∷ []
put_signer actor key ((a, k) ∷ rest) =
    if equals a actor then (a, key) ∷ rest else (a, k) ∷ put_signer actor key rest

unfoldable pub signers_from : List (Text × Text) → List LogEntry → List (Text × Text)
unfolding put_signer
signers_from signers [] = signers
signers_from signers (e ∷ es) = signers_from (put_signer e.actor e.signer_public_key signers) es

unfoldable pub evidence : Text → Log → EvidenceBundle
unfolding signers_from
evidence exam_id log = record {
  version = 1;
  exam_id = exam_id;
  entries = log.entries;
  checkpoints = log.checkpoints;
  signers = signers_from [] log.entries;
}

abbrev pub checkpoint_body : Checkpoint → CheckpointBody
checkpoint_body cp = record { size = cp.size; root = cp.root; head_hash = cp.head_hash; ts = cp.ts }

module _ (sodium : Sodium) where
  -- What `createCheckpoint` commits to, for the hashes of the log and the hash of its head.
  unfoldable pub body_over : List Bytes → Bytes → ℕ → CheckpointBody
  body_over hashes head ts = record {
    size = length hashes;
    root = to_hex (merkle_root sodium hashes);
    head_hash = to_hex head;
    ts = ts;
  }

  unfoldable pub signed_checkpoint : Writer → CheckpointBody → Bytes → Checkpoint
  signed_checkpoint w body commitment = record {
    size = body.size;
    root = body.root;
    head_hash = body.head_hash;
    ts = body.ts;
    signature = to_hex (sign_domain sodium checkpoint_domain commitment w.secret_key);
    signer_public_key = to_hex (sodium.public_key w.secret_key);
    anchors = [];
  }

  -- The row that is stored under the size, if there is one, and otherwise the new checkpoint.
  abbrev stored_or : Checkpoint → Option Checkpoint → Checkpoint
  stored_or cp none = cp
  stored_or cp (some stored) = stored

  abbrev store_checkpoint : Checkpoint → Log → Checkpoint × Log
  store_checkpoint cp log =
      let rows = insert_checkpoint cp log.checkpoints in
      (stored_or cp (checkpoint_of cp.size rows), record log { checkpoints = rows })

  unfoldable pub create_checkpoint : Writer → ℕ → Log → Result LogError (Checkpoint × Log)
  unfolding body_over signed_checkpoint insert_checkpoint checkpoint_of
  create_checkpoint w ts log = elim (get_last? (entry_hashes sodium log)) [
    | none ↦ err empty_log
    | some head ↦
        let body = body_over (entry_hashes sodium log) head ts in
        and_then (thrown (checkpoint_commitment_bytes body))
          (λ commitment. ok (store_checkpoint (signed_checkpoint w body commitment) log))
  ]
