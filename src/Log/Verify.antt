-- ===== src/Log/Verify.antt =====
-- packages/log/src/verify.ts, and the two self checks of store.ts: the auditor's verification of
-- entries, checkpoints and anchors. A finding keeps its severity, code and place; the messages are
-- left out.
pub mod Chain
pub mod Checkpoints
pub mod Evidence
pub mod Covered
pub mod Soundness
use zero_window.Prelude.{
  ℕ, zero, suc, ◌+◌, ◌-◌, Bool, true, false, ◌&&◌, ◌||◌, not, Bytes, Text, Option, none, some, List,
  [], ◌∷◌, ◌++◌, map, length, get_elem?, take, ltb, ◌==◌, equals, if◌then◌else◌, Result, ok, err,
  map_ok, and_then,
}
use zero_window.Crypto.Sodium.{Sodium}
use zero_window.Crypto.Hash.{domain_hash, verify_domain}
use zero_window.Encoding.{to_hex, from_hex}
use zero_window.Log.Canonical.{CanonicalizationError}
use zero_window.Log.Merkle.{merkle_root}
use zero_window.Log.Types.{LogEntry, Checkpoint, Anchor, EvidenceBundle}
use zero_window.Log.Store.{
  zero_hash, entry_domain, checkpoint_domain, body_of, entry_commitment_bytes,
  checkpoint_commitment_bytes,
}
use zero_window.Log.Store.Checkpoints.{checkpoint_body}

pub data Severity : Type 0 where
  fatal warning : Severity

pub data Code : Type 0 where
  seq_discontinuity entry_invalid chain_root_invalid chain_broken timestamp_regression : Code
  signer_unknown signer_untrusted : Code
  checkpoint_invalid checkpoint_overrun checkpoint_root_mismatch checkpoint_head_mismatch : Code
  checkpoint_signer_untrusted checkpoint_under_anchored checkpoint_fork : Code
  checkpoint_time_regression : Code
  anchor_backend_unavailable anchor_invalid anchor_predates_checkpoint anchor_late : Code
  evidence_version : Code

pub record Finding : Type 0 where
  pub severity : Severity
  pub code : Code
  pub place : Option ℕ

abbrev pub Signers : Type 0
Signers = List (Text × Text)

-- One finding, if the test holds.
abbrev pub found_if : Bool → Severity → Code → ℕ → List Finding
found_if test severity code n =
    if test then record { severity = severity; code = code; place = some n } ∷ [] else []

unfoldable pub lookup_signer : Text → Signers → Option Text
lookup_signer actor [] = none
lookup_signer actor ((a, key) ∷ rest) =
    if equals a actor then some key else lookup_signer actor rest

-- What the self checks say: `ok`, or which of the two tests failed.
pub data SelfCheck : Type 0 where
  valid hash_mismatch signature_invalid : SelfCheck

abbrev pub is_valid : SelfCheck → Bool
is_valid valid = true
is_valid _ = false

unfoldable pub link_findings : Option LogEntry → LogEntry → List Finding
link_findings none e = found_if (not (equals e.prev_hash zero_hash)) fatal chain_root_invalid e.seq
link_findings (some prev) e = found_if (not (equals e.prev_hash prev.hash)) fatal chain_broken e.seq

unfoldable pub time_findings : Option LogEntry → LogEntry → List Finding
time_findings none e = []
time_findings (some prev) e = found_if (ltb e.ts prev.ts) warning timestamp_regression e.seq

unfoldable pub signer_findings : Option Signers → LogEntry → List Finding
signer_findings none e = []
signer_findings (some signers) e = elim (lookup_signer e.actor signers) [
  | none ↦ found_if true fatal signer_unknown e.seq
  | some key ↦ found_if (not (equals key e.signer_public_key)) fatal signer_untrusted e.seq
]

module _ (sodium : Sodium) where
  unfoldable pub verify_entry_self : LogEntry → Result CanonicalizationError SelfCheck
  verify_entry_self e =
      map_ok
        (λ commitment.
          if not (equals (to_hex (domain_hash sodium entry_domain (commitment ∷ []))) e.hash)
          then hash_mismatch
          else if not (
              verify_domain sodium entry_domain commitment (from_hex e.signature)
                (from_hex e.signer_public_key))
          then signature_invalid
          else valid)
        (entry_commitment_bytes (body_of e))

  -- One round of the loop of `verifyChain`.
  unfoldable pub entry_findings :
      Option Signers → ℕ → Option LogEntry → LogEntry → Result CanonicalizationError (List Finding)
  unfolding verify_entry_self link_findings time_findings signer_findings
  entry_findings trusted i prev e =
      map_ok
        (λ self.
          found_if (not (e.seq == i)) fatal seq_discontinuity e.seq
          ++ (found_if (not (is_valid self)) fatal entry_invalid e.seq
              ++ (link_findings prev e ++ (time_findings prev e ++ signer_findings trusted e))))
        (verify_entry_self e)

  unfoldable pub chain_from :
      Option Signers
      → ℕ
      → Option LogEntry
      → List LogEntry
      → Result CanonicalizationError (List Finding)
  unfolding entry_findings
  chain_from trusted i prev [] = ok []
  chain_from trusted i prev (e ∷ es) =
      and_then (entry_findings trusted i prev e)
        (λ found. map_ok (λ more. found ++ more) (chain_from trusted (suc i) (some e) es))

  unfoldable pub verify_chain :
      Option Signers → List LogEntry → Result CanonicalizationError (List Finding)
  unfolding chain_from
  verify_chain trusted entries = chain_from trusted 0 none entries
