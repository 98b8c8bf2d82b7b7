-- ===== src/Log/Verify/Evidence.antt =====
-- packages/log/src/verify.ts: `verifyAnchors` and `verifyEvidence`. An anchor backend is a service
-- outside the repository's control: its verdict on a token is a parameter.
use zero_window.Prelude.{
  ℕ, ◌+◌, Bool, true, Bytes, Text, Option, none, some, List, [], ◌∷◌, ◌++◌, length, ltb, ◌==◌,
  equals, if◌then◌else◌, Result, map_ok, and_then,
}
use zero_window.Crypto.Sodium.{Sodium}
use zero_window.Encoding.{from_hex}
use zero_window.Log.Canonical.{CanonicalizationError}
use zero_window.Log.Types.{Checkpoint, Anchor, EvidenceBundle}
use zero_window.Log.Verify.{
  Finding, fatal, warning, Signers, found_if, anchor_backend_unavailable, anchor_invalid,
  anchor_predates_checkpoint, anchor_late, evidence_version, verify_chain,
}
use zero_window.Log.Verify.Checkpoints.{verify_checkpoints}
use zero_window.Log.Verify.Chain.{no_fatal}

-- `accepts` holds where `verify(anchor, root)` resolves, and fails where it throws.
pub record AnchorBackend : Type 0 where
  pub name : Text
  pub accepts : Anchor → Bytes → Bool

unfoldable pub find_backend : Text → List AnchorBackend → Option AnchorBackend
find_backend tsa [] = none
find_backend tsa (b ∷ bs) = if equals b.name tsa then some b else find_backend tsa bs

-- More than a minute before the checkpoint, or more than a day after it, in milliseconds.
unfoldable pub skew_findings : Checkpoint → Anchor → List Finding
skew_findings cp a =
    if ltb (a.gen_time + 60_000) cp.ts
    then found_if true fatal anchor_predates_checkpoint cp.size
    else found_if (ltb (cp.ts + 86_400_000) a.gen_time) warning anchor_late cp.size

-- The findings of one anchor, and how many anchors it counts for.
unfoldable pub anchor_findings : List AnchorBackend → Checkpoint → Anchor → List Finding × ℕ
unfolding find_backend skew_findings
anchor_findings backends cp a = elim (find_backend a.tsa backends) [
  | none ↦ (found_if true warning anchor_backend_unavailable cp.size, 0)
  | some backend ↦
      if backend.accepts a (from_hex cp.root)
      then (skew_findings cp a, 1)
      else (found_if true fatal anchor_invalid cp.size, 0)
]

unfoldable pub each_anchor : List AnchorBackend → Checkpoint → List Anchor → List Finding × ℕ
unfolding anchor_findings
each_anchor backends cp [] = ([], 0)
each_anchor backends cp (a ∷ as') =
    let (found, n) = anchor_findings backends cp a in
    let (more, m) = each_anchor backends cp as' in (found ++ more, n + m)

unfoldable pub verify_anchors : List Checkpoint → List AnchorBackend → List Finding × ℕ
unfolding each_anchor
verify_anchors [] backends = ([], 0)
verify_anchors (cp ∷ cps) backends =
    let (found, n) = each_anchor backends cp cp.anchors in
    let (more, m) = verify_anchors cps backends in (found ++ more, n + m)

pub record VerifyOptions : Type 0 where
  pub trusted_signers : Option Signers
  -- Empty where the option is omitted.
  pub anchor_backends : List AnchorBackend
  pub min_anchors : ℕ

pub record VerificationReport : Type 0 where
  pub ok : Bool
  pub entries_checked : ℕ
  pub checkpoints_checked : ℕ
  pub anchors_checked : ℕ
  pub findings : List Finding

unfoldable pub effective_signers : Option Signers → EvidenceBundle → Signers
effective_signers none bundle = bundle.signers
effective_signers (some signers) bundle = signers

-- With no backend `verifyAnchors` is not called.
unfoldable pub anchors_checked_by : List AnchorBackend → List Checkpoint → List Finding × ℕ
unfolding verify_anchors
anchors_checked_by [] cps = ([], 0)
anchors_checked_by (b ∷ bs) cps = verify_anchors cps (b ∷ bs)

unfoldable pub report_of : EvidenceBundle → List Finding → ℕ → VerificationReport
unfolding no_fatal
report_of bundle findings anchors = record {
  ok = no_fatal findings;
  entries_checked = length bundle.entries;
  checkpoints_checked = length bundle.checkpoints;
  anchors_checked = anchors;
  findings = findings;
}

unfoldable pub version_findings : EvidenceBundle → List Finding
version_findings bundle =
    if bundle.version == 1
    then []
    else record { severity = fatal; code = evidence_version; place = none } ∷ []

module _ (sodium : Sodium) where
  unfoldable pub verify_evidence :
      EvidenceBundle → VerifyOptions → Result CanonicalizationError VerificationReport
  unfolding report_of version_findings anchors_checked_by effective_signers
  verify_evidence bundle opts =
      let trusted = some (effective_signers opts.trusted_signers bundle) in
      let (anchored, n) = anchors_checked_by opts.anchor_backends bundle.checkpoints in
      and_then (verify_chain sodium trusted bundle.entries) (λ chain.
        map_ok
          (λ points.
            report_of bundle (version_findings bundle ++ (chain ++ (points ++ anchored))) n)
          (verify_checkpoints sodium trusted opts.min_anchors bundle.entries bundle.checkpoints))
