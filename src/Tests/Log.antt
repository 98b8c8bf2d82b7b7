-- ===== src/Tests/Log.antt =====
-- A log of two entries, written and verified.
use zero_window.Prelude.{
  ◌≡◌, refl, ◌↔◌, true, false, none, some, List, [], ◌∷◌, ◌++◌, Result, ok, err, equals,
}
use zero_window.Prelude.Sort.{sort_by, precedes}
use zero_window.Crypto.Hash.{codes, domain_hash, sign_domain, verify_domain}
use zero_window.Encoding.{to_hex, from_hex, utf8}
use zero_window.Log.Canonical.{end, field, string, CanonicalizationError, canonicalize}
use zero_window.Log.Merkle.{merkle_root, root_of, leaf_hash, node_hash, empty_root}
use zero_window.Log.Types.{
  LogEntry, Checkpoint, EvidenceBundle, kek_received, body_value, checkpoint_value,
}
use zero_window.Log.Store.{
  Log, Writer, AppendOptions, LogError, append, empty_tables, reserve, insert_entry,
  entry_commitment_bytes, checkpoint_commitment_bytes, entry_hashes,
}
use zero_window.Log.Store.Chain.{IsChain}
use zero_window.Log.Store.Appends.{append-IsChain, Reach-IsChain, here, next, reserves, Shared}
use zero_window.Log.Store.Checkpoints.{create_checkpoint, evidence}
use zero_window.Log.Verify.{verify_chain, lookup_signer}
use zero_window.Log.Verify.Chain.{Passes, AllTrusted, verify_chain_iff}
use zero_window.Log.Verify.Checkpoints.{verify_checkpoints, sort_by_size}
use zero_window.Log.Verify.Evidence.{
  VerifyOptions, VerificationReport, verify_evidence, effective_signers,
}
use zero_window.Log.Verify.Covered.{AllCovered}
use zero_window.Log.Verify.Soundness.{HasNoFork, verify_evidence_sound}
use zero_window.Tests.Toy.{toy, toy_laws}

abbrev writer : Writer
writer = record { actor = codes "centre-A"; secret_key = 1 ∷ 2 ∷ [] }

abbrev first : AppendOptions
first = record { type = kek_received; payload = field (codes "b") (string (codes "x")) end; ts = 5 }

abbrev nothing : LogEntry × Log
nothing = (
  record {
    seq = 0;
    ts = 0;
    type = kek_received;
    actor = [];
    payload = end;
    prev_hash = [];
    hash = [];
    signature = [];
    signer_public_key = [];
  },
  empty_tables,
)

abbrev returned : Result LogError (LogEntry × Log) → LogEntry × Log
returned (ok r) = r
returned (err e) = nothing

abbrev after_first : LogEntry × Log
after_first = returned (append toy writer first empty_tables)

-- Names the definitions that a run of the log computes with.
unfoldable pub run_log : Unit {0}
unfolding append reserve entry_commitment_bytes checkpoint_commitment_bytes body_value
    checkpoint_value canonicalize sort_by precedes utf8 domain_hash sign_domain verify_domain
    insert_entry to_hex from_hex create_checkpoint evidence verify_evidence verify_chain
    verify_checkpoints merkle_root root_of leaf_hash node_hash empty_root entry_hashes equals
    lookup_signer
run_log = tt

append-first : append toy writer first empty_tables ≡ ok after_first
unfolding run_log
append-first = refl

append-IsChain_example :
    (after_first.1.entries ≡ after_first.0 ∷ [])
    × IsChain toy after_first.1.entries
    × (after_first.1.checkpoints ≡ [])
    × (after_first.0.type ≡ kek_received)
    × (after_first.0.payload ≡ first.payload)
    × (after_first.0.ts ≡ 5)
    × (after_first.0.actor ≡ codes "centre-A")
append-IsChain_example = append-IsChain toy toy_laws writer first empty_tables tt append-first

abbrev one_pending : Shared
one_pending = record {
  log = after_first.1;
  pending = record { writer = writer; opts = first; slot = reserve after_first.1.entries } ∷ [];
}

Reach-IsChain_example :
    IsChain toy one_pending.log.entries
    × ((added : List LogEntry) × (one_pending.log.entries ≡ after_first.1.entries ++ added))
Reach-IsChain_example =
    Reach-IsChain toy toy_laws after_first.1 append-IsChain_example.1
      (next here (reserves writer first))

verify_chain_iff_example :
    Passes (verify_chain toy none after_first.1.entries)
    ↔ (IsChain toy after_first.1.entries × AllTrusted none after_first.1.entries)
verify_chain_iff_example = verify_chain_iff toy none after_first.1.entries

abbrev options : VerifyOptions
options = record { trusted_signers = none; anchor_backends = []; min_anchors = 0 }

abbrev no_report : VerificationReport
no_report = record {
  ok = false;
  entries_checked = 0;
  checkpoints_checked = 0;
  anchors_checked = 0;
  findings = [];
}

abbrev reported : Result CanonicalizationError VerificationReport → VerificationReport
reported (ok r) = r
reported (err e) = no_report

abbrev pointed : Result LogError (Checkpoint × Log) → Log
pointed (ok r) = r.1
pointed (err e) = empty_tables

abbrev checkpointed : Log
checkpointed = pointed (create_checkpoint toy writer 9 after_first.1)

abbrev bundle : EvidenceBundle
bundle = evidence (codes "exam") checkpointed

abbrev report : VerificationReport
report = reported (verify_evidence toy bundle options)

verify_evidence-run : verify_evidence toy bundle options ≡ ok report
unfolding run_log
verify_evidence-run = refl

report-ok : (report.ok ≡ true) × (report.entries_checked ≡ 1) × (report.checkpoints_checked ≡ 1)
unfolding run_log
report-ok = (refl, refl, refl)

verify_evidence_sound_example :
    (bundle.version ≡ 1)
    × IsChain toy bundle.entries
    × AllTrusted (some (effective_signers none bundle)) bundle.entries
    × AllCovered toy 0 bundle.entries bundle.checkpoints
    × HasNoFork (sort_by_size bundle.checkpoints)
verify_evidence_sound_example =
    verify_evidence_sound toy bundle options verify_evidence-run report-ok.0
