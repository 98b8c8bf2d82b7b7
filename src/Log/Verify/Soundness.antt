-- ===== src/Log/Verify/Soundness.antt =====
-- packages/log/src/verify.ts: what a report without a fatal finding establishes.
use zero_window.Prelude.{
  ℕ, ◌≡◌, ap, ◌∙◌, true, ◌&&◌, not, Option, some, List, [], ◌∷◌, ◌++◌, ltb, ◌==◌, equals,
  equals_iff, ok, arith, Result-cases, inl, inr,
}
use zero_window.Crypto.Sodium.{Sodium}
use zero_window.Log.Types.{LogEntry, Checkpoint, EvidenceBundle}
use zero_window.Log.Store.Chain.{IsChain}
use zero_window.Log.Verify.{
  Signers, fatal, warning, found_if, checkpoint_fork, checkpoint_time_regression, verify_chain,
}
use zero_window.Log.Verify.Chain.{
  no_fatal, no_fatal-append, no_fatal-found_if, Passes, AllTrusted, verify_chain_iff,
}
use zero_window.Log.Verify.Checkpoints.{
  each_checkpoint, verify_checkpoints, fork_findings, sort_by_size,
}
use zero_window.Log.Verify.Evidence.{
  VerifyOptions, VerificationReport, verify_evidence, report_of, version_findings,
  anchors_checked_by, effective_signers,
}
use zero_window.Log.Verify.Covered.{AllCovered, each_checkpoint_lem}

-- Two neighbours of one size publish one root.
abbrev pub HasNoFork : List Checkpoint → Type 0
HasNoFork [] = Unit
HasNoFork (prev ∷ []) = Unit
HasNoFork (prev ∷ cur ∷ rest) =
    (prev.size ≡ cur.size → prev.root ≡ cur.root) × HasNoFork (cur ∷ rest)

module _ (sodium : Sodium) where
  fork_findings_lem : (cps : List Checkpoint) → no_fatal (fork_findings cps) ≡ true → HasNoFork cps
  fork_findings_lem [] h = tt
  fork_findings_lem (prev ∷ []) h = tt
  fork_findings_lem (prev ∷ cur ∷ rest) h =
      let forks = prev.size == cur.size && not (equals prev.root cur.root) in
      let split : no_fatal (fork_findings (prev ∷ cur ∷ rest)) ≡ (
          not forks
          && no_fatal (
              found_if (ltb cur.ts prev.ts) warning checkpoint_time_regression cur.size
              ++ fork_findings (cur ∷ rest))) =
        unfold fork_findings in
        no_fatal-append (found_if forks fatal checkpoint_fork cur.size) (
          found_if (ltb cur.ts prev.ts) warning checkpoint_time_regression cur.size
          ++ fork_findings (cur ∷ rest))
        ∙ ap
            (λ b.
              b
              && no_fatal (
                  found_if (ltb cur.ts prev.ts) warning checkpoint_time_regression cur.size
                  ++ fork_findings (cur ∷ rest)))
            (no_fatal-found_if forks checkpoint_fork cur.size) in
      let split' =
        no_fatal-append (found_if (ltb cur.ts prev.ts) warning checkpoint_time_regression cur.size)
          (fork_findings (cur ∷ rest)) in
      (
        (λ same. ground (arith, equals_iff prev.root cur.root)),
        fork_findings_lem (cur ∷ rest) (ground arith),
      )

  verify_checkpoints_lem :
      (trusted : Option Signers) (min : ℕ) (entries : List LogEntry) (cps : List Checkpoint)
      → Passes (verify_checkpoints sodium trusted min entries cps)
      → AllCovered sodium min entries cps × HasNoFork (sort_by_size cps)
  unfolding verify_checkpoints
  verify_checkpoints_lem trusted min entries cps h =
      elim (Result-cases (each_checkpoint sodium trusted min entries cps)) [
        | inr (error, failed) ↦ absurd (rw failed at h)
        | inl (found, checked) ↦
            let clean : no_fatal (found ++ fork_findings (sort_by_size cps)) ≡ true =
              rw checked at h in
            let split = no_fatal-append found (fork_findings (sort_by_size cps)) in
            let each : Passes (each_checkpoint sodium trusted min entries cps) =
              rw checked (ground arith) in
            (
              each_checkpoint_lem sodium trusted min entries cps each,
              fork_findings_lem (sort_by_size cps) (ground arith),
            )
      ]

version_lem :
    (bundle : EvidenceBundle) → no_fatal (version_findings bundle) ≡ true → bundle.version ≡ 1
unfolding version_findings no_fatal
version_lem bundle h = ground arith

-- If `verifyEvidence` returns a report that is ok, whatever the options, then the bundle has
-- version 1; its entries are a chain, each under the key that the auditor's signer map (or, if none
-- is given, the bundle's) has for its actor; every checkpoint's signature verifies, it covers no
-- more entries than there are, its root and head hash are those of the entries that it covers, and
-- it has anchors of the required number of different TSAs; and of checkpoints of one size, in the
-- order of sizes, neighbours publish one root.
pub verify_evidence_sound :
    (sodium : Sodium) (bundle : EvidenceBundle) (opts : VerifyOptions) {report : VerificationReport}
    → verify_evidence sodium bundle opts ≡ ok report
    → report.ok ≡ true
    → (bundle.version ≡ 1)
      × IsChain sodium bundle.entries
      × AllTrusted (some (effective_signers opts.trusted_signers bundle)) bundle.entries
      × AllCovered sodium opts.min_anchors bundle.entries bundle.checkpoints
      × HasNoFork (sort_by_size bundle.checkpoints)
unfolding verify_evidence report_of
verify_evidence_sound sodium bundle opts {report} h good =
    let trusted = some (effective_signers opts.trusted_signers bundle) in
    elim (Result-cases (verify_chain sodium trusted bundle.entries)) [
      | inr (error, failed) ↦ absurd (ground arith)
      | inl (chain, checked) ↦
          elim (Result-cases (
            verify_checkpoints sodium trusted opts.min_anchors bundle.entries bundle.checkpoints)) [
              | inr (error, failed) ↦ absurd (ground arith)
              | inl (points, covered) ↦
                  let versions = version_findings bundle in
                  let anchored = (anchors_checked_by opts.anchor_backends bundle.checkpoints).0 in
                  let same : report.findings ≡ versions ++ (chain ++ (points ++ anchored)) =
                    ground arith in
                  let clean : no_fatal (versions ++ (chain ++ (points ++ anchored))) ≡ true =
                    ground arith in
                  let split1 = no_fatal-append versions (chain ++ (points ++ anchored)) in
                  let split2 = no_fatal-append chain (points ++ anchored) in
                  let split3 = no_fatal-append points anchored in
                  let passed : Passes (verify_chain sodium trusted bundle.entries) =
                    rw checked (ground arith) in
                  let passed' : Passes (
                      verify_checkpoints sodium trusted opts.min_anchors bundle.entries
                        bundle.checkpoints) =
                    rw covered (ground arith) in
                  let (links, keys) = (verify_chain_iff sodium trusted bundle.entries).0 passed in
                  let (all, forks) =
                    verify_checkpoints_lem sodium trusted opts.min_anchors bundle.entries
                      bundle.checkpoints passed' in
                  (version_lem bundle (ground arith), links, keys, all, forks)
            ]
    ]
