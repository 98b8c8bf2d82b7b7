-- ===== src/Log/Verify/Checkpoints.antt =====
-- packages/log/src/verify.ts: `verifyCheckpoints`, and the self check of a checkpoint.
use zero_window.Prelude.{
  ℕ, zero, suc, Bool, true, false, ◌&&◌, ◌||◌, not, Text, Option, none, some, List, [], ◌∷◌, ◌++◌,
  map, length, get_elem?, take, ltb, ◌==◌, equals, if◌then◌else◌, Result, ok, map_ok, and_then,
}
use zero_window.Crypto.Sodium.{Sodium}
use zero_window.Crypto.Hash.{verify_domain}
use zero_window.Encoding.{to_hex, from_hex}
use zero_window.Log.Canonical.{CanonicalizationError}
use zero_window.Log.Merkle.{merkle_root}
use zero_window.Log.Types.{LogEntry, Checkpoint, Anchor}
use zero_window.Log.Store.{checkpoint_domain, checkpoint_commitment_bytes}
use zero_window.Log.Store.Checkpoints.{checkpoint_body}
use zero_window.Log.Verify.{
  Finding, fatal, warning, Signers, SelfCheck, valid, signature_invalid, is_valid, found_if,
  checkpoint_invalid, checkpoint_overrun, checkpoint_root_mismatch, checkpoint_head_mismatch,
  checkpoint_signer_untrusted, checkpoint_under_anchored, checkpoint_fork,
  checkpoint_time_regression,
}

-- Is the text among the keys of the set.
unfoldable pub includes : Text → List Text → Bool
includes t [] = false
includes t (u ∷ us) = equals t u || includes t us

-- `Object.values`.
abbrev pub values : Signers → List Text
values [] = []
values ((_, key) ∷ rest) = key ∷ values rest

-- The size of `new Set(cp.anchors.map((a) => a.tsa))`.
unfoldable pub distinct_tsas : List Anchor → List Text → ℕ
unfolding includes
distinct_tsas [] seen = length seen
distinct_tsas (a ∷ as') seen =
    distinct_tsas as' (if includes a.tsa seen then seen else a.tsa ∷ seen)

-- `entries[cp.size - 1]`, undefined at size 0.
abbrev pub entry_before : ℕ → List LogEntry → Option LogEntry
entry_before zero entries = none
entry_before (suc n) entries = get_elem? entries n

unfoldable pub head_findings : Option LogEntry → Checkpoint → List Finding
head_findings none cp = []
head_findings (some head) cp =
    found_if (not (equals head.hash cp.head_hash)) fatal checkpoint_head_mismatch cp.size

unfoldable pub pinned_findings : Option Signers → Checkpoint → List Finding
unfolding includes
pinned_findings none cp = []
pinned_findings (some signers) cp =
    found_if
      (ltb 0 (length (values signers)) && not (includes cp.signer_public_key (values signers)))
      fatal checkpoint_signer_untrusted cp.size

-- Stable sort by size.
unfoldable pub insert_by_size : Checkpoint → List Checkpoint → List Checkpoint
insert_by_size cp [] = cp ∷ []
insert_by_size cp (d ∷ ds) = if ltb d.size cp.size then d ∷ insert_by_size cp ds else cp ∷ d ∷ ds

unfoldable pub sort_by_size : List Checkpoint → List Checkpoint
unfolding insert_by_size
sort_by_size [] = []
sort_by_size (cp ∷ cps) = insert_by_size cp (sort_by_size cps)

-- The second loop of `verifyCheckpoints`, over neighbours.
unfoldable pub fork_findings : List Checkpoint → List Finding
fork_findings [] = []
fork_findings (prev ∷ []) = []
fork_findings (prev ∷ cur ∷ rest) =
    found_if (prev.size == cur.size && not (equals prev.root cur.root)) fatal checkpoint_fork
      cur.size
    ++ (found_if (ltb cur.ts prev.ts) warning checkpoint_time_regression cur.size
        ++ fork_findings (cur ∷ rest))

module _ (sodium : Sodium) where
  unfoldable pub verify_checkpoint_self : Checkpoint → Result CanonicalizationError SelfCheck
  verify_checkpoint_self cp =
      map_ok
        (λ commitment.
          if not (
            verify_domain sodium checkpoint_domain commitment (from_hex cp.signature)
              (from_hex cp.signer_public_key))
          then signature_invalid
          else valid)
        (checkpoint_commitment_bytes (checkpoint_body cp))

  -- One round of the first loop of `verifyCheckpoints`, for a checkpoint whose signature verifies.
  unfoldable pub covered_findings : Option Signers → ℕ → List LogEntry → Checkpoint → List Finding
  unfolding head_findings pinned_findings distinct_tsas
  covered_findings trusted min entries cp =
      if ltb (length entries) cp.size
      then found_if true fatal checkpoint_overrun cp.size
      else found_if
          (not (
            equals (to_hex (merkle_root sodium (take cp.size (map (λ e. from_hex e.hash) entries))))
              cp.root))
          fatal checkpoint_root_mismatch cp.size
        ++ (head_findings (entry_before cp.size entries) cp
            ++ (pinned_findings trusted cp
                ++ found_if (ltb (distinct_tsas cp.anchors []) min) fatal checkpoint_under_anchored
                    cp.size))

  unfoldable pub checkpoint_findings :
      Option Signers → ℕ → List LogEntry → Checkpoint → Result CanonicalizationError (List Finding)
  unfolding verify_checkpoint_self covered_findings
  checkpoint_findings trusted min entries cp =
      map_ok
        (λ self.
          if not (is_valid self)
          then found_if true fatal checkpoint_invalid cp.size
          else covered_findings trusted min entries cp)
        (verify_checkpoint_self cp)

  unfoldable pub each_checkpoint :
      Option Signers
      → ℕ
      → List LogEntry
      → List Checkpoint
      → Result CanonicalizationError (List Finding)
  unfolding checkpoint_findings
  each_checkpoint trusted min entries [] = ok []
  each_checkpoint trusted min entries (cp ∷ cps) =
      and_then (checkpoint_findings trusted min entries cp)
        (λ found. map_ok (λ more. found ++ more) (each_checkpoint trusted min entries cps))

  unfoldable pub verify_checkpoints :
      Option Signers
      → ℕ
      → List LogEntry
      → List Checkpoint
      → Result CanonicalizationError (List Finding)
  unfolding each_checkpoint sort_by_size fork_findings
  verify_checkpoints trusted min entries checkpoints =
      map_ok (λ found. found ++ fork_findings (sort_by_size checkpoints))
        (each_checkpoint trusted min entries checkpoints)
