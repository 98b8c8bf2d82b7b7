-- ===== src/Log/Verify/Covered.antt =====
-- packages/log/src/verify.ts: what the findings on a checkpoint say of it.
use zero_window.Prelude.{
  ℕ, ◌≤◌, ◌≡◌, sym, ap, ◌∙◌, true, ◌&&◌, not, Bytes, Option, none, some, List, [], ◌∷◌, ◌++◌, map,
  length, take, ltb, equals, equals_iff, ok, arith, Bool-cases, Result-cases, inl, inr,
}
use zero_window.Crypto.Sodium.{Sodium}
use zero_window.Crypto.Hash.{verify_domain}
use zero_window.Encoding.{to_hex, from_hex}
use zero_window.Log.Merkle.{merkle_root}
use zero_window.Log.Types.{LogEntry, Checkpoint}
use zero_window.Log.Store.{checkpoint_domain, checkpoint_commitment_bytes}
use zero_window.Log.Store.Checkpoints.{checkpoint_body}
use zero_window.Log.Verify.{
  Signers, valid, is_valid, fatal, found_if, checkpoint_root_mismatch, checkpoint_under_anchored,
}
use zero_window.Log.Verify.Chain.{
  no_fatal, no_fatal-append, no_fatal-found_if, Passes, Passes-and_then,
}
use zero_window.Log.Verify.Checkpoints.{
  verify_checkpoint_self, covered_findings, checkpoint_findings, each_checkpoint, head_findings,
  entry_before, distinct_tsas, pinned_findings,
}

module _ (sodium : Sodium) where
  -- The checkpoint's signature verifies, it covers no more than there is, its root and its head
  -- hash are those of the entries that it covers, and enough different TSAs have anchored it.
  pub record IsCovered (min : ℕ) (entries : List LogEntry) (cp : Checkpoint) : Type 0 where
    pub commitment : Bytes
    pub encoded : checkpoint_commitment_bytes (checkpoint_body cp) ≡ ok commitment
    pub signed :
        verify_domain sodium checkpoint_domain commitment
          (from_hex cp.signature)
          (from_hex cp.signer_public_key)
        ≡ true
    pub within : cp.size ≤ length entries
    pub root :
        to_hex (merkle_root sodium (take cp.size (map (λ e. from_hex e.hash) entries))) ≡ cp.root
    pub head : (e : LogEntry) → entry_before cp.size entries ≡ some e → e.hash ≡ cp.head_hash
    pub anchored : min ≤ distinct_tsas cp.anchors []

  abbrev pub AllCovered : ℕ → List LogEntry → List Checkpoint → Type 0
  AllCovered min entries [] = Unit
  AllCovered min entries (cp ∷ cps) = IsCovered min entries cp × AllCovered min entries cps

  head_findings_lem :
      (o : Option LogEntry) (cp : Checkpoint)
      → no_fatal (head_findings o cp) ≡ true
      → (e : LogEntry) → o ≡ some e
      → e.hash ≡ cp.head_hash
  unfolding head_findings no_fatal
  head_findings_lem none cp h e p = cc
  head_findings_lem (some x) cp h e p =
      ap (λ (y : LogEntry). y.hash) (sym (some_inj p))
      ∙ ground (arith, equals_iff x.hash cp.head_hash)
    where
      some_inj : ◌≡◌ {A = Option LogEntry} (some x) (some e) → x ≡ e
      some_inj q = cc

  checkpoint_self_lem :
      (cp : Checkpoint)
      → verify_checkpoint_self sodium cp ≡ ok valid
      → (bytes : Bytes) × (checkpoint_commitment_bytes (checkpoint_body cp) ≡ ok bytes)
        × (verify_domain sodium checkpoint_domain bytes
              (from_hex cp.signature)
              (from_hex cp.signer_public_key)
            ≡ true)
  unfolding verify_checkpoint_self
  checkpoint_self_lem cp h =
      elim (Result-cases (checkpoint_commitment_bytes (checkpoint_body cp))) [
        | inr (error, failed) ↦ absurd (ground arith)
        | inl (bytes, enc) ↦ (bytes, enc, ground arith)
      ]

  -- The four tests of a checkpoint that is not too long.
  covered_findings_lem :
      (trusted : Option Signers) (min : ℕ) (entries : List LogEntry) (cp : Checkpoint)
      → no_fatal (covered_findings sodium trusted min entries cp) ≡ true
      → (cp.size ≤ length entries)
        × (to_hex (merkle_root sodium (take cp.size (map (λ e. from_hex e.hash) entries)))
            ≡ cp.root)
        × (no_fatal (head_findings (entry_before cp.size entries) cp) ≡ true)
        × (min ≤ distinct_tsas cp.anchors [])
  unfolding covered_findings
  covered_findings_lem trusted min entries cp h = elim (Bool-cases (ltb (length entries) cp.size)) [
    | inl over ↦ absurd (unfold no_fatal in ground arith)
    | inr within ↦
        let root =
          to_hex (merkle_root sodium (take cp.size (map (λ e. from_hex e.hash) entries))) in
        let roots = found_if (not (equals root cp.root)) fatal checkpoint_root_mismatch cp.size in
        let heads = head_findings (entry_before cp.size entries) cp in
        let pins = pinned_findings trusted cp in
        let under =
          found_if (ltb (distinct_tsas cp.anchors []) min) fatal checkpoint_under_anchored
            cp.size in
        let clean : no_fatal (roots ++ (heads ++ (pins ++ under))) ≡ true = rw within at h in
        let split : no_fatal (roots ++ (heads ++ (pins ++ under))) ≡ (
            not (not (equals root cp.root))
            && (no_fatal heads && (no_fatal pins && not (ltb (distinct_tsas cp.anchors []) min)))) =
          rw (
            no_fatal-append roots (heads ++ (pins ++ under)),
            no_fatal-append heads (pins ++ under),
            no_fatal-append pins under,
            no_fatal-found_if (not (equals root cp.root)) checkpoint_root_mismatch cp.size,
            no_fatal-found_if (ltb (distinct_tsas cp.anchors []) min) checkpoint_under_anchored
                cp.size,
          ) in
        (ground arith, ground (arith, equals_iff root cp.root), ground arith, ground arith)
  ]

  checkpoint_findings_lem :
      (trusted : Option Signers) (min : ℕ) (entries : List LogEntry) (cp : Checkpoint)
      → Passes (checkpoint_findings sodium trusted min entries cp)
      → IsCovered min entries cp
  unfolding checkpoint_findings
  checkpoint_findings_lem trusted min entries cp h =
      elim (Result-cases (verify_checkpoint_self sodium cp)) [
        | inr (error, failed) ↦ absurd (ground arith)
        | inl (self, checked) ↦ elim (Bool-cases (is_valid self)) [
          | inr bad ↦ absurd (unfold no_fatal in ground arith)
          | inl good ↦
              let (bytes, enc, signed) = checkpoint_self_lem cp (checked ∙ ap ok (ground arith)) in
              let (within, root, heads, anchored) =
                covered_findings_lem trusted min entries cp (ground arith) in
              record {
                commitment = bytes;
                encoded = enc;
                signed = signed;
                within = within;
                root = root;
                head = head_findings_lem (entry_before cp.size entries) cp heads;
                anchored = anchored;
              }
        ]
      ]

  pub each_checkpoint_lem :
      (trusted : Option Signers) (min : ℕ) (entries : List LogEntry) (cps : List Checkpoint)
      → Passes (each_checkpoint sodium trusted min entries cps)
      → AllCovered min entries cps
  unfolding each_checkpoint
  each_checkpoint_lem trusted min entries [] h = tt
  each_checkpoint_lem trusted min entries (cp ∷ cps) h =
      let (one, more) =
        (Passes-and_then sodium (checkpoint_findings sodium trusted min entries cp)
            (each_checkpoint sodium trusted min entries cps)).0
          h in
      (
        checkpoint_findings_lem trusted min entries cp one,
        each_checkpoint_lem trusted min entries cps more,
      )
