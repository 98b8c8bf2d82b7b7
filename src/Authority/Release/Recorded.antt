-- ===== src/Authority/Release/Recorded.antt =====
-- packages/authority/src/release.ts: what the payloads of a release say, read by their keys.
use zero_window.Prelude.{ℕ, ◌-◌, refl, Text, List, [], ◌∷◌, map, equals}
use zero_window.Encoding.{to_hex}
use zero_window.Crypto.Sodium.{Sodium}
use zero_window.Crypto.Hash.{codes, domain_hash}
use zero_window.Log.Canonical.{Fields}
use zero_window.Log.Fields.{AreTexts, HasText, HasNumber, HasTexts}
use zero_window.Authority.Store.{BundleRecord, ScheduleRecord}
use zero_window.Authority.Service.{texts}
use zero_window.Authority.Release.{
  SubmittedShare, ReleaseOptions, WrappedFor, early_payload, approval_payload, released_payload,
}

pub AreTexts-texts : (ts : List Text) → AreTexts ts (texts ts)
AreTexts-texts [] = tt
AreTexts-texts (t ∷ ts) = (refl, AreTexts-texts ts)

-- An early attempt: the time it was made, the time set, and the custodians who made it.
abbrev pub RecordsAttempt : BundleRecord → ScheduleRecord → ReleaseOptions → Fields → Type 0
RecordsAttempt b s opts payload =
    HasText (codes "bundle_id") opts.bundle_id payload
    × HasText (codes "exam_id") b.exam_id payload
    × HasNumber (codes "release_at") s.release_at payload
    × HasNumber (codes "attempted_at") opts.now payload
    × HasNumber (codes "early_by_ms") (s.release_at - opts.now) payload
    × HasTexts (codes "custodian_ids") (map (λ share. share.custodian_id) opts.shares) payload

pub early_payload-RecordsAttempt :
    (b : BundleRecord) (s : ScheduleRecord) (opts : ReleaseOptions)
    → RecordsAttempt b s opts (early_payload b s opts)
unfolding equals
early_payload-RecordsAttempt b s opts = (refl, refl, refl, refl, refl, (_, refl, AreTexts-texts _))

-- A release: its custodians, the centres that got the key, its times and its limits.
abbrev pub RecordsRelease :
    BundleRecord → ScheduleRecord → ReleaseOptions → ℕ → List WrappedFor → Fields → Type 0
RecordsRelease b s opts lifetime_us wrapped payload =
    HasText (codes "bundle_id") opts.bundle_id payload
    × HasText (codes "exam_id") b.exam_id payload
    × HasText (codes "kek_fingerprint") b.kek_fingerprint payload
    × HasNumber (codes "threshold") b.threshold payload
    × HasTexts (codes "custodian_ids") (map (λ share. share.custodian_id) opts.shares) payload
    × HasTexts (codes "centre_ids") (map (λ w. w.centre_id) wrapped) payload
    × HasNumber (codes "kek_lifetime_us") lifetime_us payload
    × HasNumber (codes "kek_budget_ms") 500 payload
    × HasNumber (codes "scheduled_at") s.release_at payload
    × HasNumber (codes "released_at") opts.now payload

pub released_payload-RecordsRelease :
    (b : BundleRecord) (s : ScheduleRecord) (opts : ReleaseOptions) (lifetime_us : ℕ)
    (wrapped : List WrappedFor)
    → RecordsRelease b s opts lifetime_us wrapped
        (released_payload b s opts (map (λ w. w.centre_id) wrapped) lifetime_us)
unfolding equals
released_payload-RecordsRelease b s opts lifetime_us wrapped = (
  refl,
  refl,
  refl,
  refl,
  (_, refl, AreTexts-texts _),
  (_, refl, AreTexts-texts _),
  refl,
  refl,
  refl,
  refl,
)

module _ (sodium : Sodium) where
  abbrev pub RecordsApproval : BundleRecord → Text → SubmittedShare → Fields → Type 0
  RecordsApproval b bundle_id s payload =
      HasText (codes "bundle_id") bundle_id payload
      × HasText (codes "exam_id") b.exam_id payload
      × HasText (codes "custodian_id") s.custodian_id payload
      × HasText (codes "share_hash")
          (to_hex (domain_hash sodium (codes "submitted-share") (s.share_blob ∷ []))) payload

  -- One approval for each share, in their order.
  abbrev pub RecordsApprovals : BundleRecord → Text → List SubmittedShare → List Fields → Type 0
  RecordsApprovals b bundle_id [] [] = Unit
  RecordsApprovals b bundle_id [] (p ∷ payloads) = ⊥
  RecordsApprovals b bundle_id (s ∷ shares) [] = ⊥
  RecordsApprovals b bundle_id (s ∷ shares) (p ∷ payloads) =
      RecordsApproval b bundle_id s p × RecordsApprovals b bundle_id shares payloads

  pub approval_payload-RecordsApprovals :
      (b : BundleRecord) (bundle_id : Text) (shares : List SubmittedShare)
      → RecordsApprovals b bundle_id shares (map (approval_payload sodium b bundle_id) shares)
  unfolding equals
  approval_payload-RecordsApprovals b bundle_id [] = tt
  approval_payload-RecordsApprovals b bundle_id (s ∷ shares) =
      ((refl, refl, refl, refl), approval_payload-RecordsApprovals b bundle_id shares)
