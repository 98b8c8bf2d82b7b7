-- ===== src/Crypto/KekEngine/Custody.antt =====
-- packages/crypto/src/kek-engine.ts: splitting a key among custodians, and reconstructing it for
-- its recipients. `ephemeral i` is the random key of the sealed box number i.
use zero_window.Prelude.{
  ℕ, suc, not, Bytes, Text, some, List, [], ◌∷◌, length, ltb, equals, if◌then◌else◌, Result, ok,
  err, map_ok, and_then,
}
use zero_window.Crypto.Sodium.{Sodium}
use zero_window.Crypto.Aead.{aead_key_bytes}
use zero_window.Crypto.Box.{Boxes, BoxError, seal}
use zero_window.Crypto.Share.{ShamirShare, ShareError, serialize_share, parse_share}
use zero_window.Crypto.Shamir.{SplitError, shamir_split, shamir_combine}
use zero_window.Crypto.KekEngine.{
  KekEngine, KekError, Outcome, provider_closed, share_invalid, fingerprint_mismatch, split_failed,
  share_failed, box_failed, held, destroy, fingerprint_of,
}

pub record CustodianRecipient : Type 0 where
  pub custodian_id : Text
  pub box_public_key : Bytes

pub record EncryptedShare : Type 0 where
  pub custodian_id : Text
  pub x : ℕ
  pub sealed : Bytes

pub record KekRecipient : Type 0 where
  pub recipient_id : Text
  pub box_public_key : Bytes

pub record WrappedKek : Type 0 where
  pub recipient_id : Text
  pub sealed : Bytes
  pub kek_fingerprint : Bytes

-- The lifetime of the key in memory, which a clock measures, is not among the results here.
pub record ReleaseResult : Type 0 where
  pub wrapped : List WrappedKek
  pub kek_fingerprint : Bytes

module _ {A : Type 0} where
  abbrev pub lift_split : Result SplitError A → Result KekError A
  lift_split (ok a) = ok a
  lift_split (err e) = err (split_failed e)

  abbrev pub lift_share : Result ShareError A → Result KekError A
  lift_share (ok a) = ok a
  lift_share (err e) = err (share_failed e)

  abbrev pub lift_box : Result BoxError A → Result KekError A
  lift_box (ok a) = ok a
  lift_box (err e) = err (box_failed e)

  -- What cannot be parsed or combined is an invalid share to the caller.
  abbrev pub or_invalid : {E : Type 0} → Result E A → Result KekError A
  or_invalid (ok a) = ok a
  or_invalid (err e) = err share_invalid

module _ (sodium : Sodium) where
  abbrev pub parse_shares : List Bytes → Result ShareError (List ShamirShare)
  parse_shares [] = ok []
  parse_shares (blob ∷ blobs) =
      and_then (parse_share sodium blob) (λ s. map_ok (◌∷◌ s) (parse_shares blobs))

module _ (boxes : Boxes) (ephemeral : ℕ → Bytes) where
  abbrev pub wrap_kek : ℕ → Bytes → Bytes → List KekRecipient → Result KekError (List WrappedKek)
  wrap_kek i kek fp [] = ok []
  wrap_kek i kek fp (r ∷ recipients) =
      and_then (lift_box (seal boxes (ephemeral i) kek r.box_public_key)) (λ sealed.
        map_ok
          (◌∷◌ (record { recipient_id = r.recipient_id; sealed = sealed; kek_fingerprint = fp }))
          (wrap_kek (suc i) kek fp recipients))

module _ (sodium : Sodium) (boxes : Boxes) (ephemeral : ℕ → Bytes) where
  unfoldable pub seal_share : ℕ → CustodianRecipient → ShamirShare → Result KekError EncryptedShare
  seal_share i custodian s = and_then (lift_share (serialize_share sodium s)) (λ blob.
      map_ok (λ sealed. record { custodian_id = custodian.custodian_id; x = s.x; sealed = sealed })
        (lift_box (seal boxes (ephemeral i) blob custodian.box_public_key)))

  -- There are as many shares as custodians.
  abbrev pub seal_shares :
      ℕ → List CustodianRecipient → List ShamirShare → Result KekError (List EncryptedShare)
  seal_shares i [] shares = ok []
  seal_shares i (c ∷ custodians) [] = ok []
  seal_shares i (c ∷ custodians) (s ∷ shares) =
      and_then (seal_share i c s)
        (λ first. map_ok (◌∷◌ first) (seal_shares (suc i) custodians shares))

  -- With the random bytes of the split.
  unfoldable pub split_and_destroy :
      (fill : ℕ → ℕ → Bytes)
      → Text
      → (threshold : ℕ) → List CustodianRecipient
      → KekEngine
      → Outcome (List EncryptedShare)
  split_and_destroy fill id threshold custodians engine = elim (held id engine) [
    | err e ↦ (err e, engine)
    | ok kek ↦ if ltb (length custodians) threshold then (err share_invalid, engine) else (
      and_then (lift_split (shamir_split fill kek threshold (length custodians)))
          (seal_shares 0 custodians),
      destroy id engine,
    )
  ]

  unfoldable pub reconstruct_wrap_release :
      (share_blobs : List Bytes)
      → List KekRecipient
      → (expected_fingerprint : Bytes) → KekEngine
      → Result KekError ReleaseResult
  reconstruct_wrap_release share_blobs recipients expected_fingerprint engine =
      if engine.closed
      then err provider_closed
      else and_then (or_invalid (parse_shares sodium share_blobs)) (λ shares.
        and_then (or_invalid (shamir_combine shares (some aead_key_bytes))) (λ kek.
          let fp = fingerprint_of sodium kek in
          if not (equals fp expected_fingerprint)
          then err fingerprint_mismatch
          else map_ok (λ wrapped. record { wrapped = wrapped; kek_fingerprint = fp })
              (wrap_kek boxes ephemeral 0 kek fp recipients)))
