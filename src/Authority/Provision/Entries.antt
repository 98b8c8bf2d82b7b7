-- ===== src/Authority/Provision/Entries.antt =====
-- packages/authority/src/provision.ts: the share rows and the log entries of a bundle, described
-- apart from the code that writes them.
use zero_window.Prelude.{
  ℕ, suc, ◌+◌, ◌≡◌, refl, ap, subst, Bytes, Text, some, List, [], ◌∷◌, length, map, equals, ok,
  and_then-ok, map_ok-ok,
}
use zero_window.Encoding.{to_hex}
use zero_window.Crypto.Sodium.{Sodium}
use zero_window.Crypto.Hash.{codes, domain_hash}
use zero_window.Crypto.Box.{Boxes, seal}
use zero_window.Crypto.Share.{ShamirShare, serialize_share}
use zero_window.Crypto.Shamir.{shares_from}
use zero_window.Crypto.KekEngine.Custody.{
  CustodianRecipient, EncryptedShare, seal_share, seal_shares,
}
use zero_window.Crypto.KekEngine.Envelopes.{lift_share-ok, lift_box-ok}
use zero_window.Log.Canonical.{Fields, Items, nil, cons, object, array}
use zero_window.Log.Fields.{value_of, HasText, HasNumber}
use zero_window.Authority.Store.{BundleRecord, ShareRecord}
use zero_window.Authority.Provision.{ProvisionOptions, kind_name, share_row, issued_items}

module _ (sodium : Sodium) (boxes : Boxes) where
  -- The row holds a share with this index, sealed to the custodian's box key.
  abbrev pub IsSealedFor : ℕ → ℕ → CustodianRecipient → ShareRecord → Type 0
  IsSealedFor t x c r =
      (s : ShamirShare) × (blob : Bytes) × (ephemeral : Bytes) × (r.x ≡ x)
      × (s.x ≡ x)
      × (s.threshold ≡ t)
      × (serialize_share sodium s ≡ ok blob)
      × (seal boxes ephemeral blob c.box_public_key ≡ ok r.sealed)

  -- One row for each custodian, in their order, with the indexes from i + 1 on.
  abbrev pub AreShareRows :
      Text → (at t i : ℕ) → List CustodianRecipient → List ShareRecord → Type 0
  AreShareRows id at t i [] [] = Unit
  AreShareRows id at t i [] (r ∷ rows) = ⊥
  AreShareRows id at t i (c ∷ custodians) [] = ⊥
  AreShareRows id at t i (c ∷ custodians) (r ∷ rows) =
      (r.bundle_id ≡ id)
      × (r.custodian_id ≡ c.custodian_id)
      × (r.issued_at ≡ at)
      × IsSealedFor t (i + 1) c r
      × AreShareRows id at t (suc i) custodians rows

  -- The sealing of the shares of a split, one for each custodian.
  pub seal_shares-AreShareRows :
      (ephemeral : ℕ → Bytes) (id : Text) (at t : ℕ) (set_id : Bytes) (coeffs : List Bytes) (i : ℕ)
      (custodians : List CustodianRecipient) (shares : List EncryptedShare)
      → seal_shares sodium boxes ephemeral i custodians
          (shares_from set_id t coeffs i (length custodians))
        ≡ ok shares
      → (length shares ≡ length custodians)
        × AreShareRows id at t i custodians (map (share_row id at) shares)
  unfolding seal_share
  seal_shares-AreShareRows ephemeral id at t set_id coeffs i [] [] h = (refl, tt)
  seal_shares-AreShareRows ephemeral id at t set_id coeffs i [] (s ∷ shares) h = cc
  seal_shares-AreShareRows ephemeral id at t set_id coeffs i (c ∷ custodians) shares h =
      let first = and_then-ok _ _ shares h in
      let rest = map_ok-ok (◌∷◌ first.0) _ shares first.2 in
      let blob = and_then-ok _ _ first.0 first.1 in
      let sealed = map_ok-ok _ _ first.0 blob.2 in
      let later =
        seal_shares-AreShareRows ephemeral id at t set_id coeffs (suc i) custodians rest.0 rest.1 in
      subst
        (λ l.
          (length l ≡ suc (length custodians))
          × AreShareRows id at t i (c ∷ custodians) (map (share_row id at) l))
        rest.2
        (
          ap suc later.0,
          subst
              (λ e.
                AreShareRows id at t i (c ∷ custodians)
                  (share_row id at e ∷ map (share_row id at) rest.0))
              sealed.2
              (
                refl,
                refl,
                refl,
                (
                  _,
                  blob.0,
                  ephemeral i,
                  refl,
                  refl,
                  refl,
                  lift_share-ok _ blob.0 blob.1,
                  lift_box-ok _ sealed.0 sealed.1,
                ),
                later.1,
              ),
        )

  -- What the log says of a bundle that was created, by the keys of the payload.
  abbrev pub RecordsBundle : ProvisionOptions → BundleRecord → Fields → Type 0
  RecordsBundle opts b payload =
      HasText (codes "bundle_id") b.bundle_id payload
      × HasText (codes "exam_id") opts.bank.exam_id payload
      × HasText (codes "kind") (kind_name b.kind) payload
      × HasText (codes "bundle_hash") b.bundle_hash payload
      × HasText (codes "content_hash") b.content_hash payload
      × HasText (codes "kek_fingerprint") b.kek_fingerprint payload
      × HasNumber (codes "threshold") opts.threshold payload
      × HasNumber (codes "share_count") b.share_count payload
      × HasNumber (codes "item_count") (length opts.bank.items) payload

  -- One object for each row: its custodian, its index and the hash of its sealed share.
  abbrev pub AreShareItems : List ShareRecord → Items → Type 0
  AreShareItems [] nil = Unit
  AreShareItems [] (cons v items) = ⊥
  AreShareItems (r ∷ rows) nil = ⊥
  AreShareItems (r ∷ rows) (cons v items) =
      ((entry : Fields) × (v ≡ object entry)
        × HasText (codes "custodian_id") r.custodian_id entry
        × HasNumber (codes "x") r.x entry
        × HasText (codes "sealed_hash")
            (to_hex (domain_hash sodium (codes "sealed-share") (r.sealed ∷ []))) entry)
      × AreShareItems rows items

  abbrev pub RecordsShares : ProvisionOptions → Text → List ShareRecord → Fields → Type 0
  RecordsShares opts id rows payload =
      HasText (codes "bundle_id") id payload
      × HasText (codes "exam_id") opts.bank.exam_id payload
      × HasNumber (codes "threshold") opts.threshold payload
      × ((items : Items) × (value_of (codes "custodians") payload ≡ some (array items))
          × AreShareItems rows items)

  pub issued_items-AreShareItems :
      (id : Text) (at : ℕ) (shares : List EncryptedShare)
      → AreShareItems (map (share_row id at) shares) (issued_items sodium shares)
  unfolding equals
  issued_items-AreShareItems id at [] = tt
  issued_items-AreShareItems id at (s ∷ shares) =
      ((_, refl, refl, refl, refl), issued_items-AreShareItems id at shares)
