-- ===== src/Authority/Provision/Recovered.antt =====
-- packages/authority/src/provision.ts, packages/crypto: from a bundle that was built to its content
-- at the recipients.
use zero_window.Prelude.{
  ℕ, ◌≤◌, ◌≡◌, sym, ap, subst, false, Bytes, AreBytes, List, [], ◌∷◌, ◌++◌, map, length, ok,
}
use zero_window.Prelude.Distinct.{AreDistinct}
use zero_window.Encoding.{from_hex}
use zero_window.Encoding.Laws.{from_hex-to_hex}
use zero_window.Crypto.Sodium.{Sodium, SodiumLaws}
use zero_window.Crypto.Hash.{codes}
use zero_window.Crypto.Aead.{
  Ciphers, CipherLaws, AeadCiphertext, aead_decrypt, parse_aead, serialize_aead,
}
use zero_window.Crypto.Aead.Envelope.{parse-serialize}
use zero_window.Crypto.Aead.Decrypted.{aead_decrypt-aead_encrypt}
use zero_window.Crypto.Box.{Boxes, BoxLaws}
use zero_window.Crypto.Shamir.RoundTrip.{FillsBytes}
use zero_window.Crypto.KekEngine.{KekEngine, add_kek, fingerprint_of}
use zero_window.Crypto.KekEngine.Custody.{
  EncryptedShare, ReleaseResult, split_and_destroy, reconstruct_wrap_release,
}
use zero_window.Crypto.KekEngine.Envelopes.{
  KeyHolders, AreBelow, custodian_of, recipient_of, open_shares, open_wrapped,
}
use zero_window.Crypto.KekEngine.Release.{reconstruct_wrap_release-split_and_destroy}
use zero_window.Log.Store.{Writer}
use zero_window.Log.Store.Chain.{IsChain}
use zero_window.Authority.Json.{Json, canonical_json}
use zero_window.Centre.Store.{BundleKind}
use zero_window.Authority.Store.{BundleRecord}
use zero_window.Authority.Service.{Authority}
use zero_window.Authority.Provision.{
  ProvisionOptions, ProvisionedBundle, Draws, bundle_id_of, bundle_associated_data, bundle_row,
  share_row, build_bundle,
}
use zero_window.Authority.Provision.Built.{IsBuilt, build_bundle-IsBuilt, held-add_kek}

fingerprint-AreBytes :
    (sodium : Sodium) → SodiumLaws sodium → (kek : Bytes) → AreBytes (fingerprint_of sodium kek)
unfolding fingerprint_of
fingerprint-AreBytes sodium laws kek = laws.hash_are_bytes _ _ _

module _ (sodium : Sodium) (laws : SodiumLaws sodium) (ciphers : Ciphers)
    (cipher_laws : CipherLaws ciphers) (boxes : Boxes) (box_laws : BoxLaws boxes)
    (writer : Writer) where
  -- If the log is a chain, the random bytes fill their buffers and build_bundle returns a bundle for
  -- these custodians, then any distinct custodians, as many as the threshold, can open their
  -- envelopes of the shares in the table, an open provider reconstructs the key from them against
  -- the fingerprint in the table and wraps it for any recipients, each recipient opens the key that
  -- was drawn, and with it the stored ciphertext, bound to the bundle's identity, decrypts to the
  -- canonical content.
  pub build_bundle-reconstruct_wrap_release :
      (opts : ProvisionOptions) (custodians : KeyHolders)
      → opts.custodians ≡ map (custodian_of boxes) custodians
      → (kind : BundleKind) (content : Json) (draws : Draws) → FillsBytes draws.fill
      → AreBytes draws.kek
      → (before after : Authority) (p : ProvisionedBundle) → IsChain sodium before.log.entries
      → build_bundle sodium writer ciphers boxes opts kind content draws before ≡ (ok p, after)
      → (js : List ℕ) → AreBelow (length custodians) js
      → AreDistinct js
      → opts.threshold ≤ length js
      → (again : ℕ → Bytes) (other : KekEngine) → other.closed ≡ false
      → (recipients : KeyHolders)
      → (b : BundleRecord) × (shares : List EncryptedShare) × (blobs : List Bytes)
        × (result : ReleaseResult) × (canonical : Bytes) × (ad : Bytes) × (ct : AeadCiphertext)
        × (after.store.bundles ≡ before.store.bundles ++ b ∷ [])
        × (after.store.shares
            ≡ before.store.shares ++ map (share_row b.bundle_id b.created_at) shares)
        × (open_shares boxes custodians shares js ≡ ok blobs)
        × (reconstruct_wrap_release sodium boxes again blobs
              (map (recipient_of boxes) recipients)
              (from_hex b.kek_fingerprint)
              other
            ≡ ok result)
        × (open_wrapped boxes recipients result.wrapped ≡ ok (map (λ r. draws.kek) recipients))
        × (canonical_json content ≡ ok canonical)
        × (bundle_associated_data b.bundle_id kind opts.bank.exam_id ≡ ok ad)
        × (parse_aead b.ciphertext ≡ ok ct)
        × (aead_decrypt ciphers draws.kek ct ad ≡ ok canonical)
  build_bundle-reconstruct_wrap_release opts custodians named kind content draws fills bytes before
        after p chain h js below distinct enough again other live recipients =
      let built0 =
        build_bundle-IsBuilt sodium ciphers boxes laws writer opts kind content draws before p chain
          (ap (λ r. r.0) h) in
      let built =
        subst (IsBuilt sodium ciphers boxes opts kind content draws before) (ap (λ r. r.1) h)
          built0 in
      let trip =
        aead_decrypt-aead_encrypt ciphers cipher_laws draws.kek built.canonical built.ad draws.nonce
          built.ct built.is_encrypted in
      let kek_id = codes "kek:" ++ bundle_id_of opts.bank.exam_id kind in
      let engine = add_kek kek_id draws.kek before.engine in
      let release =
        reconstruct_wrap_release-split_and_destroy sodium laws boxes box_laws draws.ephemeral again
          draws.fill fills kek_id draws.kek engine
          (held-add_kek kek_id draws.kek before.engine built.is_live) bytes trip.0 opts.threshold
          custodians built.shares
          (subst
            (λ cs.
              (split_and_destroy sodium boxes draws.ephemeral draws.fill kek_id opts.threshold cs
                engine).0
              ≡ ok built.shares)
            named built.is_split)
          js below distinct enough other live recipients in
      let row =
        bundle_row sodium opts kind draws (fingerprint_of sodium draws.kek) built.canonical
          (serialize_aead built.ct) built.shares in
      let back =
        from_hex-to_hex (fingerprint_of sodium draws.kek)
          (fingerprint-AreBytes sodium laws draws.kek) in
      (
        row,
        built.shares,
        release.0,
        release.1,
        built.canonical,
        built.ad,
        built.ct,
        built.is_recorded.1,
        built.is_recorded.2,
        release.2,
        subst
            (λ fp.
              reconstruct_wrap_release sodium boxes again release.0
                (map (recipient_of boxes) recipients) fp other
              ≡ ok release.1)
            (sym back) release.3,
        release.4,
        built.is_canonical,
        built.is_bound,
        parse-serialize built.ct trip.1 trip.2,
        trip.3,
      )
