-- ===== src/Authority/Provision/Described.antt =====
-- packages/authority/src/provision.ts: a bundle that was built, described apart from the code that
-- writes its rows and its log entries.
use zero_window.Prelude.{
  ◌≡◌, refl, subst, Bytes, none, List, [], ◌∷◌, ◌++◌, length, map, equals, ok,
}
use zero_window.Encoding.{to_hex}
use zero_window.Crypto.Sodium.{Sodium, SodiumLaws}
use zero_window.Crypto.Hash.{codes, domain_hash}
use zero_window.Crypto.Aead.{Ciphers, AeadCiphertext, aead_encrypt, serialize_aead}
use zero_window.Crypto.Box.{Boxes}
use zero_window.Crypto.Shamir.{coefficients}
use zero_window.Crypto.Shamir.Checks.{shamir_split-ok}
use zero_window.Crypto.KekEngine.{get_kek, add_kek, fingerprint_of}
use zero_window.Crypto.KekEngine.Custody.{seal_shares}
use zero_window.Crypto.KekEngine.Release.{split_and_destroy-ok}
use zero_window.Log.Types.{bundle_created, shares_issued}
use zero_window.Log.Canonical.{Fields}
use zero_window.Log.Store.{Writer}
use zero_window.Log.Store.Chain.{IsChain}
use zero_window.Authority.Json.{Json, canonical_json}
use zero_window.Centre.Store.{BundleKind}
use zero_window.Authority.Store.{BundleRecord, ShareRecord}
use zero_window.Authority.Service.{Authority}
use zero_window.Authority.Service.Extended.{IsExtended}
use zero_window.Authority.Provision.{
  ProvisionOptions, ProvisionedBundle, Draws, kind_name, bundle_id_of, bundle_associated_data,
  content_hash_of, bundle_row, share_row, build_bundle,
}
use zero_window.Authority.Provision.Built.{build_bundle-IsBuilt, held-add_kek}
use zero_window.Authority.Provision.Entries.{
  AreShareRows, RecordsBundle, RecordsShares, seal_shares-AreShareRows, issued_items-AreShareItems,
}

module _ (sodium : Sodium) (boxes : Boxes) where
  -- The row of a bundle: its identity, the hashes of what is stored and of the content, and the
  -- fingerprint of its key.
  abbrev pub IsBundleRow :
      ProvisionOptions
      → BundleKind
      → Draws
      → (canonical : Bytes) → AeadCiphertext
      → BundleRecord
      → Type 0
  IsBundleRow opts kind draws canonical ct b =
      (b.bundle_id ≡ opts.bank.exam_id ++ codes ":" ++ kind_name kind)
      × (b.exam_id ≡ opts.bank.exam_id)
      × (b.kind ≡ kind)
      × (b.ciphertext ≡ serialize_aead ct)
      × (b.bundle_hash ≡ to_hex (domain_hash sodium (codes "bundle-envelope") (b.ciphertext ∷ [])))
      × (b.content_hash ≡ to_hex (domain_hash sodium (codes "bundle-content") (canonical ∷ [])))
      × (b.kek_fingerprint ≡ to_hex (fingerprint_of sodium draws.kek))
      × (b.threshold ≡ opts.threshold)
      × (b.share_count ≡ length opts.custodians)
      × (b.created_at ≡ draws.created_at)

  module _ (ciphers : Ciphers) where
    pub record IsDescribed (opts : ProvisionOptions) (kind : BundleKind) (content : Json)
        (draws : Draws) (before after : Authority) : Type 0 where
      pub bundle : BundleRecord
      pub rows : List ShareRecord
      pub canonical : Bytes
      pub ad : Bytes
      pub ct : AeadCiphertext
      pub created : Fields
      pub issued : Fields
      pub is_canonical : canonical_json content ≡ ok canonical
      pub is_bound : bundle_associated_data bundle.bundle_id kind opts.bank.exam_id ≡ ok ad
      pub is_encrypted : aead_encrypt ciphers draws.kek canonical ad draws.nonce ≡ ok ct
      pub is_row : IsBundleRow opts kind draws canonical ct bundle
      pub are_rows :
          AreShareRows sodium boxes bundle.bundle_id draws.created_at opts.threshold 0
            opts.custodians rows
      pub is_new : get_kek before.engine.keks (codes "kek:" ++ bundle.bundle_id) ≡ none
      pub is_destroyed : get_kek after.engine.keks (codes "kek:" ++ bundle.bundle_id) ≡ none
      pub is_kept : after.store.bundles ≡ before.store.bundles ++ bundle ∷ []
      pub are_kept : after.store.shares ≡ before.store.shares ++ rows
      pub is_logged :
          IsExtended sodium before after ((bundle_created, created) ∷ (shares_issued, issued) ∷ [])
      pub records_bundle : RecordsBundle sodium boxes opts bundle created
      pub records_shares : RecordsShares sodium boxes opts bundle.bundle_id rows issued

    -- If the log is a chain and build_bundle returns a bundle, then the provider held no key of its
    -- name before and holds none after. The bundles have one row more: its hash is that of the
    -- stored envelope, which is the encryption of the canonical content under the key drawn, bound
    -- to the bundle's identity; its content hash is that of the canonical content, its fingerprint
    -- that of the key, its number of shares that of the custodians. The shares have one row more for
    -- each custodian, in their order and with the indexes from 1 on, which holds a share of that
    -- index and the threshold sealed to the custodian's box key. The log has grown by two entries
    -- and is still a chain; read by their keys, one has the bundle's identity, hashes, fingerprint
    -- and counts, the other the custodian, index and sealed hash of each of these rows.
    pub build_bundle-IsDescribed :
        SodiumLaws sodium
        → (writer : Writer) (opts : ProvisionOptions) (kind : BundleKind) (content : Json)
          (draws : Draws) (authority : Authority) (p : ProvisionedBundle)
        → IsChain sodium authority.log.entries
        → (build_bundle sodium writer ciphers boxes opts kind content draws authority).0 ≡ ok p
        → IsDescribed opts kind content draws authority
            (build_bundle sodium writer ciphers boxes opts kind content draws authority).1
    unfolding equals bundle_id_of content_hash_of
    build_bundle-IsDescribed laws writer opts kind content draws authority p chain done =
        let built =
          build_bundle-IsBuilt sodium ciphers boxes laws writer opts kind content draws authority p
            chain done in
        let id = bundle_id_of opts.bank.exam_id kind in
        let kek_id = codes "kek:" ++ id in
        let split =
          split_and_destroy-ok sodium boxes draws.ephemeral draws.fill kek_id opts.threshold
            opts.custodians (add_kek kek_id draws.kek authority.engine) draws.kek built.shares
            (held-add_kek kek_id draws.kek authority.engine built.is_live) built.is_split in
        let facts =
          shamir_split-ok draws.fill draws.kek opts.threshold (length opts.custodians) split.0
            split.1 in
        let sealed =
          seal_shares-AreShareRows sodium boxes draws.ephemeral id draws.created_at opts.threshold
            (draws.fill 0 8) (coefficients draws.fill opts.threshold 1 draws.kek) 0 opts.custodians
            built.shares
            (subst
              (λ l. seal_shares sodium boxes draws.ephemeral 0 opts.custodians l ≡ ok built.shares)
              facts.4 split.2) in
        record {
          bundle =
              bundle_row sodium opts kind draws (fingerprint_of sodium draws.kek) built.canonical
                (serialize_aead built.ct) built.shares;
          rows = map (share_row id draws.created_at) built.shares;
          canonical = built.canonical;
          ad = built.ad;
          ct = built.ct;
          created = _;
          issued = _;
          is_canonical = built.is_canonical;
          is_bound = built.is_bound;
          is_encrypted = built.is_encrypted;
          is_row = (refl, refl, refl, refl, refl, refl, refl, refl, sealed.0, refl);
          are_rows = sealed.1;
          is_new = built.is_new;
          is_destroyed = built.is_destroyed;
          is_kept = built.is_recorded.1;
          are_kept = built.is_recorded.2;
          is_logged = built.is_recorded.3;
          records_bundle = (refl, refl, refl, refl, refl, refl, refl, refl, refl);
          records_shares = (
            refl,
            refl,
            refl,
            (_, refl, issued_items-AreShareItems sodium boxes id draws.created_at built.shares),
          );
        }
