-- ===== src/Tests/Provision.antt =====
-- An authority that builds a bundle, and the way of its content to a centre.
use zero_window.Prelude.{List, ap, ◌≡◌, refl, Bytes, [], ◌∷◌, map, Result, ok, err, arith}
use zero_window.Encoding.{from_hex}
use zero_window.Crypto.Hash.{codes}
use zero_window.Crypto.Aead.{parse_aead, aead_decrypt, AeadCiphertext}
use zero_window.Crypto.KekEngine.Custody.{EncryptedShare, ReleaseResult, reconstruct_wrap_release}
use zero_window.Crypto.KekEngine.Envelopes.{custodian_of, recipient_of, open_shares, open_wrapped}
use zero_window.Centre.Store.{paper_bundle}
use zero_window.Authority.Json.{canonical_json}
use zero_window.Authority.Store.{BundleRecord}
use zero_window.Authority.Service.{AuthorityError, Outcome}
use zero_window.Authority.Provision.{
  ProvisionOptions, ProvisionedBundle, Draws, share_row, build_bundle, bundle_associated_data,
}
use zero_window.Authority.Content.{paper_json}
use zero_window.Authority.Provision.Recovered.{build_bundle-reconstruct_wrap_release}
use zero_window.Authority.Provision.Described.{IsDescribed, build_bundle-IsDescribed}
use zero_window.Tests.Toy.{
  mixed, mixed_laws, toy_boxes, toy_fill, toy_ciphers, toy-CipherLaws, toy-BoxLaws, toy_fills,
  fit-AreBytes,
}
use zero_window.Tests.Papers.{bank, blueprint, content}
use zero_window.Tests.Shamir.{no_randomness, kek, holders}
use zero_window.Tests.Authority.{run_authority, writer, paper_row, new_authority}

abbrev options : ProvisionOptions
options = record {
  bank = bank;
  blueprint = blueprint;
  custodians = map (custodian_of toy_boxes) holders;
  threshold = 2;
}

abbrev draws : Draws
draws = record {
  kek = kek;
  nonce = toy_fill 9 24;
  fill = toy_fill;
  ephemeral = no_randomness;
  created_at = 7;
}

abbrev built : Outcome ProvisionedBundle
built =
    build_bundle mixed writer toy_ciphers toy_boxes options paper_bundle (paper_json content) draws
      new_authority

abbrev bundle_from : Result AuthorityError ProvisionedBundle → ProvisionedBundle
bundle_from (ok p) = p
bundle_from (err e) = record {
  bundle_id = [];
  kind = paper_bundle;
  bundle_hash = [];
  content_hash = [];
  kek_fingerprint = [];
}

built-run : built ≡ (ok (bundle_from (built.0)), built.1)
unfolding run_authority
built-run = refl

build_bundle-IsDescribed_example :
    IsDescribed mixed toy_boxes toy_ciphers options paper_bundle
      (paper_json content)
      draws
      new_authority
      (built.1)
build_bundle-IsDescribed_example =
    build_bundle-IsDescribed mixed toy_boxes toy_ciphers mixed_laws writer options paper_bundle
      (paper_json content) draws new_authority (bundle_from (built.0)) tt (ap (λ r. r.0) built-run)

build_bundle-reconstruct_wrap_release_example :
    (b : BundleRecord) × (shares : List EncryptedShare) × (blobs : List Bytes)
    × (result : ReleaseResult) × (canonical : Bytes) × (ad : Bytes) × (ct : AeadCiphertext)
    × (built.1.store.bundles ≡ paper_row ∷ b ∷ [])
    × (built.1.store.shares ≡ map (share_row b.bundle_id b.created_at) shares)
    × (open_shares toy_boxes holders shares (2 ∷ 1 ∷ []) ≡ ok blobs)
    × (reconstruct_wrap_release mixed toy_boxes no_randomness blobs
          (map (recipient_of toy_boxes) ((codes "X", 7 ∷ []) ∷ []))
          (from_hex b.kek_fingerprint)
          new_authority.engine
        ≡ ok result)
    × (open_wrapped toy_boxes ((codes "X", 7 ∷ []) ∷ []) result.wrapped ≡ ok (kek ∷ []))
    × (canonical_json (paper_json content) ≡ ok canonical)
    × (bundle_associated_data b.bundle_id paper_bundle (codes "E") ≡ ok ad)
    × (parse_aead b.ciphertext ≡ ok ct)
    × (aead_decrypt toy_ciphers kek ct ad ≡ ok canonical)
build_bundle-reconstruct_wrap_release_example =
    build_bundle-reconstruct_wrap_release mixed mixed_laws toy_ciphers toy-CipherLaws toy_boxes
      toy-BoxLaws writer options holders refl paper_bundle (paper_json content) draws toy_fills
      (fit-AreBytes 32 (11 ∷ 22 ∷ 33 ∷ 44 ∷ [])) new_authority (built.1) (bundle_from (built.0)) tt
      built-run (2 ∷ 1 ∷ []) (omega arith, (omega arith, tt))
      (((λ e. absurd (omega arith)), tt), (tt, tt)) (omega arith) no_randomness new_authority.engine
      refl ((codes "X", 7 ∷ []) ∷ [])
