-- ===== src/Authority/Provision/Built.antt =====
-- packages/authority/src/provision.ts: what a bundle that was built consists of.
use zero_window.Prelude.{
  ℕ, ◌≡◌, refl, sym, ap, subst, ◌∙◌, inl, inr, false, Bytes, Text, none, Bool-cases, Option-cases,
  List, ◌++◌, length, ltb, equals_refl, Result, ok, err, ok-injective,
}
use zero_window.Crypto.Sodium.{Sodium, SodiumLaws}
use zero_window.Crypto.Hash.{codes}
use zero_window.Crypto.Aead.{Ciphers, AeadError, AeadCiphertext, aead_encrypt, serialize_aead}
use zero_window.Crypto.Box.{Boxes}
use zero_window.Crypto.KekEngine.{
  KekEngine, get_kek, held, add_kek, destroy, generate, encrypt, fingerprint_of, lift_aead,
}
use zero_window.Crypto.KekEngine.Custody.{CustodianRecipient, EncryptedShare, split_and_destroy}
use zero_window.Crypto.KekEngine.Destroyed.{get_kek-delete_kek}
use zero_window.Log.Store.{Writer}
use zero_window.Log.Store.Chain.{IsChain}
use zero_window.Authority.Json.{Json, canonical_json}
use zero_window.Centre.Store.{BundleKind}
use zero_window.Authority.Service.{
  Authority, Outcome, demand-cases, then_do-cases, lift_json, lift_kek,
}
use zero_window.Authority.Release.Checks.{lift_json-ok, lift_kek-ok}
use zero_window.Authority.Provision.{
  ProvisionOptions, ProvisionedBundle, Draws, bundle_id_of, bundle_associated_data, bundle_row,
  change_engine, record_bundle, build_bundle,
}
use zero_window.Authority.Provision.Recorded.{IsRecorded, record_bundle-IsRecorded}

generate-ok :
    (sodium : Sodium) (id : Text) (random : Bytes) (engine : KekEngine) (fp : Bytes)
    → (generate sodium id random engine).0 ≡ ok fp
    → (engine.closed ≡ false)
      × (get_kek engine.keks id ≡ none)
      × (fp ≡ fingerprint_of sodium random)
      × ((generate sodium id random engine).1 ≡ add_kek id random engine)
unfolding generate
generate-ok sodium id random engine fp h = elim (Bool-cases engine.closed) [
  | inl closed ↦ let refused = rw (closed, generate) at h in cc
  | inr live ↦ elim (Option-cases (get_kek engine.keks id)) [
    | inr (old, e) ↦ let refused = rw (live, e, generate) at h in cc
    | inl e ↦
        (live, e, sym (ok-injective (rw (live, e, generate) at h)), simp (live, e, generate) refl)
  ]
]

pub held-add_kek :
    (id : Text) (kek : Bytes) (engine : KekEngine)
    → engine.closed ≡ false
    → held id (add_kek id kek engine) ≡ ok kek
unfolding held get_kek
held-add_kek id kek engine live = rw (live, equals_refl id) refl

lift_aead-ok : {A : Type 0} (r : Result AeadError A) (a : A) → lift_aead r ≡ ok a → r ≡ ok a
lift_aead-ok (ok b) a h = cc
lift_aead-ok (err e) a h = cc

encrypt-ok :
    (ciphers : Ciphers) (id : Text) (plaintext ad nonce kek : Bytes) (engine : KekEngine)
    (ct : AeadCiphertext)
    → held id engine ≡ ok kek
    → encrypt ciphers id plaintext ad nonce engine ≡ ok ct
    → aead_encrypt ciphers kek plaintext ad nonce ≡ ok ct
unfolding encrypt
encrypt-ok ciphers id plaintext ad nonce kek engine ct is_held h =
    lift_aead-ok _ ct (rw is_held at h)

split_and_destroy_engine :
    (sodium : Sodium) (boxes : Boxes) (ephemeral : ℕ → Bytes) (fill : ℕ → ℕ → Bytes) (id : Text)
    (t : ℕ) (custodians : List CustodianRecipient) (engine : KekEngine) (kek : Bytes)
    (shares : List EncryptedShare)
    → held id engine ≡ ok kek
    → (split_and_destroy sodium boxes ephemeral fill id t custodians engine).0 ≡ ok shares
    → (split_and_destroy sodium boxes ephemeral fill id t custodians engine).1 ≡ destroy id engine
unfolding split_and_destroy
split_and_destroy_engine sodium boxes ephemeral fill id t custodians engine kek shares is_held h =
    elim (Bool-cases (ltb (length custodians) t)) [
      | inl few ↦ let refused = rw (is_held, few, split_and_destroy) at h in cc
      | inr enough ↦ rw (is_held, enough, split_and_destroy) refl
    ]

get_kek-destroy : (id : Text) (engine : KekEngine) → get_kek (destroy id engine).keks id ≡ none
unfolding destroy
get_kek-destroy id engine = get_kek-delete_kek engine.keks id

module _ (sodium : Sodium) (ciphers : Ciphers) (boxes : Boxes) where
  -- What a call that built a bundle did: the key drawn was new under its name; the canonical content
  -- was encrypted with it and it was split; it is gone now; and the tables and the log have the
  -- bundle and its shares.
  pub record IsBuilt (opts : ProvisionOptions) (kind : BundleKind) (content : Json) (draws : Draws)
      (before after : Authority) : Type 0 where
    pub canonical : Bytes
    pub ad : Bytes
    pub ct : AeadCiphertext
    pub shares : List EncryptedShare
    pub is_new :
        get_kek before.engine.keks (codes "kek:" ++ bundle_id_of opts.bank.exam_id kind) ≡ none
    pub is_canonical : canonical_json content ≡ ok canonical
    pub is_bound :
        bundle_associated_data (bundle_id_of opts.bank.exam_id kind) kind opts.bank.exam_id ≡ ok ad
    pub is_encrypted : aead_encrypt ciphers draws.kek canonical ad draws.nonce ≡ ok ct
    pub is_split :
        (split_and_destroy sodium boxes draws.ephemeral draws.fill
          (codes "kek:" ++ bundle_id_of opts.bank.exam_id kind)
          opts.threshold
          opts.custodians
          (add_kek (codes "kek:" ++ bundle_id_of opts.bank.exam_id kind) draws.kek before.engine)).0
        ≡ ok shares
    pub is_live : before.engine.closed ≡ false
    pub is_destroyed :
        get_kek after.engine.keks (codes "kek:" ++ bundle_id_of opts.bank.exam_id kind) ≡ none
    pub is_recorded :
        IsRecorded sodium opts
          (bundle_row sodium opts kind draws
            (fingerprint_of sodium draws.kek)
            canonical
            (serialize_aead ct)
            shares)
          shares
          (record before { engine = after.engine })
          after

  module _ (laws : SodiumLaws sodium) (writer : Writer) where
    -- If the log is a chain and build_bundle returns a bundle, then the bundle was built: the
    -- provider held no key of its name, the canonical content was encrypted with the key that was
    -- drawn, bound to the bundle's identity, the key was split among the custodians and is held no
    -- longer, the tables have the bundle with its hashes and its fingerprint and one sealed share
    -- for each custodian, and the log has the two entries for them.
    pub build_bundle-IsBuilt :
        (opts : ProvisionOptions) (kind : BundleKind) (content : Json) (draws : Draws)
        (authority : Authority) (p : ProvisionedBundle)
        → IsChain sodium authority.log.entries
        → (build_bundle sodium writer ciphers boxes opts kind content draws authority).0 ≡ ok p
        → IsBuilt opts kind content draws authority
            (build_bundle sodium writer ciphers boxes opts kind content draws authority).1
    unfolding build_bundle
    build_bundle-IsBuilt opts kind content draws authority p chain =
        let id = bundle_id_of opts.bank.exam_id kind in
        let kek_id = codes "kek:" ++ id in
        let P : Outcome ProvisionedBundle → Type 0 =
          λ r. r.0 ≡ ok p → IsBuilt opts kind content draws authority r.1 in
        let o1 = change_engine (generate sodium kek_id draws.kek authority.engine) authority in
        then_do-cases {A = Bytes} P o1 _ (λ x h done. cc)
          (λ fp h1.
            let made =
              generate-ok sodium kek_id draws.kek authority.engine fp (lift_kek-ok _ fp h1) in
            demand-cases {A = Bytes} P (lift_json (canonical_json content)) _ o1.1 (λ x h done. cc)
              (λ canonical h2.
                demand-cases {A = Bytes} P
                  (lift_json (bundle_associated_data id kind opts.bank.exam_id)) _ o1.1
                  (λ x h done. cc)
                  (λ ad h3.
                    demand-cases {A = AeadCiphertext} P
                      (lift_kek (encrypt ciphers kek_id canonical ad draws.nonce o1.1.engine)) _
                      o1.1 (λ x h done. cc)
                      (λ ct h4.
                        let o5 =
                          change_engine
                            (split_and_destroy sodium boxes draws.ephemeral draws.fill kek_id
                              opts.threshold opts.custodians o1.1.engine)
                            o1.1 in
                        then_do-cases {A = List EncryptedShare} P o5 _ (λ x h done. cc)
                          (λ shares h5 done.
                            let is_held : held kek_id o1.1.engine ≡ ok draws.kek =
                              subst (λ e. held kek_id e ≡ ok draws.kek) (sym made.3)
                                (held-add_kek kek_id draws.kek authority.engine made.0) in
                            let split = lift_kek-ok _ shares h5 in
                            let row = λ (f : Bytes).
                              bundle_row sodium opts kind draws f canonical (serialize_aead ct)
                                shares in
                            let done_after =
                              (record_bundle sodium writer opts (row fp) shares o5.1).1 in
                            let recorded =
                              record_bundle-IsRecorded sodium laws writer opts (row fp) shares o5.1
                                p chain done in
                            record {
                              canonical = canonical;
                              ad = ad;
                              ct = ct;
                              shares = shares;
                              is_new = made.1;
                              is_canonical = lift_json-ok _ canonical h2;
                              is_bound = lift_json-ok _ ad h3;
                              is_encrypted =
                                  encrypt-ok ciphers kek_id canonical ad draws.nonce draws.kek
                                    o1.1.engine ct is_held (lift_kek-ok _ ct h4);
                              is_split =
                                  subst
                                    (λ e.
                                      (split_and_destroy sodium boxes draws.ephemeral draws.fill
                                        kek_id opts.threshold opts.custodians e).0
                                      ≡ ok shares)
                                    made.3 split;
                              is_live = made.0;
                              is_destroyed =
                                  ap (λ (e : KekEngine). get_kek e.keks kek_id)
                                    (recorded.0
                                      ∙ split_and_destroy_engine sodium boxes draws.ephemeral
                                          draws.fill kek_id opts.threshold opts.custodians
                                          o1.1.engine draws.kek shares is_held split)
                                  ∙ get_kek-destroy kek_id o1.1.engine;
                              is_recorded =
                                  subst
                                    (λ f.
                                      IsRecorded sodium opts (row f) shares
                                        (record authority { engine = done_after.engine })
                                        done_after)
                                    made.2 (refl, recorded.1, recorded.2, recorded.3);
                            })))))
