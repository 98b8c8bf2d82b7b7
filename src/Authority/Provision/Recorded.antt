-- ===== src/Authority/Provision/Recorded.antt =====
-- packages/authority/src/provision.ts: the rows and the log entries of a bundle that was built.
use zero_window.Prelude.{
  ℕ, ◌≡◌, sym, ap, subst, ◌∙◌, inl, inr, Text, Result-cases, List, [], ◌∷◌, ◌++◌, append_assoc,
  append-nil, map, ok, arith,
}
use zero_window.Crypto.Sodium.{Sodium, SodiumLaws}
use zero_window.Crypto.KekEngine.Custody.{EncryptedShare}
use zero_window.Log.Types.{bundle_created, shares_issued}
use zero_window.Log.Store.{Log, Writer}
use zero_window.Log.Store.Chain.{IsChain}
use zero_window.Authority.Store.{AuthorityStore, BundleRecord, ShareRecord, put_bundle, put_share}
use zero_window.Authority.Service.{Authority, Outcome, log_event-IsLogged, then_do-cases, log_event}
use zero_window.Authority.Service.Extended.{
  IsExtended, IsExtended-trans, IsExtended-same, log_event-IsExtended,
}
use zero_window.Authority.Provision.{
  ProvisionOptions, ProvisionedBundle, share_row, put_shares, created_payload, issued_payload,
  record_bundle,
}

put_bundle-ok :
    (r : BundleRecord) (store after : AuthorityStore)
    → put_bundle r store ≡ ok after
    → after ≡ record store { bundles = store.bundles ++ r ∷ [] }
unfolding put_bundle
put_bundle-ok r store after h = ground arith

put_share-ok :
    (r : ShareRecord) (store after : AuthorityStore)
    → put_share r store ≡ ok after
    → after ≡ record store { shares = store.shares ++ r ∷ [] }
unfolding put_share
put_share-ok r store after h = ground arith

abbrev with_shares : List ShareRecord → Authority → Authority
with_shares rows authority = record authority { store = record authority.store { shares = rows } }

-- All the rows were added, and nothing else changed.
put_shares-ok :
    (id : Text) (at : ℕ) (shares : List EncryptedShare) (authority : Authority)
    → (put_shares id at shares authority).0 ≡ ok tt
    → (put_shares id at shares authority).1
      ≡ with_shares (authority.store.shares ++ map (share_row id at) shares) authority
put_shares-ok id at [] authority h =
    ap (λ rows. with_shares rows authority) (sym (append-nil authority.store.shares))
put_shares-ok id at (s ∷ shares) authority h =
    elim (Result-cases (put_share (share_row id at s) authority.store)) [
      | inr (x, e) ↦ let failed = rw e at h in cc
      | inl (store, e) ↦
          let grown = put_share-ok (share_row id at s) authority.store store e in
          let rows = map (share_row id at) shares in
          rw e (
            put_shares-ok id at shares (record authority { store = store }) (rw e at h)
            ∙ ap
                (λ (t : AuthorityStore).
                  with_shares (t.shares ++ rows) (record authority { store = t }))
                grown
            ∙ ap (λ l. with_shares l authority)
                (append_assoc authority.store.shares (share_row id at s ∷ []) rows))
    ]

module _ (sodium : Sodium) where
  -- What recording a bundle adds to the tables and to the log.
  abbrev pub IsRecorded :
      ProvisionOptions → BundleRecord → List EncryptedShare → Authority → Authority → Type 0
  IsRecorded opts b shares before after =
      (after.engine ≡ before.engine)
      × (after.store.bundles ≡ before.store.bundles ++ b ∷ [])
      × (after.store.shares
          ≡ before.store.shares ++ map (share_row b.bundle_id b.created_at) shares)
      × IsExtended sodium before after (
          (bundle_created, created_payload sodium opts b)
          ∷ (shares_issued, issued_payload sodium b shares)
          ∷ [])

  module _ (laws : SodiumLaws sodium) (writer : Writer) where
    pub record_bundle-IsRecorded :
        (opts : ProvisionOptions) (b : BundleRecord) (shares : List EncryptedShare)
        (authority : Authority) (p : ProvisionedBundle)
        → IsChain sodium authority.log.entries
        → (record_bundle sodium writer opts b shares authority).0 ≡ ok p
        → IsRecorded opts b shares authority (record_bundle sodium writer opts b shares authority).1
    unfolding record_bundle
    record_bundle-IsRecorded opts b shares authority p chain =
        let P : Outcome ProvisionedBundle → Type 0 =
          λ r. r.0 ≡ ok p → IsRecorded opts b shares authority r.1 in
        elim (Result-cases (put_bundle b authority.store)) [
          | inr (x, e) ↦ rw e (λ done. cc)
          | inl (store, e) ↦
              let kept = put_bundle-ok b authority.store store e in
              let a1 = record authority { store = store } in
              let o2 =
                log_event sodium writer bundle_created (created_payload sodium opts b) b.created_at
                  a1 in
              let same2 =
                log_event-IsLogged sodium writer bundle_created (created_payload sodium opts b)
                  b.created_at a1 in
              let o3 = put_shares b.bundle_id b.created_at shares o2.1 in
              let o4 =
                log_event sodium writer shares_issued (issued_payload sodium b shares) b.created_at
                  o3.1 in
              let same4 =
                log_event-IsLogged sodium writer shares_issued (issued_payload sodium b shares)
                  b.created_at o3.1 in
              rw e (
                then_do-cases {A = Unit {0}} P o2 _ (λ x h done. cc)
                  (λ _ h2.
                    then_do-cases {A = Unit {0}} P o3 _ (λ x h done. cc)
                      (λ _ h3.
                        then_do-cases {A = Unit {0}} P o4 _ (λ x h done. cc)
                          (λ _ h4 done.
                            let moved = put_shares-ok b.bundle_id b.created_at shares o2.1 h3 in
                            let rows = map (share_row b.bundle_id b.created_at) shares in
                            let same_log : o3.1.log ≡ o2.1.log =
                              ap (λ (a : Authority). a.log) moved in
                            (
                              same4.1 ∙ ap (λ (a : Authority). a.engine) moved ∙ same2.1,
                              ap (λ (t : AuthorityStore). t.bundles) same4.0
                                  ∙ ap (λ (a : Authority). a.store.bundles) moved
                                  ∙ ap (λ (t : AuthorityStore). t.bundles) (same2.0 ∙ kept),
                              ap (λ (t : AuthorityStore). t.shares) same4.0
                                  ∙ ap (λ (a : Authority). a.store.shares) moved
                                  ∙ ap (λ (t : AuthorityStore). t.shares ++ rows) (same2.0 ∙ kept),
                              elim (log_event-IsExtended sodium laws writer bundle_created
                                  (created_payload sodium opts b) b.created_at a1 chain) [
                                    | inr (x, failed) ↦ cc
                                    | inl (logged, first) ↦
                                        elim (log_event-IsExtended sodium laws writer shares_issued
                                          (issued_payload sodium b shares) b.created_at o3.1
                                          (subst (λ (l : Log). IsChain sodium l.entries)
                                            (sym same_log) first.2)) [
                                              | inr (x, failed) ↦ cc
                                              | inl (logged2, second) ↦
                                                  IsExtended-trans sodium authority o2.1 o4.1
                                                    ((bundle_created, created_payload sodium opts b)
                                                      ∷ [])
                                                    ((shares_issued, issued_payload sodium b shares)
                                                      ∷ [])
                                                    first
                                                    (IsExtended-same sodium o2.1 o3.1 o4.1 _
                                                      same_log second)
                                            ]
                                  ],
                            )))))
        ]
