-- ===== src/Centre/Ledger/Day.antt =====
-- packages/centre/src/centre.ts: generation keeps the tables and the log consistent.
use zero_window.Prelude.{
  ℕ, ◌++◌, [], ◌∷◌, ◌≡◌, ◌≢◌, refl, ap, subst, ◌∙◌, Bool, true, false, Bytes, Text, none, some,
  err-injective, Option-cases, Result-cases, inl, inr, Result, ok, err,
}
use zero_window.Encoding.{from_hex}
use zero_window.Crypto.Sodium.{Sodium}
use zero_window.Crypto.Hash.{codes}
use zero_window.Crypto.Aead.{parse_aead}
use zero_window.Crypto.KekEngine.{decrypt}
use zero_window.Log.Types.{paper_generated}
use zero_window.Centre.Assemble.{assemble_paper}
use zero_window.Centre.Store.{
  CentreBundleRecord, CheckinRecord, PaperRecord, StoreError, bundle, checkin_by_seat, paper,
}
use zero_window.Centre.Node.{
  Outside, CentreOptions, CentreNode, CentreError, Outcome, paper_bundle_id, held_kek, store_failed,
}
use zero_window.Centre.ExamDay.{
  bundle_associated_data, render_paper, Rendered, make_paper, paper_record, paper_payload,
}
use zero_window.Centre.Papers.{keep_paper, generate_paper}
use zero_window.Centre.Ledger.{IsSound}
use zero_window.Centre.Ledger.Effects.{add_paper}
use zero_window.Centre.Ledger.Appends.{IsFine, log_event_cases}

true-false : ◌≡◌ {A = Bool} true false → ⊥
true-false h = absurd cc

module _ (sodium : Sodium) (outside : Outside) (opts : CentreOptions) where
  abbrev Sound : CentreNode → Type 0
  Sound = IsSound sodium outside opts

  abbrev Fine : {A : Type 0} → Outcome A → Type 0
  Fine out = IsFine sodium outside opts out

  abbrev is_store_failure : CentreError → Bool
  is_store_failure (store_failed e) = true
  is_store_failure _ = false

  not_store :
      (e : CentreError) {e1 : StoreError}
      → is_store_failure e ≡ false
      → ◌≡◌ {A = Result CentreError Rendered} (err e) (err (store_failed e1))
      → ⊥
  not_store e other h =
      let same = err-injective h in
      absurd (true-false (subst (λ x. is_store_failure x ≡ false) same other))

  made_some :
      {r : Rendered} {e : CentreError} → ◌≡◌ {A = Result CentreError Rendered} (ok r) (err e) → ⊥
  made_some h = absurd cc

  -- What can go wrong between the custody record and the rendered paper is no constraint.
  make_paper_error :
      (b : CentreBundleRecord) (kek_id seat : Text) (checkin : CheckinRecord) (node : CentreNode)
      (e : StoreError)
      → make_paper sodium outside opts b kek_id seat checkin node.engine ≢ err (store_failed e)
  unfolding make_paper
  make_paper_error b kek_id seat checkin node e q =
      elim (Result-cases
        (bundle_associated_data (paper_bundle_id sodium outside opts) (codes "paper") b.exam_id)) [
          | inr (e1, failed) ↦ absurd (not_store _ refl (rw (failed, make_paper) at q))
          | inl (ad, encoded) ↦ elim (Result-cases (parse_aead b.ciphertext)) [
            | inr (e1, failed) ↦ absurd (not_store _ refl (rw (encoded, failed, make_paper) at q))
            | inl (ct, parsed) ↦
                elim (Result-cases (decrypt outside.ciphers kek_id ct ad node.engine)) [
                  | inr (e1, failed) ↦
                      absurd (not_store _ refl (rw (encoded, parsed, failed, make_paper) at q))
                  | inl (plain, decrypted) ↦ elim (Option-cases (outside.parse_content plain)) [
                    | inl unreadable ↦ absurd (
                        not_store _ refl
                          (rw (encoded, parsed, decrypted, unreadable, make_paper) at q))
                    | inr (content, read) ↦
                        elim (Result-cases (
                          assemble_paper sodium opts.tries content opts.centre_id seat
                            (from_hex checkin.token_hash))) [
                              | inr (e1, failed) ↦ absurd (
                                  not_store _ refl (
                                    rw (encoded, parsed, decrypted, read, failed, make_paper) at q))
                              | inl (p, assembled) ↦
                                  elim (Result-cases (render_paper sodium outside opts p)) [
                                    | inr (e1, failed) ↦ absurd (
                                        not_store _ refl (
                                          rw
                                            (
                                              encoded, parsed, decrypted, read, assembled, failed,
                                              make_paper,
                                            )
                                            at q))
                                    | inl (r, rendered) ↦ absurd (
                                        made_some (
                                          rw
                                            (
                                              encoded, parsed, decrypted, read, assembled, rendered,
                                              make_paper,
                                            )
                                            at q))
                                  ]
                            ]
                  ]
                ]
          ]
        ]

  keep_paper-Fine :
      (r : PaperRecord) (pdf : Bytes) (node : CentreNode) {c : CheckinRecord}
      → checkin_by_seat r.seat node.store ≡ some c
      → c.token_hash ≡ r.token_hash
      → paper r.seat node.store ≡ none
      → Sound node
      → Fine (keep_paper sodium outside opts r pdf node)
  keep_paper-Fine r pdf node found same free sound =
      let (put, counted, uncounted) =
        add_paper sodium outside opts node.store node.log node.checkins_total node.papers_generated
          node.failed_appends r found same free sound in
      let stored : CentreNode = record node {
        store = record node.store { papers = node.store.papers ++ r ∷ [] };
      } in
      elim (log_event_cases outside paper_generated (paper_payload sodium outside opts r)
        r.generated_at stored) [
          | inl works ↦ rw (put, works, keep_paper) (counted, λ e q. absurd cc)
          | inr throws ↦ rw (put, throws, keep_paper) (uncounted, λ e q. absurd cc)
        ]

  pub generate_paper-Fine :
      (seat : Text) (at : ℕ) (node : CentreNode)
      → Sound node
      → Fine (generate_paper sodium outside opts seat at node)
  unfolding generate_paper
  generate_paper-Fine seat at node sound = elim (Option-cases (checkin_by_seat seat node.store)) [
    | inl absent ↦ rw (absent, generate_paper) (sound, λ e q. absurd cc)
    | inr (c, present) ↦ elim (Option-cases (paper seat node.store)) [
      | inr (old, twice) ↦ rw (present, twice, generate_paper) (sound, λ e q. absurd cc)
      | inl free ↦ elim (Option-cases (bundle (paper_bundle_id sodium outside opts) node.store)) [
        | inl unknown ↦ rw (present, free, unknown, generate_paper) (sound, λ e q. absurd cc)
        | inr (b, held) ↦
            elim (Option-cases (held_kek (paper_bundle_id sodium outside opts) node.held_keks)) [
              | inl no_key ↦
                  rw (present, free, held, no_key, generate_paper) (sound, λ e q. absurd cc)
              | inr (kek_id, key) ↦
                  elim (Result-cases (make_paper sodium outside opts b kek_id seat c node.engine)) [
                    | inr (e, failed) ↦
                        rw (present, free, held, key, failed, generate_paper)
                          (
                            sound,
                            λ e1 q.
                                make_paper_error b kek_id seat c node e1
                                  (failed ∙ ap err (err-injective q)),
                          )
                    | inl (r, made) ↦
                        rw (present, free, held, key, made, generate_paper)
                          (keep_paper-Fine (paper_record sodium outside opts seat c r at) r.pdf node
                            present refl free sound)
                  ]
            ]
      ]
    ]
  ]
