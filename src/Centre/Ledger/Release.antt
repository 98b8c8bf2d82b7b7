-- ===== src/Centre/Ledger/Release.antt =====
-- packages/centre/src/centre.ts: what a generated paper rests on.
use zero_window.Prelude.{
  ℕ, ◌≡◌, refl, sym, ap, subst, Bool, true, not, ◌||◌, Bytes, Text, none, some, List, [], ◌∷◌, ◌++◌,
  equals_refl, any, find, ok-injective, arith, Bool-cases, Option-cases, Result-cases, inl, inr,
  Result, ok, err,
}
use zero_window.Crypto.Sodium.{Sodium}
use zero_window.Centre.Store.{
  CentreStore, CentreBundleRecord, CheckinRecord, PaperRecord, bundle, checkin_by_seat, paper,
  put_paper, is_paper_of, is_paper_for, has_token,
}
use zero_window.Centre.Node.{
  Outside, CentreOptions, CentreNode, CentreError, paper_bundle_id, held_kek,
}
use zero_window.Log.Types.{paper_generated}
use zero_window.Centre.ExamDay.{Generated, make_paper, paper_record, paper_payload}
use zero_window.Centre.Papers.{generate_paper, keep_paper}
use zero_window.Centre.Ledger.Appends.{log_event_cases}
use zero_window.Centre.Ledger.Making.{IsMade, make_paper-IsMade}

find_last :
    (p : PaperRecord → Bool) (xs : List PaperRecord) (x : PaperRecord)
    → find p xs ≡ none
    → p x ≡ true
    → find p (xs ++ x ∷ []) ≡ some x
find_last p [] x free holds = rw holds refl
find_last p (y ∷ ys) x free holds = elim (Bool-cases (p y)) [
  | inl found ↦ absurd (ground arith)
  | inr other ↦ rw other (find_last p ys x (rw other at free) holds)
]

module _ (sodium : Sodium) (outside : Outside) (opts : CentreOptions) where
  no_paper :
      {g : Generated} {e : CentreError} → ◌≡◌ {A = Result CentreError Generated} (err e) (ok g) → ⊥
  no_paper h = absurd cc

  put_paper_papers :
      (r : PaperRecord) (store : CentreStore) {store' : CentreStore}
      → put_paper r store ≡ ok store'
      → ◌≡◌ {A = CentreStore} (record store { papers = store.papers ++ r ∷ [] }) store'
  unfolding put_paper
  put_paper_papers r store h =
      elim (Bool-cases (
        any (is_paper_of r.seat) store.papers
        || (any (is_paper_for r.token_hash) store.papers
            || not (any (has_token r.token_hash) store.checkins)))) [
              | inl conflict ↦ absurd (ground arith)
              | inr free ↦ ok-injective (rw free at h)
            ]

  -- The row that is put is found at its seat.
  paper-put_paper :
      (r : PaperRecord) (store : CentreStore) {store' : CentreStore}
      → paper r.seat store ≡ none
      → put_paper r store ≡ ok store'
      → paper r.seat store' ≡ some r
  unfolding paper put_paper
  paper-put_paper r store {store'} free h =
      let added : record store { papers = store.papers ++ r ∷ [] } ≡ store' =
        put_paper_papers r store h in
      subst (λ s. find (is_paper_of r.seat) s.papers ≡ some r) added
        (find_last (is_paper_of r.seat) store.papers r free (equals_refl r.seat))

  abbrev pub IsGenerated : Text → CentreNode → Generated → CentreNode → Type 0
  IsGenerated seat node g node' =
      (c : CheckinRecord) × (b : CentreBundleRecord) × (kek_id : Text) × (p : PaperRecord)
      × (checkin_by_seat seat node.store ≡ some c)
      × (paper seat node.store ≡ none)
      × (bundle (paper_bundle_id sodium outside opts) node.store ≡ some b)
      × (held_kek (paper_bundle_id sodium outside opts) node.held_keks ≡ some kek_id)
      × IsMade sodium outside opts b kek_id seat c node.engine g.pdf g.paper_hash
      × (paper seat node'.store ≡ some p)
      × (p.paper_hash ≡ g.paper_hash)
      × (p.token_hash ≡ c.token_hash)

  keep_paper_ok :
      (r : PaperRecord) (pdf : Bytes) (node : CentreNode) {g : Generated}
      → paper r.seat node.store ≡ none
      → (keep_paper sodium outside opts r pdf node).0 ≡ ok g
      → (g.pdf ≡ pdf)
        × (g.paper_hash ≡ r.paper_hash)
        × (paper r.seat (keep_paper sodium outside opts r pdf node).1.store ≡ some r)
  keep_paper_ok r pdf node {g} free h = elim (Result-cases (put_paper r node.store)) [
    | inr (e, failed) ↦ absurd (no_paper (rw (failed, keep_paper) at h))
    | inl (store, put) ↦
        elim (log_event_cases outside paper_generated (paper_payload sodium outside opts r)
          r.generated_at (record node { store = store })) [
            | inr throws ↦ absurd (no_paper (rw (put, throws, keep_paper) at h))
            | inl works ↦
                let same = ok-injective (rw (put, works, keep_paper) at h) in
                (
                  sym (ap (λ x. x.pdf) same),
                  sym (ap (λ x. x.paper_hash) same),
                  rw (put, works, keep_paper) (paper-put_paper r node.store free put),
                )
          ]
  ]

  -- When `generatePaper` succeeds, a candidate is checked in at the seat, the seat had no paper, the
  -- paper bundle is in custody and its key released to the centre and held by the provider; the PDF
  -- is the rendering of the paper assembled, for this candidate's token, from the bundle as
  -- decrypted with that key; the hash returned is the PDF's; and the row stored for the seat has
  -- that hash and the candidate's token.
  pub generate_paper_ok :
      (seat : Text) (at : ℕ) (node : CentreNode) {g : Generated}
      → (generate_paper sodium outside opts seat at node).0 ≡ ok g
      → IsGenerated seat node g (generate_paper sodium outside opts seat at node).1
  unfolding generate_paper
  generate_paper_ok seat at node {g} h = elim (Option-cases (checkin_by_seat seat node.store)) [
    | inl absent ↦ absurd (no_paper (rw (absent, generate_paper) at h))
    | inr (c, present) ↦ elim (Option-cases (paper seat node.store)) [
      | inr (old, twice) ↦ absurd (no_paper (rw (present, twice, generate_paper) at h))
      | inl free ↦ elim (Option-cases (bundle (paper_bundle_id sodium outside opts) node.store)) [
        | inl unknown ↦ absurd (no_paper (rw (present, free, unknown, generate_paper) at h))
        | inr (b, in_custody) ↦
            elim (Option-cases (held_kek (paper_bundle_id sodium outside opts) node.held_keks)) [
              | inl no_key ↦
                  absurd (no_paper (rw (present, free, in_custody, no_key, generate_paper) at h))
              | inr (kek_id, key) ↦
                  elim (Result-cases (make_paper sodium outside opts b kek_id seat c node.engine)) [
                    | inr (e, failed) ↦ absurd (
                        no_paper (rw (present, free, in_custody, key, failed, generate_paper) at h))
                    | inl (r, made) ↦
                        let row = paper_record sodium outside opts seat c r at in
                        let (pdf, hash, stored) =
                          keep_paper_ok row r.pdf node free
                            (rw (present, free, in_custody, key, made, generate_paper) at h) in
                        let rested =
                          make_paper-IsMade sodium outside opts b kek_id seat c node.engine made in
                        let found : paper seat
                              (generate_paper sodium outside opts seat at node).1.store
                            ≡ some row =
                          rw (present, free, in_custody, key, made, generate_paper) stored in
                        (
                          c,
                          b,
                          kek_id,
                          row,
                          present,
                          free,
                          in_custody,
                          key,
                          subst
                              (λ x.
                                IsMade sodium outside opts b kek_id seat c node.engine x
                                  g.paper_hash)
                              (sym pdf)
                              (subst
                                (λ x.
                                  IsMade sodium outside opts b kek_id seat c node.engine r.pdf x)
                                (sym hash) rested),
                          found,
                          sym hash,
                          refl,
                        )
                  ]
            ]
      ]
    ]
  ]
