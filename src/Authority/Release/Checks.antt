-- ===== src/Authority/Release/Checks.antt =====
-- packages/authority/src/release.ts: what a check of a release that passed establishes.
use zero_window.Prelude.{
  ◌≤◌, ◌≡◌, ◌≢◌, refl, sym, subst, inl, inr, Bool, true, false, Text, Option, none, some,
  Option-cases, Bool-cases, List, [], ◌∷◌, any, length, ltb, equals, equals_iff, Result, ok, err,
  and_then-ok, arith,
}
use zero_window.Prelude.Distinct.{Apart, AreDistinct}
use zero_window.Crypto.KekEngine.Custody.{KekRecipient}
use zero_window.Authority.Store.{AuthorityStore, BundleRecord, CustodianRecord, custodian}
use zero_window.Authority.Json.{JsonError}
use zero_window.Crypto.KekEngine.{KekError}
use zero_window.Authority.Service.{AuthorityError, insufficient_shares, lift_json, lift_kek}
use zero_window.Authority.Release.{
  SubmittedShare, ReleaseOptions, custodian_ids, check_custodians, recipients_of, centre_ids_of,
  or_empty, refuse_if, found, check_submission,
}

abbrev pub AreEnrolled : AuthorityStore → List SubmittedShare → Type 0
AreEnrolled store [] = Unit
AreEnrolled store (s ∷ shares) =
    ((c : CustodianRecord) × (custodian s.custodian_id store ≡ some c)) × AreEnrolled store shares

pub found-some :
    {A : Type 0} (o : Option A) (e : AuthorityError) (a : A) → found o e ≡ ok a → o ≡ some a
found-some none e a h = cc
found-some (some b) e a h = cc

pub refuse_if-false : (test : Bool) (e : AuthorityError) → refuse_if test e ≡ ok tt → test ≡ false
refuse_if-false true e h = cc
refuse_if-false false e h = refl

pub lift_json-ok : {A : Type 0} (r : Result JsonError A) (a : A) → lift_json r ≡ ok a → r ≡ ok a
lift_json-ok (ok b) a h = cc
lift_json-ok (err e) a h = cc

pub lift_kek-ok : {A : Type 0} (r : Result KekError A) (a : A) → lift_kek r ≡ ok a → r ≡ ok a
lift_kek-ok (ok b) a h = cc
lift_kek-ok (err e) a h = cc

or_empty-ok : (ids kept : List Text) → or_empty ids ≡ ok kept → (ids ≢ []) × (kept ≡ ids)
or_empty-ok [] kept h = cc
or_empty-ok (id ∷ ids) kept h = (λ e. absurd cc, cc)

-- None of the custodians seen comes again.
abbrev AreNew : List Text → List Text → Type 0
AreNew [] ids = Unit
AreNew (x ∷ seen) ids = Apart x ids × AreNew seen ids

AreNew-nil : (seen : List Text) → AreNew seen []
AreNew-nil [] = tt
AreNew-nil (x ∷ seen) = (tt, AreNew-nil seen)

AreNew-cons :
    (id : Text) (seen ids : List Text)
    → any (equals id) seen ≡ false
    → AreNew seen ids
    → AreNew seen (id ∷ ids)
AreNew-cons id [] ids h new = tt
AreNew-cons id (x ∷ seen) ids h (apart, new) =
    let differs : equals id x ≡ false = ground arith in
    let ne : x ≢ id = λ e. absurd (ground (arith, equals_iff id x, sym e)) in
    ((ne, apart), AreNew-cons id seen ids (rw differs at h) new)

check_custodians-ok :
    (seen : List Text) (shares : List SubmittedShare) (store : AuthorityStore)
    → check_custodians seen shares store ≡ ok tt
    → AreDistinct (custodian_ids shares)
      × AreNew seen (custodian_ids shares)
      × AreEnrolled store shares
unfolding check_custodians
check_custodians-ok seen [] store h = (tt, AreNew-nil seen, tt)
check_custodians-ok seen (s ∷ shares) store h =
    elim (Bool-cases (any (equals s.custodian_id) seen)) [
      | inl twice ↦ absurd (ground arith)
      | inr once ↦ elim (Option-cases (custodian s.custodian_id store)) [
        | inl missing ↦ let refused = rw (once, missing, check_custodians) at h in cc
        | inr (c, enrolled) ↦
            let rest =
              check_custodians-ok (s.custodian_id ∷ seen) shares store
                (rw (once, enrolled, check_custodians) at h) in
            (
              (rest.1.0, rest.0),
              AreNew-cons s.custodian_id seen (custodian_ids shares) once rest.1.1,
              ((c, enrolled), rest.2),
            )
      ]
    ]

pub check_submission-ok :
    (b : BundleRecord) (opts : ReleaseOptions) (store : AuthorityStore)
    (recipients : List KekRecipient)
    → check_submission b opts store ≡ ok recipients
    → (b.threshold ≤ length opts.shares)
      × AreDistinct (custodian_ids opts.shares)
      × AreEnrolled store opts.shares
      × (centre_ids_of opts store ≢ [])
      × (recipients_of (centre_ids_of opts store) store ≡ ok recipients)
unfolding check_submission
check_submission-ok b opts store recipients h =
    let enough =
      and_then-ok (refuse_if (ltb (length opts.shares) b.threshold) insufficient_shares) _
        recipients h in
    let checked = and_then-ok (check_custodians [] opts.shares store) _ recipients enough.2 in
    let some_ids = and_then-ok (or_empty (centre_ids_of opts store)) _ recipients checked.2 in
    let not_few : ltb (length opts.shares) b.threshold ≡ false = refuse_if-false _ _ enough.1 in
    let custodians = check_custodians-ok [] opts.shares store checked.1 in
    let ids = or_empty-ok (centre_ids_of opts store) some_ids.0 some_ids.1 in
    (
      ground arith,
      custodians.0,
      custodians.2,
      ids.0,
      subst (λ l. recipients_of l store ≡ ok recipients) ids.1 some_ids.2,
    )
