-- ===== src/Crypto/KekEngine/Release.antt =====
-- packages/crypto/src/kek-engine.ts: a key that custodians hold shares of reaches its recipients.
use zero_window.Prelude.{
  ℕ, ◌+◌, ◌≤◌, ◌<◌, ◌≡◌, refl, sym, ap, ap₂, subst, ◌∙◌, false, Bytes, AreBytes, Text, some, List,
  [], ◌∷◌, map, length, ltb, ==_iff, equals_refl, ok, and_then-ok, ok-injective, Bool-cases, inl,
  inr, length-map, arith,
}
use zero_window.Crypto.Sodium.{Sodium, SodiumLaws}
use zero_window.Crypto.Box.{Boxes, BoxLaws}
use zero_window.Crypto.Share.{ShamirShare, parse_share, parse_share-serialize_share}
use zero_window.Prelude.Distinct.{Apart, AreDistinct}
use zero_window.Crypto.Shamir.{share_at, shares_from, coefficients, shamir_split, shamir_combine}
use zero_window.Crypto.Shamir.Checks.{AreAmong, x_of, shamir_split-ok}
use zero_window.Crypto.Shamir.RoundTrip.{
  FillsBytes, length-coefficients, shamir_combine-shamir_split,
}
use zero_window.Crypto.KekEngine.{KekEngine, held, fingerprint_of}
use zero_window.Crypto.KekEngine.Custody.{
  CustodianRecipient, KekRecipient, WrappedKek, EncryptedShare, ReleaseResult, seal_shares,
  split_and_destroy, parse_shares, wrap_kek, reconstruct_wrap_release,
}
use zero_window.Crypto.KekEngine.Envelopes.{
  KeyHolders, AreBelow, custodian_of, recipient_of, open_shares, open_wrapped, lift_split-ok,
  get_elem?-shares_from, open_share-seal_shares, open_wrapped-wrap_kek,
}

module _ (sodium : Sodium) (laws : SodiumLaws sodium) (boxes : Boxes) (box_laws : BoxLaws boxes)
    (ephemeral : ℕ → Bytes) where
  module _ (set_id : Bytes) (t : ℕ) (rows : List Bytes) (n : ℕ) (id_size : length set_id ≡ 8)
      (small : t < 256) (few : n < 256) (nonempty : 0 < length rows)
      (fits : length rows ≤ 65535) where
    -- The custodians of some shares open them: their bytes parse as those shares.
    opened_shares :
        (keys : KeyHolders) (shares : List EncryptedShare)
        → length keys ≡ n
        → seal_shares sodium boxes ephemeral 0
            (map (custodian_of boxes) keys)
            (shares_from set_id t rows 0 n)
          ≡ ok shares
        → (js : List ℕ) → AreBelow n js
        → (blobs : List Bytes) × (given : List ShamirShare) × (open_shares boxes keys shares js
            ≡ ok blobs)
          × (parse_shares sodium blobs ≡ ok given)
          × AreAmong (shares_from set_id t rows 0 n) given
          × (map x_of given ≡ map (λ j. j + 1) js)
    opened_shares keys shares size h [] below = ([], [], refl, refl, tt, refl)
    opened_shares keys shares size h (j ∷ js) (lt, below) =
        let s = share_at set_id t rows (0 + j + 1) in
        let at = get_elem?-shares_from set_id t rows 0 n j lt in
        let first =
          open_share-seal_shares sodium boxes box_laws ephemeral 0 keys
            (shares_from set_id t rows 0 n) shares h j s (omega arith) at in
        let y_size : length s.y ≡ length rows = length-map _ rows in
        let trip =
          parse_share-serialize_share sodium laws s id_size (omega arith) small (omega arith)
            (omega arith) in
        let parsed : parse_share sodium first.0 ≡ ok s =
          subst (λ b. parse_share sodium b ≡ ok s) (ok-injective (sym trip.1 ∙ first.1)) trip.2 in
        let rest = opened_shares keys shares size h js below in
        (
          first.0 ∷ rest.0,
          s ∷ rest.1,
          rw (first.2, rest.2) refl,
          rw (parsed, rest.3) refl,
          ((j, at), rest.4),
          ap₂ (λ a b. a ∷ b) (omega arith) rest.5,
        )

distinct_suc : (js : List ℕ) → AreDistinct js → AreDistinct (map (λ j. j + 1) js)
distinct_suc [] h = tt
distinct_suc (j ∷ js) (apart, h) = (apart_suc js apart, distinct_suc js h)
  where
    apart_suc : (ks : List ℕ) → Apart j ks → Apart (j + 1) (map (λ j. j + 1) ks)
    apart_suc [] h = tt
    apart_suc (k ∷ ks) (ne, h) = (λ e. ne (omega arith), apart_suc ks h)

pub split_and_destroy-ok :
    (sodium : Sodium) (boxes : Boxes) (ephemeral : ℕ → Bytes) (fill : ℕ → ℕ → Bytes) (id : Text)
    (t : ℕ) (custodians : List CustodianRecipient) (engine : KekEngine) (kek : Bytes)
    (shares : List EncryptedShare)
    → held id engine ≡ ok kek
    → (split_and_destroy sodium boxes ephemeral fill id t custodians engine).0 ≡ ok shares
    → (ss : List ShamirShare) × (shamir_split fill kek t (length custodians) ≡ ok ss)
      × (seal_shares sodium boxes ephemeral 0 custodians ss ≡ ok shares)
unfolding split_and_destroy
split_and_destroy-ok sodium boxes ephemeral fill id t custodians engine kek shares is_held h =
    elim (Bool-cases (ltb (length custodians) t)) [
      | inl few ↦ let refused = rw (is_held, few, split_and_destroy) at h in cc
      | inr enough ↦
          let run = and_then-ok _ _ shares (rw (is_held, enough, split_and_destroy) at h) in
          (run.0, lift_split-ok _ run.0 run.1, run.2)
    ]

combine_opened :
    (sodium : Sodium) (boxes : Boxes) (again : ℕ → Bytes) (blobs : List Bytes)
    (given : List ShamirShare) (kek : Bytes) (recipients : List KekRecipient)
    (wrapped : List WrappedKek) (engine : KekEngine)
    → engine.closed ≡ false
    → parse_shares sodium blobs ≡ ok given
    → shamir_combine given (some 32) ≡ ok kek
    → wrap_kek boxes again 0 kek (fingerprint_of sodium kek) recipients ≡ ok wrapped
    → reconstruct_wrap_release sodium boxes again blobs recipients
        (fingerprint_of sodium kek)
        engine
      ≡ ok (record { wrapped = wrapped; kek_fingerprint = fingerprint_of sodium kek })
unfolding reconstruct_wrap_release
combine_opened sodium boxes again blobs given kek recipients wrapped engine live parsed combined
      is_wrapped =
    let same = equals_refl (fingerprint_of sodium kek) in
    rw (live, parsed, combined, same, is_wrapped) refl

-- If split_and_destroy gives envelopes for a held key of 32 bytes, then any custodians, at least as
-- many as the threshold and each at most once, can open theirs, and reconstruct_wrap_release with
-- what they find, in an engine that is not closed, gives each recipient an envelope that the
-- recipient opens to that key.
pub reconstruct_wrap_release-split_and_destroy :
    (sodium : Sodium)
    → SodiumLaws sodium
    → (boxes : Boxes) → BoxLaws boxes
    → (ephemeral again : ℕ → Bytes) (fill : ℕ → ℕ → Bytes) → FillsBytes fill
    → (id : Text) (kek : Bytes) (engine : KekEngine) → held id engine ≡ ok kek
    → AreBytes kek
    → length kek ≡ 32
    → (t : ℕ) (custodians : KeyHolders) (shares : List EncryptedShare)
    → (split_and_destroy sodium boxes ephemeral fill id t
        (map (custodian_of boxes) custodians)
        engine).0
      ≡ ok shares
    → (js : List ℕ) → AreBelow (length custodians) js
    → AreDistinct js
    → t ≤ length js
    → (other : KekEngine) → other.closed ≡ false
    → (recipients : KeyHolders)
    → (blobs : List Bytes) × (result : ReleaseResult) × (open_shares boxes custodians shares js
        ≡ ok blobs)
      × (reconstruct_wrap_release sodium boxes again blobs
            (map (recipient_of boxes) recipients)
            (fingerprint_of sodium kek)
            other
          ≡ ok result)
      × (open_wrapped boxes recipients result.wrapped ≡ ok (map (λ r. kek) recipients))
reconstruct_wrap_release-split_and_destroy sodium laws boxes box_laws ephemeral again fill fills id
      kek engine is_held bytes size t custodians shares done js below distinct enough other live
      recipients =
    let split =
      split_and_destroy-ok sodium boxes ephemeral fill id t (map (custodian_of boxes) custodians)
        engine kek shares is_held done in
    let ss = split.0 in
    let n = length custodians in
    let count : length (map (custodian_of boxes) custodians) ≡ n =
      length-map (custodian_of boxes) custodians in
    let facts =
      shamir_split-ok fill kek t (length (map (custodian_of boxes) custodians)) ss split.1 in
    let set_id = fill 0 8 in
    let rows = coefficients fill t 1 kek in
    let row_count : length rows ≡ 32 = length-coefficients fill t 1 kek ∙ size in
    let all : ss ≡ shares_from set_id t rows 0 n =
      facts.4 ∙ ap (shares_from set_id t rows 0) count in
    let opened =
      opened_shares sodium laws boxes box_laws ephemeral set_id t rows n (fills 0 8).0 (omega arith)
        (omega arith) (omega arith) (omega arith) custodians shares refl
        (subst
          (λ l.
            seal_shares sodium boxes ephemeral 0 (map (custodian_of boxes) custodians) l
            ≡ ok shares)
          all split.2)
        js below in
    let given = opened.1 in
    let given_count : length given ≡ length js =
      sym (length-map x_of given) ∙ ap length opened.5 ∙ length-map (λ j. j + 1) js in
    let combined : shamir_combine given (some 32) ≡ ok kek =
      shamir_combine-shamir_split fill fills kek bytes t
        (length (map (custodian_of boxes) custodians)) ss split.1 given
        (subst (λ l. AreAmong l given) (sym all) opened.4)
        (subst AreDistinct (sym opened.5) (distinct_suc js distinct)) (omega arith) (some 32)
        ((==_iff 32 (length kek)).1 (sym size)) in
    let wrapped =
      open_wrapped-wrap_kek sodium boxes box_laws again 0 kek (fingerprint_of sodium kek) size
        recipients in
    (
      opened.0,
      record { wrapped = wrapped.0; kek_fingerprint = fingerprint_of sodium kek },
      opened.2,
      combine_opened sodium boxes again opened.0 given kek (map (recipient_of boxes) recipients)
          wrapped.0 other live opened.3 combined wrapped.1,
      wrapped.2,
    )
