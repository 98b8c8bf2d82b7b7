-- ===== src/Crypto/KekEngine/Envelopes.antt =====
-- packages/crypto/src/kek-engine.ts: the way of a key from its split over the custodians'
-- envelopes to the envelopes of the recipients.
use zero_window.Prelude.{
  ℕ, zero, suc, ◌+◌, ◌<◌, ◌≡◌, refl, sym, ap, subst, ◌∙◌, true, Bytes, Text, none, some, List, [],
  ◌∷◌, map, length, get_elem?, ◌==◌, ==_iff, Result, ok, err, map_ok, and_then, and_then-ok,
  map_ok-ok, arith,
}
use zero_window.Crypto.Sodium.{Sodium}
use zero_window.Crypto.Aead.{aead_key_bytes}
use zero_window.Crypto.Box.{Boxes, BoxLaws, BoxError, seal, seal_open, seal_open-seal}
use zero_window.Crypto.Share.{ShamirShare, ShareError, serialize_share}
use zero_window.Crypto.Shamir.{SplitError, share_at, shares_from}
use zero_window.Crypto.KekEngine.{KekError, kek_not_held}
use zero_window.Crypto.KekEngine.Custody.{
  CustodianRecipient, EncryptedShare, KekRecipient, WrappedKek, lift_split, lift_share, lift_box,
  seal_share, seal_shares, wrap_kek,
}

-- Names with the secret keys that belong to them.
abbrev pub KeyHolders : Type 0
KeyHolders = List (Text × Bytes)

module _ (boxes : Boxes) where
  abbrev pub custodian_of : Text × Bytes → CustodianRecipient
  custodian_of (id, sk) = record { custodian_id = id; box_public_key = boxes.box_public_key sk }

  abbrev pub recipient_of : Text × Bytes → KekRecipient
  recipient_of (id, sk) = record { recipient_id = id; box_public_key = boxes.box_public_key sk }

  -- The custodian number j opens their envelope.
  abbrev pub open_share : KeyHolders → List EncryptedShare → ℕ → Result KekError Bytes
  open_share [] shares j = err kek_not_held
  open_share ((id, sk) ∷ keys) [] j = err kek_not_held
  open_share ((id, sk) ∷ keys) (s ∷ shares) zero =
      lift_box (seal_open boxes s.sealed (boxes.box_public_key sk) sk none)
  open_share ((id, sk) ∷ keys) (s ∷ shares) (suc j) = open_share keys shares j

  abbrev pub open_shares : KeyHolders → List EncryptedShare → List ℕ → Result KekError (List Bytes)
  open_shares keys shares [] = ok []
  open_shares keys shares (j ∷ js) =
      and_then (open_share keys shares j) (λ blob. map_ok (◌∷◌ blob) (open_shares keys shares js))

  -- The recipients open their envelopes.
  abbrev pub open_wrapped : KeyHolders → List WrappedKek → Result KekError (List Bytes)
  open_wrapped [] wrapped = ok []
  open_wrapped ((id, sk) ∷ keys) [] = ok []
  open_wrapped ((id, sk) ∷ keys) (w ∷ wrapped) =
      and_then
        (lift_box (seal_open boxes w.sealed (boxes.box_public_key sk) sk (some aead_key_bytes)))
        (λ kek. map_ok (◌∷◌ kek) (open_wrapped keys wrapped))

abbrev pub AreBelow : ℕ → List ℕ → Type 0
AreBelow n [] = Unit
AreBelow n (j ∷ js) = (j < n) × AreBelow n js

pub get_elem?-shares_from :
    (set_id : Bytes) (t : ℕ) (rows : List Bytes) (i n k : ℕ)
    → k < n
    → get_elem? (shares_from set_id t rows i n) k ≡ some (share_at set_id t rows (i + k + 1))
get_elem?-shares_from set_id t rows i zero k h = absurd (omega arith)
get_elem?-shares_from set_id t rows i (suc n) zero h =
    ap (λ x. some (share_at set_id t rows x)) (omega arith)
get_elem?-shares_from set_id t rows i (suc n) (suc k) h =
    get_elem?-shares_from set_id t rows (suc i) n k (omega arith)
    ∙ ap (λ x. some (share_at set_id t rows x)) (omega arith)

pub lift_share-ok : {A : Type 0} (r : Result ShareError A) (a : A) → lift_share r ≡ ok a → r ≡ ok a
lift_share-ok (ok b) a h = cc
lift_share-ok (err e) a h = cc

pub lift_box-ok : {A : Type 0} (r : Result BoxError A) (a : A) → lift_box r ≡ ok a → r ≡ ok a
lift_box-ok (ok b) a h = cc
lift_box-ok (err e) a h = cc

pub lift_split-ok : {A : Type 0} (r : Result SplitError A) (a : A) → lift_split r ≡ ok a → r ≡ ok a
lift_split-ok (ok b) a h = cc
lift_split-ok (err e) a h = cc

module _ (sodium : Sodium) (boxes : Boxes) (box_laws : BoxLaws boxes) (ephemeral : ℕ → Bytes) where
  -- The envelope of one share: its holder opens it to the share's bytes.
  open-seal_share :
      (i : ℕ) (id : Text) (sk : Bytes) (s : ShamirShare) (e : EncryptedShare)
      → seal_share sodium boxes ephemeral i (custodian_of boxes (id, sk)) s ≡ ok e
      → (blob : Bytes) × (serialize_share sodium s ≡ ok blob)
        × (seal_open boxes e.sealed (boxes.box_public_key sk) sk none ≡ ok blob)
  unfolding seal_share
  open-seal_share i id sk s e h =
      let pk = boxes.box_public_key sk in
      let serialized = and_then-ok (lift_share (serialize_share sodium s)) _ e h in
      let blob = serialized.0 in
      let sealed = map_ok-ok _ (lift_box (seal boxes (ephemeral i) blob pk)) e serialized.2 in
      (
        blob,
        lift_share-ok _ blob serialized.1,
        subst (λ (e : EncryptedShare). seal_open boxes e.sealed pk sk none ≡ ok blob) sealed.2
            (seal_open-seal boxes box_laws (ephemeral i) blob sk sealed.0
              (lift_box-ok _ sealed.0 sealed.1) none refl),
      )

  pub open_share-seal_shares :
      (i : ℕ) (keys : KeyHolders) (ss : List ShamirShare) (shares : List EncryptedShare)
      → seal_shares sodium boxes ephemeral i (map (custodian_of boxes) keys) ss ≡ ok shares
      → (j : ℕ) (s : ShamirShare) → j < length keys
      → get_elem? ss j ≡ some s
      → (blob : Bytes) × (serialize_share sodium s ≡ ok blob)
        × (open_share boxes keys shares j ≡ ok blob)
  open_share-seal_shares i [] ss shares h j s lt at = absurd (omega arith)
  open_share-seal_shares i ((id, sk) ∷ keys) [] shares h j s lt at = cc
  open_share-seal_shares i ((id, sk) ∷ keys) (s0 ∷ ss) shares h zero s lt at =
      let first =
        and_then-ok (seal_share sodium boxes ephemeral i (custodian_of boxes (id, sk)) s0) _ shares
          h in
      let rest =
        map_ok-ok (◌∷◌ first.0)
          (seal_shares sodium boxes ephemeral (suc i) (map (custodian_of boxes) keys) ss) shares
          first.2 in
      let opened = open-seal_share i id sk s0 first.0 first.1 in
      let same : s0 ≡ s = cc in
      (
        opened.0,
        subst (λ s. serialize_share sodium s ≡ ok opened.0) same opened.1,
        subst (λ l. open_share boxes ((id, sk) ∷ keys) l zero ≡ ok opened.0) rest.2
            (ap lift_box opened.2),
      )
  open_share-seal_shares i ((id, sk) ∷ keys) (s0 ∷ ss) shares h (suc j) s lt at =
      let first =
        and_then-ok (seal_share sodium boxes ephemeral i (custodian_of boxes (id, sk)) s0) _ shares
          h in
      let rest =
        map_ok-ok (◌∷◌ first.0)
          (seal_shares sodium boxes ephemeral (suc i) (map (custodian_of boxes) keys) ss) shares
          first.2 in
      let ih = open_share-seal_shares (suc i) keys ss rest.0 rest.1 j s (omega arith) at in
      (ih.0, ih.1, subst (λ l. open_share boxes ((id, sk) ∷ keys) l (suc j) ≡ ok ih.0) rest.2 ih.2)

  -- What the recipients open is the key.
  pub open_wrapped-wrap_kek :
      (i : ℕ) (kek fp : Bytes)
      → length kek ≡ 32
      → (keys : KeyHolders)
      → (wrapped : List WrappedKek) × (wrap_kek boxes ephemeral i kek fp
            (map (recipient_of boxes) keys)
          ≡ ok wrapped)
        × (open_wrapped boxes keys wrapped ≡ ok (map (λ k. kek) keys))
  unfolding seal
  open_wrapped-wrap_kek i kek fp size [] = ([], refl, refl)
  open_wrapped-wrap_kek i kek fp size ((id, sk) ∷ keys) =
      let pk = boxes.box_public_key sk in
      let rest = open_wrapped-wrap_kek (suc i) kek fp size keys in
      let right_key : (length pk == 32) ≡ true =
        (==_iff (length pk) 32).1 (box_laws.public_key_length sk) in
      let sealed = boxes.crypto_box_seal (ephemeral i) kek pk in
      let is_sealed : seal boxes (ephemeral i) kek pk ≡ ok sealed = rw right_key refl in
      let opened : seal_open boxes sealed pk sk (some 32) ≡ ok kek =
        seal_open-seal boxes box_laws (ephemeral i) kek sk sealed is_sealed (some 32)
          ((==_iff 32 (length kek)).1 (sym size)) in
      (
        record { recipient_id = id; sealed = sealed; kek_fingerprint = fp } ∷ rest.0,
        rw (is_sealed, rest.1) refl,
        rw (opened, rest.2) refl,
      )
