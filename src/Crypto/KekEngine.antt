-- ===== src/Crypto/KekEngine.antt =====
-- packages/crypto/src/kek-engine.ts: the keys that a provider holds in memory. Zeroing a buffer is
-- not visible in the model; the result of an operation that changes the engine comes with the
-- engine after it.
pub mod Custody
pub mod Destroyed
pub mod Envelopes
pub mod Release
use zero_window.Prelude.{
  Bool, true, not, Bytes, Text, Option, none, some, List, [], ◌∷◌, length, ◌==◌, equals,
  if◌then◌else◌, Result, ok, err, map_ok, and_then,
}
use zero_window.Crypto.Sodium.{Sodium}
use zero_window.Crypto.Hash.{codes, domain_hash}
use zero_window.Crypto.Box.{BoxError}
use zero_window.Crypto.Share.{ShareError}
use zero_window.Crypto.Shamir.{SplitError}
use zero_window.Crypto.Aead.{
  Ciphers, AeadCiphertext, AeadError, aead_decrypt, aead_encrypt, aead_key_bytes,
}

pub record KekEngine : Type 0 where
  pub keks : List (Text × Bytes)
  pub closed : Bool

pub data KekError : Type 0 where
  provider_closed kek_already_exists kek_not_held share_invalid fingerprint_mismatch : KekError
  aead_failed : AeadError → KekError
  split_failed : SplitError → KekError
  share_failed : ShareError → KekError
  box_failed : BoxError → KekError

-- `Map.get`, `Map.delete`; a set puts the new key in front, where no other binding is.
unfoldable pub get_kek : List (Text × Bytes) → Text → Option Bytes
get_kek [] id = none
get_kek ((k, kek) ∷ keks) id = if equals k id then some kek else get_kek keks id

unfoldable pub delete_kek : List (Text × Bytes) → Text → List (Text × Bytes)
delete_kek [] id = []
delete_kek ((k, kek) ∷ keks) id =
    if equals k id then delete_kek keks id else (k, kek) ∷ delete_kek keks id

-- The result of an operation and the engine after it.
abbrev pub Outcome : Type 0 → Type 0
Outcome A = Result KekError A × KekEngine

abbrev pub add_kek : Text → Bytes → KekEngine → KekEngine
add_kek id kek engine = record engine { keks = (id, kek) ∷ engine.keks }

abbrev pub lift_aead : {A : Type 0} → Result AeadError A → Result KekError A
lift_aead (ok a) = ok a
lift_aead (err e) = err (aead_failed e)

unfoldable pub held : Text → KekEngine → Result KekError Bytes
unfolding get_kek
held id engine =
    if engine.closed
    then err provider_closed
    else elim (get_kek engine.keks id) [ none ↦ err kek_not_held | some kek ↦ ok kek ]

unfoldable pub destroy : Text → KekEngine → KekEngine
unfolding delete_kek
destroy id engine = record engine { keks = delete_kek engine.keks id }

unfoldable pub close : KekEngine → KekEngine
close engine = record { keks = []; closed = true }

module _ (sodium : Sodium) where
  unfoldable pub fingerprint_of : Bytes → Bytes
  unfolding domain_hash
  fingerprint_of kek = domain_hash sodium (codes "kek-fingerprint") (kek ∷ [])

  -- With the random bytes that `randomFill` writes.
  unfoldable pub generate : Text → Bytes → KekEngine → Outcome Bytes
  unfolding get_kek fingerprint_of
  generate id random engine =
      if engine.closed then (err provider_closed, engine) else elim (get_kek engine.keks id) [
        | some old ↦ (err kek_already_exists, engine)
        | none ↦ (ok (fingerprint_of random), add_kek id random engine)
      ]

  unfoldable pub import_kek : Text → Bytes → KekEngine → Outcome Bytes
  unfolding get_kek fingerprint_of
  import_kek id raw engine =
      if engine.closed then (err provider_closed, engine) else elim (get_kek engine.keks id) [
        | some old ↦ (err kek_already_exists, engine)
        | none ↦
            if not (length raw == aead_key_bytes)
            then (err share_invalid, engine)
            else (ok (fingerprint_of raw), add_kek id raw engine)
      ]

  unfoldable pub fingerprint : Text → KekEngine → Result KekError Bytes
  unfolding held fingerprint_of
  fingerprint id engine = map_ok fingerprint_of (held id engine)

module _ (ciphers : Ciphers) where
  unfoldable pub encrypt :
      Text → (plaintext ad nonce : Bytes) → KekEngine → Result KekError AeadCiphertext
  unfolding held aead_encrypt
  encrypt id plaintext ad nonce engine =
      and_then (held id engine) (λ kek. lift_aead (aead_encrypt ciphers kek plaintext ad nonce))

  unfoldable pub decrypt : Text → AeadCiphertext → (ad : Bytes) → KekEngine → Result KekError Bytes
  unfolding held aead_decrypt
  decrypt id ct ad engine =
      and_then (held id engine) (λ kek. lift_aead (aead_decrypt ciphers kek ct ad))
