-- ===== src/Crypto/Box.antt =====
-- packages/crypto/src/box.ts: sealed boxes. The two calls of libsodium are operations of the record
-- `Boxes`; the seal takes the random key that libsodium draws.
use zero_window.Prelude.{
  subst, ℕ, ◌+◌, ◌-◌, ◌≡◌, Bool, true, false, not, Bytes, Option, none, some, length, ltb, ◌==◌,
  if◌then◌else◌, Result, ok, err, ==_iff, refl, arith,
}

pub record Boxes : Type 0 where
  -- Random key, plaintext, public key of the recipient.
  pub crypto_box_seal : Bytes → Bytes → Bytes → Bytes
  -- Sealed box, public key, secret key.
  pub crypto_box_seal_open : Bytes → Bytes → Bytes → Option Bytes
  -- The public key of a secret key.
  pub box_public_key : Bytes → Bytes

abbrev pub box_publickey_bytes : ℕ
box_publickey_bytes = 32

abbrev pub box_seal_overhead : ℕ
box_seal_overhead = 48

-- Documented behaviour of libsodium.
pub record BoxLaws (boxes : Boxes) : Type 0 where
  pub seal_length :
      (r plain pk : Bytes) → length (boxes.crypto_box_seal r plain pk) ≡ length plain + 48
  pub public_key_length : (sk : Bytes) → length (boxes.box_public_key sk) ≡ 32
  pub open_seal :
      (r plain sk : Bytes)
      → boxes.crypto_box_seal_open
          (boxes.crypto_box_seal r plain (boxes.box_public_key sk))
          (boxes.box_public_key sk)
          sk
        ≡ some plain

pub data BoxError : Type 0 where
  bad_public_key sealed_too_short output_buffer_length box_not_opened : BoxError

abbrev pub fits_buffer : Option ℕ → ℕ → Bool
fits_buffer none len = true
fits_buffer (some n) len = n == len

module _ (boxes : Boxes) where
  unfoldable pub seal : (random plaintext recipient_public_key : Bytes) → Result BoxError Bytes
  seal random plaintext recipient_public_key =
      if not (length recipient_public_key == box_publickey_bytes)
      then err bad_public_key
      else ok (boxes.crypto_box_seal random plaintext recipient_public_key)

  -- With the length of the buffer for the plaintext, if the caller gives one.
  unfoldable pub seal_open :
      (sealed public_key secret_key : Bytes) → (out : Option ℕ) → Result BoxError Bytes
  seal_open sealed public_key secret_key out =
      if ltb (length sealed) box_seal_overhead
      then err sealed_too_short
      else if not (fits_buffer out (length sealed - box_seal_overhead))
      then err output_buffer_length
      else elim (boxes.crypto_box_seal_open sealed public_key secret_key) [
        | none ↦ err box_not_opened
        | some plain ↦ ok plain
      ]

  -- Opening a sealed box with the recipient's keys gives the plaintext back.
  pub seal_open-seal :
      BoxLaws boxes
      → (random plaintext secret_key sealed : Bytes)
      → seal random plaintext (boxes.box_public_key secret_key) ≡ ok sealed
      → (out : Option ℕ) → fits_buffer out (length plaintext) ≡ true
      → seal_open sealed (boxes.box_public_key secret_key) secret_key out ≡ ok plaintext
  unfolding seal seal_open
  seal_open-seal laws random plaintext secret_key sealed h out fits =
      let pk = boxes.box_public_key secret_key in
      let right_key : (length pk == 32) ≡ true =
        (==_iff (length pk) 32).1 (laws.public_key_length secret_key) in
      let e : boxes.crypto_box_seal random plaintext pk ≡ sealed = ground arith in
      let size : length sealed ≡ length plaintext + 48 =
        subst (λ s. length s ≡ length plaintext + 48) e (laws.seal_length random plaintext pk) in
      let long : ltb (length sealed) 48 ≡ false = ground arith in
      let opened : boxes.crypto_box_seal_open sealed pk secret_key ≡ some plaintext =
        subst (λ s. boxes.crypto_box_seal_open s pk secret_key ≡ some plaintext) e
          (laws.open_seal random plaintext secret_key) in
      let rest : length sealed - 48 ≡ length plaintext = omega arith in
      rw (long, rest, fits, opened) refl
