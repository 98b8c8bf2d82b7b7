-- ===== src/Crypto/Aead.antt =====
-- packages/crypto/src/aead.ts: the envelope of a ciphertext and its decryption. Encryption and
-- decryption proper are libsodium's, operations of the record `Ciphers`.
pub mod Envelope
pub mod Decrypted
use zero_window.Prelude.{
  ◌≡◌, ℕ, ◌+◌, ◌-◌, Bool, true, false, not, Bytes, Option, none, some, List, [], ◌∷◌, ◌++◌, length,
  take, drop, ltb, ◌==◌, equals, if◌then◌else◌, Result, ok, err,
}
use zero_window.Crypto.Hash.{codes}

pub record Ciphers : Type 0 where
  -- Ciphertext with its tag, associated data, nonce, key.
  pub xchacha20poly1305_decrypt : Bytes → Bytes → Bytes → Bytes → Option Bytes
  -- Plaintext, associated data, nonce, key.
  pub xchacha20poly1305_encrypt : Bytes → Bytes → Bytes → Bytes → Bytes

-- Documented behaviour of libsodium.
pub record CipherLaws (ciphers : Ciphers) : Type 0 where
  pub encrypt_length :
      (plain ad nonce key : Bytes)
      → length (ciphers.xchacha20poly1305_encrypt plain ad nonce key) ≡ length plain + 16
  pub decrypt_encrypt :
      (plain ad nonce key : Bytes)
      → length nonce ≡ 24
      → length key ≡ 32
      → ciphers.xchacha20poly1305_decrypt
          (ciphers.xchacha20poly1305_encrypt plain ad nonce key)
          ad
          nonce
          key
        ≡ some plain

abbrev pub aead_key_bytes : ℕ
aead_key_bytes = 32

abbrev pub aead_nonce_bytes : ℕ
aead_nonce_bytes = 24

abbrev pub aead_tag_bytes : ℕ
aead_tag_bytes = 16

-- The one suite of the type needs no field.
pub record AeadCiphertext : Type 0 where
  pub nonce : Bytes
  pub ciphertext : Bytes

pub data AeadError : Type 0 where
  bad_key_length bad_nonce_length ciphertext_too_short decryption_failed : AeadError
  envelope_too_short bad_magic : AeadError

-- With the nonce given; the default is a random one.
unfoldable pub aead_encrypt :
    Ciphers → (key plaintext associated_data nonce : Bytes) → Result AeadError AeadCiphertext
aead_encrypt ciphers key plaintext associated_data nonce =
    if not (length key == aead_key_bytes)
    then err bad_key_length
    else if not (length nonce == aead_nonce_bytes)
    then err bad_nonce_length
    else ok (record {
      nonce = nonce;
      ciphertext = ciphers.xchacha20poly1305_encrypt plaintext associated_data nonce key;
    })

-- Without a buffer of the caller's.
unfoldable pub aead_decrypt :
    Ciphers → (key : Bytes) → AeadCiphertext → (associated_data : Bytes) → Result AeadError Bytes
aead_decrypt ciphers key ct associated_data =
    if not (length key == aead_key_bytes)
    then err bad_key_length
    else if ltb (length ct.ciphertext) aead_tag_bytes
    then err ciphertext_too_short
    else elim (ciphers.xchacha20poly1305_decrypt ct.ciphertext associated_data ct.nonce key) [
      | none ↦ err decryption_failed
      | some plain ↦ ok plain
    ]

abbrev pub aead_magic : Bytes
aead_magic = codes "ZWAE1"

unfoldable pub serialize_aead : AeadCiphertext → Bytes
serialize_aead ct = aead_magic ++ ct.nonce ++ ct.ciphertext

unfoldable pub parse_aead : Bytes → Result AeadError AeadCiphertext
parse_aead buf =
    if ltb (length buf) (length aead_magic + aead_nonce_bytes + aead_tag_bytes)
    then err envelope_too_short
    else if not (equals (take (length aead_magic) buf) aead_magic)
    then err bad_magic
    else ok (record {
      nonce = take aead_nonce_bytes (drop (length aead_magic) buf);
      ciphertext = drop (length aead_magic + aead_nonce_bytes) buf;
    })
