-- ===== src/Crypto/Aead/Decrypted.antt =====
-- packages/crypto/src/aead.ts: decrypting what was encrypted.
use zero_window.Prelude.{
  ◌≡◌, ◌≤◌, refl, subst, false, Bytes, length, ltb, ◌==◌, ==_iff, ok, ok-injective, Bool-cases, inl,
  inr, arith,
}
use zero_window.Crypto.Aead.{Ciphers, CipherLaws, AeadCiphertext, aead_encrypt, aead_decrypt}

-- What aead_encrypt returns has a nonce and a tag, and decrypts to the plaintext.
pub aead_decrypt-aead_encrypt :
    (ciphers : Ciphers)
    → CipherLaws ciphers
    → (key plain ad nonce : Bytes) (ct : AeadCiphertext)
    → aead_encrypt ciphers key plain ad nonce ≡ ok ct
    → (length key ≡ 32)
      × (length ct.nonce ≡ 24)
      × (16 ≤ length ct.ciphertext)
      × (aead_decrypt ciphers key ct ad ≡ ok plain)
unfolding aead_encrypt aead_decrypt
aead_decrypt-aead_encrypt ciphers laws key plain ad nonce ct h =
    elim (Bool-cases (length key == 32)) [
      | inr bad ↦ let refused = rw (bad, aead_encrypt) at h in cc
      | inl key_fits ↦ elim (Bool-cases (length nonce == 24)) [
        | inr bad ↦ let refused = rw (key_fits, bad, aead_encrypt) at h in cc
        | inl nonce_fits ↦
            let e = ok-injective (rw (key_fits, nonce_fits, aead_encrypt) at h) in
            let cipher = ciphers.xchacha20poly1305_encrypt plain ad nonce key in
            let size = laws.encrypt_length plain ad nonce key in
            let k = (==_iff (length key) 32).0 key_fits in
            let n = (==_iff (length nonce) 24).0 nonce_fits in
            let tagged : ltb (length cipher) 16 ≡ false = ground arith in
            let opened = laws.decrypt_encrypt plain ad nonce key n k in
            subst
              (λ (c : AeadCiphertext).
                (length key ≡ 32)
                × (length c.nonce ≡ 24)
                × (16 ≤ length c.ciphertext)
                × (aead_decrypt ciphers key c ad ≡ ok plain))
              e (k, n, omega (arith, size), rw (key_fits, tagged, opened) refl)
      ]
    ]
