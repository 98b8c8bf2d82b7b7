-- ===== src/Crypto/Sodium.antt =====
-- The operations of libsodium that packages/crypto calls, as an interface, and the documented
-- behaviour that the theorems name. The library itself is not part of the repository.
use zero_window.Prelude.{ℕ, ◌≡◌, Bool, true, Bytes, AreBytes, Option, length}

pub record Sodium : Type 0 where
  -- Output length, optional key, message.
  pub generichash : ℕ → Option Bytes → Bytes → Bytes
  -- Message, secret key.
  pub sign_detached : Bytes → Bytes → Bytes
  -- Signature, message, public key.
  pub sign_verify_detached : Bytes → Bytes → Bytes → Bool
  -- The public key of a secret key.
  pub public_key : Bytes → Bytes

pub record SodiumLaws (s : Sodium) : Type 0 where
  pub hash_length : (n : ℕ) (key : Option Bytes) (m : Bytes) → length (s.generichash n key m) ≡ n
  pub hash_are_bytes : (n : ℕ) (key : Option Bytes) (m : Bytes) → AreBytes (s.generichash n key m)
  pub signature_length : (m sk : Bytes) → length (s.sign_detached m sk) ≡ 64
  pub signature_are_bytes : (m sk : Bytes) → AreBytes (s.sign_detached m sk)
  pub public_key_are_bytes : (sk : Bytes) → AreBytes (s.public_key sk)
  pub public_key_length : (sk : Bytes) → length (s.public_key sk) ≡ 32
  pub verify_sign :
      (m sk : Bytes) → s.sign_verify_detached (s.sign_detached m sk) m (s.public_key sk) ≡ true
