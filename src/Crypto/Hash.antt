-- ===== src/Crypto/Hash.antt =====
-- packages/crypto/src/hash.ts and sign.ts: BLAKE2b, its domain-separated form, and
-- domain-separated Ed25519 signatures.
use zero_window.Prelude.{
  ℕ, ◌≡◌, Bool, true, false, ◌||◌, not, Bytes, AreBytes, Text, Option, none, List, [], ◌∷◌, ◌++◌,
  length, concat, ◌==◌, if◌then◌else◌, arith,
}
use zero_window.Crypto.Sodium.{Sodium, SodiumLaws}
use Prim.Native.Char.{code}
use Prim.Native.String.{String}

-- The code points of a literal: its bytes, as it is ASCII.
abbrev pub codes : String → Text
codes String.[] = []
codes (String.◌∷◌ c s) = code c ∷ codes s

abbrev pub hash_bytes : ℕ
hash_bytes = 32

-- `zero-window/v1/${domain}\n` as bytes; every domain of the program is ASCII.
unfoldable pub domain_prefix : Text → Bytes
domain_prefix domain = codes "zero-window/v1/" ++ domain ++ 10 ∷ []

module _ (sodium : Sodium) where
  unfoldable pub blake2b_with : List Bytes → Option Bytes → ℕ → Bytes
  blake2b_with parts key out_len = sodium.generichash out_len key (concat parts)

  -- With the default options.
  unfoldable pub blake2b : List Bytes → Bytes
  unfolding blake2b_with
  blake2b parts = blake2b_with parts none hash_bytes

  unfoldable pub domain_hash : Text → List Bytes → Bytes
  unfolding blake2b domain_prefix
  domain_hash domain parts = blake2b (domain_prefix domain ∷ parts)

  unfoldable pub verify : (message signature public_key : Bytes) → Bool
  verify message signature public_key =
      if not (length signature == 64) || not (length public_key == 32)
      then false
      else sodium.sign_verify_detached signature message public_key

  unfoldable pub sign_domain : Text → (message secret_key : Bytes) → Bytes
  unfolding domain_prefix
  sign_domain domain message secret_key =
      sodium.sign_detached (domain_prefix domain ++ message) secret_key

  unfoldable pub verify_domain : Text → (message signature public_key : Bytes) → Bool
  unfolding domain_prefix verify
  verify_domain domain message signature public_key =
      verify (domain_prefix domain ++ message) signature public_key

  module _ (laws : SodiumLaws sodium) where
    pub length-blake2b : (parts : List Bytes) → length (blake2b parts) ≡ 32
    unfolding blake2b
    length-blake2b parts = laws.hash_length 32 none (concat parts)

    pub length-domain_hash :
        (domain : Text) (parts : List Bytes) → length (domain_hash domain parts) ≡ 32
    unfolding domain_hash
    length-domain_hash domain parts = length-blake2b (domain_prefix domain ∷ parts)

    pub sign_domain-AreBytes :
        (domain : Text) (message secret_key : Bytes)
        → AreBytes (sign_domain domain message secret_key)
    unfolding sign_domain
    sign_domain-AreBytes domain message secret_key =
        laws.signature_are_bytes (domain_prefix domain ++ message) secret_key

    pub verify_domain-sign_domain :
        (domain : Text) (message secret_key : Bytes)
        → verify_domain domain message
            (sign_domain domain message secret_key)
            (sodium.public_key secret_key)
          ≡ true
    unfolding verify_domain sign_domain
    verify_domain-sign_domain domain message secret_key = ground (
      arith,
      laws.signature_length (domain_prefix domain ++ message) secret_key,
      laws.public_key_length secret_key,
      laws.verify_sign (domain_prefix domain ++ message) secret_key,
    )
