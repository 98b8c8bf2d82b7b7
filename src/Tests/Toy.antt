-- ===== src/Tests/Toy.antt =====
-- A stand-in for libsodium that meets the laws: a digest is the input, cut or filled up with zeros.
use zero_window.Prelude.{
  ℕ, zero, suc, ◌≡◌, refl, ap, Bytes, AreBytes, Option, none, some, [], ◌∷◌, ◌++◌, length, equals,
  equals_refl, arith, ◌%◌, ◌/◌, ◌+◌, ◌*◌, drop, length-append,
}
use zero_window.Crypto.Aead.{Ciphers, CipherLaws}
use zero_window.Crypto.Box.{Boxes, BoxLaws}
use zero_window.Crypto.Shamir.RoundTrip.{FillsBytes}
use zero_window.Crypto.Sodium.{Sodium, SodiumLaws}

abbrev pub fit : ℕ → Bytes → Bytes
fit zero bs = []
fit (suc n) [] = 0 ∷ fit n []
fit (suc n) (b ∷ bs) = b % 256 ∷ fit n bs

pub length-fit : (n : ℕ) (bs : Bytes) → length (fit n bs) ≡ n
length-fit zero bs = refl
length-fit (suc n) [] = ap suc (length-fit n [])
length-fit (suc n) (b ∷ bs) = ap suc (length-fit n bs)

pub fit-AreBytes : (n : ℕ) (bs : Bytes) → AreBytes (fit n bs)
fit-AreBytes zero bs = tt
fit-AreBytes (suc n) [] = (omega arith, fit-AreBytes n [])
fit-AreBytes (suc n) (b ∷ bs) = (omega arith, fit-AreBytes n bs)

abbrev pub keyed : Option Bytes → Bytes → Bytes
keyed none m = m
keyed (some k) m = k ++ m

abbrev pub toy : Sodium
toy = record {
  generichash = λ n key m. fit n (keyed key m);
  sign_detached = λ m sk. fit 64 (fit 32 sk ++ m);
  sign_verify_detached = λ sig m pk. equals sig (fit 64 (pk ++ m));
  public_key = λ sk. fit 32 sk;
}

pub toy_laws : SodiumLaws toy
toy_laws = record {
  hash_length = λ n key m. length-fit n (keyed key m);
  hash_are_bytes = λ n key m. fit-AreBytes n (keyed key m);
  signature_length = λ m sk. length-fit 64 (fit 32 sk ++ m);
  signature_are_bytes = λ m sk. fit-AreBytes 64 (fit 32 sk ++ m);
  public_key_length = λ sk. length-fit 32 sk;
  public_key_are_bytes = λ sk. fit-AreBytes 32 sk;
  verify_sign = λ m sk. equals_refl (fit 64 (fit 32 sk ++ m));
}

-- A sealed box that hides nothing: the recipient's key, filled up, and the plaintext.
abbrev pub toy_boxes : Boxes
toy_boxes = record {
  crypto_box_seal = λ r plain pk. fit 48 pk ++ plain;
  crypto_box_seal_open = λ sealed pk sk. some (drop 48 sealed);
  box_public_key = λ sk. fit 32 sk;
}

drop-fit : (n : ℕ) (bs plain : Bytes) → drop n (fit n bs ++ plain) ≡ plain
drop-fit zero bs plain = refl
drop-fit (suc n) [] plain = drop-fit n [] plain
drop-fit (suc n) (b ∷ bs) plain = drop-fit n bs plain

pub toy-BoxLaws : BoxLaws toy_boxes
toy-BoxLaws = record {
  seal_length = λ r plain pk. omega (arith, length-append (fit 48 pk) plain, length-fit 48 pk);
  public_key_length = λ sk. length-fit 32 sk;
  open_seal = λ r plain sk. ap some (drop-fit 48 (fit 32 sk) plain);
}

-- Bytes in place of random ones.
abbrev pub toy_fill : ℕ → ℕ → Bytes
toy_fill i n = fit n ((i * 37 + 5) ∷ (i * 91 + 17) ∷ (i * 53 + 200) ∷ [])

pub toy_fills : FillsBytes toy_fill
toy_fills = λ i n. (
  length-fit n ((i * 37 + 5) ∷ (i * 91 + 17) ∷ (i * 53 + 200) ∷ []),
  fit-AreBytes n ((i * 37 + 5) ∷ (i * 91 + 17) ∷ (i * 53 + 200) ∷ []),
)

-- A checksum of the bytes, for a stand-in whose digests of different entries differ.
abbrev mix : ℕ → Bytes → ℕ
mix h [] = h
mix h (b ∷ bs) = mix ((h * 257 + b + 1) % 4294967291) bs

abbrev checksum : Bytes → Bytes
checksum m = mix 7 m ∷ mix 7 m / 256 ∷ mix 7 m / 65536 ∷ []

abbrev pub mixed : Sodium
mixed = record toy { generichash = λ n key m. fit n (checksum (keyed key m)) }

pub mixed_laws : SodiumLaws mixed
mixed_laws = record {
  hash_length = λ n key m. length-fit n (checksum (keyed key m));
  hash_are_bytes = λ n key m. fit-AreBytes n (checksum (keyed key m));
  signature_length = toy_laws.signature_length;
  signature_are_bytes = toy_laws.signature_are_bytes;
  public_key_length = toy_laws.public_key_length;
  public_key_are_bytes = toy_laws.public_key_are_bytes;
  verify_sign = toy_laws.verify_sign;
}

-- A cipher that hides nothing: the associated data, filled up, and the plaintext.
abbrev pub toy_ciphers : Ciphers
toy_ciphers = record {
  xchacha20poly1305_decrypt = λ ct ad nonce key. some (drop 16 ct);
  xchacha20poly1305_encrypt = λ plain ad nonce key. fit 16 ad ++ plain;
}

pub toy-CipherLaws : CipherLaws toy_ciphers
toy-CipherLaws = record {
  encrypt_length =
      λ plain ad nonce key. omega (arith, length-append (fit 16 ad) plain, length-fit 16 ad);
  decrypt_encrypt = λ plain ad nonce key n k. ap some (drop-fit 16 ad plain);
}
