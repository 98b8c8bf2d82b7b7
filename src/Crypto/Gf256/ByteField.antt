-- ===== src/Crypto/Gf256/ByteField.antt =====
-- packages/crypto/src/gf256.ts: the bytes with the operations of the tables are a field.
use Prim.Native.Nat.{bit_xor}
use native.Mathlib.Bridge.{le_prop}
use mathlib.Core.HLevel.{Σ_prop_path}
use zero_window.Prelude.{ℕ, zero, suc, ◌-◌, ◌%◌, ◌<◌, ◌≡◌, refl, sym, ap, subst, ◌≢◌, arith}
use zero_window.Crypto.Xor.{bit_xor_assoc, bit_xor_comm, bit_xor_self, bit_xor-zero, bit_xor_byte}
use zero_window.Crypto.Field.{TwoField}
use zero_window.Crypto.Gf256.{exp_at, log_at, gf_mul}
use zero_window.Crypto.Gf256.Powers.{exp_at_byte}
use zero_window.Crypto.Gf256.Laws.{
  exp_at_mod, gf_mul_byte, gf_mul_comm, gf_mul_assoc, gf_mul-one, gf_mul-inverse,
}
use zero_window.Crypto.Gf256.Linear.{gf_mul-bit_xor}

abbrev pub Byte : Type 0
Byte = (n : ℕ) × (n < 256)

pub Byte-ext : (a b : Byte) → a.0 ≡ b.0 → a ≡ b
Byte-ext a b e = Σ_prop_path (λ n. le_prop) e

pub exp_at_small : (i : ℕ) → i < 512 → exp_at i < 256
exp_at_small i small =
    subst (λ n. n < 256) (sym (exp_at_mod i small)) (exp_at_byte (i % 255) (omega arith))

abbrev pub byte_plus : Byte → Byte → Byte
byte_plus (a, sa) (b, sb) = (bit_xor a b, bit_xor_byte a b sa sb)

abbrev pub byte_times : Byte → Byte → Byte
byte_times (a, sa) (b, sb) = (gf_mul a b, gf_mul_byte a b sa sb)

abbrev pub byte_inverse : Byte → Byte
byte_inverse (a, sa) = (exp_at (255 - log_at a), exp_at_small (255 - log_at a) (omega arith))

abbrev pub byte_zero : Byte
byte_zero = (0, omega arith)

abbrev pub byte_one : Byte
byte_one = (1, omega arith)

pub byte_positive : (a : Byte) → a ≢ byte_zero → 0 < a.0
byte_positive (zero, sa) ne = absurd (ne (Byte-ext (0, sa) byte_zero refl))
byte_positive (suc a, sa) ne = omega arith

abbrev pub byte_field : TwoField Byte
byte_field = record {
  null = byte_zero;
  unit = byte_one;
  plus = byte_plus;
  times = byte_times;
  inverse = byte_inverse;
  plus_assoc = λ a b c. Byte-ext _ _ (bit_xor_assoc a.0 b.0 c.0);
  plus_comm = λ a b. Byte-ext _ _ (bit_xor_comm a.0 b.0);
  plus-null = λ a. Byte-ext _ _ (bit_xor-zero a.0);
  plus_self = λ a. Byte-ext _ _ (bit_xor_self a.0);
  times_assoc = λ a b c. Byte-ext _ _ (gf_mul_assoc a.0 b.0 c.0 a.1 b.1 c.1);
  times_comm = λ a b. Byte-ext _ _ (gf_mul_comm a.0 b.0 a.1 b.1);
  times-unit = λ a. Byte-ext _ _ (gf_mul-one a.0 a.1);
  times-plus = λ a b c. Byte-ext _ _ (gf_mul-bit_xor a.0 b.0 c.0 a.1 b.1 c.1);
  times-inverse = λ a ne. Byte-ext _ _ (gf_mul-inverse a.0 (byte_positive a ne) a.1);
  unit_ne-null = λ e. absurd (omega (arith, ap (λ (b : Byte). b.0) e));
}
