-- ===== src/Crypto/Gf256/Reference.antt =====
-- packages/crypto/src/gf256.ts: the product by tables against the textbook one, the product of
-- polynomials over two elements modulo x^8 + x^4 + x^3 + x + 1.
use Prim.Native.Nat.{bit_xor}
use native.Mathlib.Nat.{pow-suc}
use zero_window.Prelude.{
  ℕ, zero, suc, ◌*◌, ◌/◌, ◌%◌, ◌^◌, ◌<◌, ◌≡◌, refl, sym, ap, ap₂, subst, ◌∙◌, true, ltb, ◌==◌,
  ==_iff, if◌then◌else◌, arith, ◌⊎◌, inl, inr,
}
use zero_window.Crypto.Xor.{bit_xor_step, zero-bit_xor}
use zero_window.Crypto.Gf256.{exp_at, log_at, gf_mul}
use zero_window.Crypto.Gf256.Powers.{holds_below, holds_below-at}
use zero_window.Crypto.Gf256.Laws.{gf_mul_comm, gf_mul_assoc, gf_mul_byte, gf_mul-one, zero-gf_mul}
use zero_window.Crypto.Gf256.Linear.{gf_mul-bit_xor}

-- Multiplies by x, and reduces.
abbrev pub times_x : ℕ → ℕ
times_x b = if ltb b 128 then b * 2 else bit_xor (b * 2) 283

-- Shift and add: the digits of the first factor, lowest first, with n of them to go.
abbrev pub reference_mul : ℕ → ℕ → ℕ → ℕ
reference_mul zero a b = 0
reference_mul (suc n) a b =
    bit_xor (if a % 2 == 0 then 0 else b) (reference_mul n (a / 2) (times_x b))

times_x_table : holds_below (λ b. gf_mul 2 b == times_x b) 256 ≡ true
unfolding holds_below gf_mul exp_at log_at
times_x_table = refl

gf_mul_two : (b : ℕ) → b < 256 → gf_mul 2 b ≡ times_x b
gf_mul_two b small =
    (==_iff _ _).0 (holds_below-at (λ b. gf_mul 2 b == times_x b) 256 times_x_table small)

times_x_byte : (b : ℕ) → b < 256 → times_x b < 256
times_x_byte b small =
    subst (λ n. n < 256) (gf_mul_two b small) (gf_mul_byte 2 b (omega arith) small)

gf_mul_double : (h : ℕ) → h < 128 → gf_mul 2 h ≡ h * 2
gf_mul_double h small =
    let low : ltb h 128 ≡ true = ground arith in gf_mul_two h (omega arith) ∙ rw low refl

digit_cases : (a : ℕ) → (a % 2 ≡ 0) ⊎ (a % 2 ≡ 1)
digit_cases a = ground arith

-- A number is its lowest digit added to the others.
split_digits : (a : ℕ) → bit_xor (a % 2) (a / 2 * 2) ≡ a
split_digits a =
    let none_left : bit_xor (a % 2 / 2) (a / 2 * 2 / 2) ≡ a / 2 =
      ap₂ bit_xor (omega arith) (omega arith) ∙ zero-bit_xor (a / 2) in
    omega (arith, bit_xor_step (a % 2) (a / 2 * 2), none_left)

gf_mul_digit : (a b : ℕ) → b < 256 → gf_mul (a % 2) b ≡ (if a % 2 == 0 then 0 else b)
gf_mul_digit a b small = elim (digit_cases a) [
  | inl even ↦ rw even (zero-gf_mul b)
  | inr odd ↦ rw odd (gf_mul_comm 1 b (omega arith) small ∙ gf_mul-one b small)
]

gf_mul_fuel : (n a b : ℕ) → a < 2 ^ n → a < 256 → b < 256 → gf_mul a b ≡ reference_mul n a b
gf_mul_fuel zero a b few sa sb =
    let e : a ≡ 0 = omega arith in subst (λ n. gf_mul n b ≡ 0) (sym e) (zero-gf_mul b)
gf_mul_fuel (suc n) a b few sa sb =
    let h = a / 2 in
    let twice : gf_mul (h * 2) b ≡ gf_mul h (times_x b) =
      ap (λ t. gf_mul t b)
        (sym (gf_mul_double h (omega arith)) ∙ gf_mul_comm 2 h (omega arith) (omega arith))
      ∙ gf_mul_assoc h 2 b (omega arith) (omega arith) sb
      ∙ ap (gf_mul h) (gf_mul_two b sb) in
    let whole : gf_mul a b ≡ bit_xor (gf_mul (a % 2) b) (gf_mul (h * 2) b) =
      gf_mul_comm a b sa sb
      ∙ ap (gf_mul b) (sym (split_digits a))
      ∙ gf_mul-bit_xor b (a % 2) (h * 2) sb (omega arith) (omega arith)
      ∙ ap₂ bit_xor (gf_mul_comm b (a % 2) sb (omega arith))
          (gf_mul_comm b (h * 2) sb (omega arith)) in
    whole
    ∙ ap₂ bit_xor (gf_mul_digit a b sb) (
        twice
        ∙ gf_mul_fuel n h (times_x b) (omega (arith, pow-suc 2 n)) (omega arith)
            (times_x_byte b sb))

-- On bytes, gf_mul is the product of polynomials over two elements modulo
-- x^8 + x^4 + x^3 + x + 1, computed digit by digit.
pub gf_mul-reference_mul : (a b : ℕ) → a < 256 → b < 256 → gf_mul a b ≡ reference_mul 8 a b
gf_mul-reference_mul a b sa sb = gf_mul_fuel 8 a b sa sa sb
