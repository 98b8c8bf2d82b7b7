-- ===== src/Crypto/Xor.antt =====
-- The exclusive or of numbers, JavaScript's `^` on numbers below 2 ^ 31.
use Prim.Native.Nat.{bit_xor, digits, differ, bit_xor-bitwise}
use native.Mathlib.Numerals.{unary_clauses}
use zero_window.Prelude.{
  ℕ, zero, suc, ◌+◌, ◌-◌, ◌*◌, ◌/◌, ◌%◌, ◌≤◌, ◌<◌, ◌≡◌, refl, sym, ap, ap₂, ◌∙◌, arith,
}

-- The recursion on binary digits that defines the exclusive or, with its fuel.
abbrev xor_digits : (fuel a b : ℕ) → ℕ
xor_digits = digits (λ y. y) differ

-- Fuel beyond the first number is spare.
xor_digits_spare :
    (more fuel a b : ℕ) → a ≤ fuel → xor_digits (more + fuel) a b ≡ xor_digits fuel a b
xor_digits_spare zero zero zero b enough = refl
xor_digits_spare (suc more) zero zero b enough = simp unary_clauses refl
xor_digits_spare more (suc fuel) zero b enough = simp unary_clauses refl
xor_digits_spare more zero (suc a) b enough = absurd (omega arith)
xor_digits_spare more (suc fuel) (suc a) b enough =
    let deeper = xor_digits_spare more fuel (suc a / 2) (b / 2) (omega arith) in
    simp (unary_clauses, deeper) refl

-- The next digits of a number take as much fuel as they need.
xor_digits_half : (a b : ℕ) → xor_digits a (suc a / 2) b ≡ bit_xor (suc a / 2) b
xor_digits_half a b =
    let h = suc a / 2 in
    let whole : (a - h) + h ≡ a = omega arith in
    ap (λ fuel. xor_digits fuel h b) (sym whole)
    ∙ xor_digits_spare (a - h) h h b (omega arith)
    ∙ sym (bit_xor-bitwise h b)

differ_cases : (x y : ℕ) → x < 2 → y < 2 → differ x y ≡ (x + y) % 2
differ_cases zero zero p q = refl
differ_cases zero (suc zero) p q = refl
differ_cases (suc zero) zero p q = refl
differ_cases (suc zero) (suc zero) p q = refl
differ_cases x (suc (suc y)) p q = absurd (omega arith)
differ_cases (suc (suc x)) y p q = absurd (omega arith)

-- The lowest digit, and the others.
pub bit_xor_step : (a b : ℕ) → bit_xor a b ≡ bit_xor (a / 2) (b / 2) * 2 + (a + b) % 2
bit_xor_step zero b = simp bit_xor-bitwise (omega arith)
bit_xor_step (suc a) b = omega (
  arith,
  differ_cases (suc a % 2) (b % 2) (omega arith) (omega arith),
  bit_xor-bitwise (suc a) b,
  xor_digits_half a (b / 2),
)

pub bit_xor-half : (a b : ℕ) → bit_xor a b / 2 ≡ bit_xor (a / 2) (b / 2)
bit_xor-half a b = omega (arith, bit_xor_step a b)

bit_xor-parity : (a b : ℕ) → bit_xor a b % 2 ≡ (a + b) % 2
bit_xor-parity a b = omega (arith, bit_xor_step a b)

pub zero-bit_xor : (b : ℕ) → bit_xor 0 b ≡ b
zero-bit_xor b = bit_xor-bitwise 0 b

bit_xor_zero_fuel : (n a : ℕ) → a ≤ n → bit_xor a 0 ≡ a
bit_xor_zero_fuel n zero h = refl
bit_xor_zero_fuel zero (suc a) h = absurd (omega arith)
bit_xor_zero_fuel (suc n) (suc a) h =
    omega (arith, bit_xor_step (suc a) 0, bit_xor_zero_fuel n (suc a / 2) (omega arith))

pub bit_xor-zero : (a : ℕ) → bit_xor a 0 ≡ a
bit_xor-zero a = bit_xor_zero_fuel a a (omega arith)

bit_xor_self_fuel : (n a : ℕ) → a ≤ n → bit_xor a a ≡ 0
bit_xor_self_fuel n zero h = refl
bit_xor_self_fuel zero (suc a) h = absurd (omega arith)
bit_xor_self_fuel (suc n) (suc a) h =
    omega (arith, bit_xor_step (suc a) (suc a), bit_xor_self_fuel n (suc a / 2) (omega arith))

pub bit_xor_self : (a : ℕ) → bit_xor a a ≡ 0
bit_xor_self a = bit_xor_self_fuel a a (omega arith)

bit_xor_comm_fuel : (n a b : ℕ) → a ≤ n → bit_xor a b ≡ bit_xor b a
bit_xor_comm_fuel n zero b h = zero-bit_xor b ∙ sym (bit_xor-zero b)
bit_xor_comm_fuel zero (suc a) b h = absurd (omega arith)
bit_xor_comm_fuel (suc n) (suc a) b h = omega (
  arith,
  bit_xor_step (suc a) b,
  bit_xor_step b (suc a),
  bit_xor_comm_fuel n (suc a / 2) (b / 2) (omega arith),
)

pub bit_xor_comm : (a b : ℕ) → bit_xor a b ≡ bit_xor b a
bit_xor_comm a b = bit_xor_comm_fuel a a b (omega arith)

bit_xor_assoc_fuel : (n a b c : ℕ) → a ≤ n → bit_xor (bit_xor a b) c ≡ bit_xor a (bit_xor b c)
bit_xor_assoc_fuel n zero b c h =
    ap (λ t. bit_xor t c) (zero-bit_xor b) ∙ sym (zero-bit_xor (bit_xor b c))
bit_xor_assoc_fuel zero (suc a) b c h = absurd (omega arith)
bit_xor_assoc_fuel (suc n) (suc a) b c h =
    let ih = bit_xor_assoc_fuel n (suc a / 2) (b / 2) (c / 2) (omega arith) in
    let left : bit_xor (bit_xor (suc a) b / 2) (c / 2)
        ≡ bit_xor (bit_xor (suc a / 2) (b / 2)) (c / 2) =
      ap (λ t. bit_xor t (c / 2)) (bit_xor-half (suc a) b) in
    let right : bit_xor (suc a / 2) (bit_xor b c / 2)
        ≡ bit_xor (suc a / 2) (bit_xor (b / 2) (c / 2)) =
      ap (bit_xor (suc a / 2)) (bit_xor-half b c) in
    omega (
      arith,
      ih,
      left,
      right,
      bit_xor_step (bit_xor (suc a) b) c,
      bit_xor_step (suc a) (bit_xor b c),
      bit_xor-parity (suc a) b,
      bit_xor-parity b c,
    )

pub bit_xor_assoc : (a b c : ℕ) → bit_xor (bit_xor a b) c ≡ bit_xor a (bit_xor b c)
bit_xor_assoc a b c = bit_xor_assoc_fuel a a b c (omega arith)

bit_xor_grows :
    (n : ℕ)
    → ((a b : ℕ) → a < n → b < n → bit_xor a b < n)
    → (a b : ℕ) → a < n * 2
    → b < n * 2
    → bit_xor a b < n * 2
bit_xor_grows n h a b p q =
    omega (arith, bit_xor_step a b, h (a / 2) (b / 2) (omega arith) (omega arith))

bit_xor_digit : (a b : ℕ) → a < 1 → b < 1 → bit_xor a b < 1
bit_xor_digit zero zero p q = omega arith
bit_xor_digit (suc a) b p q = absurd (omega arith)
bit_xor_digit a (suc b) p q = absurd (omega arith)

pub bit_xor_byte : (a b : ℕ) → a < 256 → b < 256 → bit_xor a b < 256
bit_xor_byte = bit_xor_grows 128 (
    bit_xor_grows 64 (
      bit_xor_grows 32 (
        bit_xor_grows 16
          (bit_xor_grows 8 (bit_xor_grows 4 (bit_xor_grows 2 (bit_xor_grows 1 bit_xor_digit)))))))

pub bit_xor-double : (a b : ℕ) → bit_xor (a * 2) (b * 2) ≡ bit_xor a b * 2
bit_xor-double a b =
    let halves : bit_xor (a * 2 / 2) (b * 2 / 2) ≡ bit_xor a b =
      ap₂ bit_xor (omega arith) (omega arith) in
    omega (arith, halves, bit_xor_step (a * 2) (b * 2))

bit_xor_shift :
    (n a b : ℕ)
    → ((k : ℕ) → k / n / 2 ≡ k / (n * 2))
    → bit_xor a b / n ≡ bit_xor (a / n) (b / n)
    → bit_xor a b / (n * 2) ≡ bit_xor (a / (n * 2)) (b / (n * 2))
bit_xor_shift n a b split h =
    sym (split (bit_xor a b))
    ∙ ap (λ t. t / 2) h
    ∙ bit_xor-half (a / n) (b / n)
    ∙ ap₂ bit_xor (split a) (split b)

-- The top bit of a byte.
pub bit_xor-top : (a b : ℕ) → bit_xor a b / 128 ≡ bit_xor (a / 128) (b / 128)
bit_xor-top a b =
    bit_xor_shift 64 a b (λ k. omega arith)
      (bit_xor_shift 32 a b (λ k. omega arith)
        (bit_xor_shift 16 a b (λ k. omega arith)
          (bit_xor_shift 8 a b (λ k. omega arith)
            (bit_xor_shift 4 a b (λ k. omega arith)
              (bit_xor_shift 2 a b (λ k. omega arith) (bit_xor-half a b))))))
