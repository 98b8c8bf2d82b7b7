-- ===== src/Crypto/Gf256/Linear.antt =====
-- packages/crypto/src/gf256.ts: multiplication distributes over addition.
use Prim.Native.Nat.{bit_xor}
use zero_window.Prelude.{
  ℕ, zero, suc, ◌+◌, ◌/◌, ◌%◌, ◌<◌, ◌≡◌, refl, sym, ap, ap₂, subst, ◌∙◌, arith,
}
use zero_window.Crypto.Xor.{bit_xor_assoc, bit_xor_comm, bit_xor_byte, bit_xor-double, bit_xor-top}
use zero_window.Crypto.Gf256.{next_power, log_at, gf_mul}
use zero_window.Crypto.Gf256.Laws.{
  power, power_byte, power_log, power_cong, exp_at_mod, zero-gf_mul, gf_mul-zero, gf_mul-power,
}
use zero_window.Crypto.Gf256.Powers.{reduction, exp_at_step, next_power-bit_xor}

-- A product with a byte that is not zero multiplies by the generator as often as its logarithm
-- says.
abbrev scaled : ℕ → ℕ → ℕ
scaled zero b = b
scaled (suc i) b = next_power (scaled i b)

scaled-power : (i b : ℕ) → 0 < b → b < 256 → scaled i b ≡ power (i + log_at b)
scaled-power zero b pb sb = sym (power_log b pb sb) ∙ ap power (omega arith)
scaled-power (suc i) b pb sb =
    ap next_power (scaled-power i b pb sb)
    ∙ sym (exp_at_step ((i + log_at b) % 255) (omega arith))
    ∙ exp_at_mod _ (omega arith)
    ∙ power_cong ((i + log_at b) % 255 + 1) (suc i + log_at b) (omega arith)

scaled_zero : (i : ℕ) → scaled i 0 ≡ 0
scaled_zero zero = refl
scaled_zero (suc i) = ap next_power (scaled_zero i)

gf_mul-scaled : (a b : ℕ) → 0 < a → a < 256 → b < 256 → gf_mul a b ≡ scaled (log_at a) b
gf_mul-scaled a zero pa sa sb = gf_mul-zero a ∙ sym (scaled_zero (log_at a))
gf_mul-scaled a (suc b) pa sa sb =
    gf_mul-power a (suc b) pa sa (omega arith) sb
    ∙ sym (scaled-power (log_at a) (suc b) (omega arith) sb)

scaled_byte : (i b : ℕ) → b < 256 → scaled i b < 256
scaled_byte i zero sb = subst (λ n. n < 256) (sym (scaled_zero i)) (omega arith)
scaled_byte i (suc b) sb =
    subst (λ n. n < 256) (sym (scaled-power i (suc b) (omega arith) sb)) (power_byte _)

reduction-bit_xor :
    (s t : ℕ) → s < 2 → t < 2 → reduction (bit_xor s t) ≡ bit_xor (reduction s) (reduction t)
reduction-bit_xor zero zero p q = refl
reduction-bit_xor zero (suc zero) p q = refl
reduction-bit_xor (suc zero) zero p q = refl
reduction-bit_xor (suc zero) (suc zero) p q = refl
reduction-bit_xor (suc (suc s)) t p q = absurd (omega arith)
reduction-bit_xor s (suc (suc t)) p q = absurd (omega arith)

bit_xor_left_comm : (a b c : ℕ) → bit_xor a (bit_xor b c) ≡ bit_xor b (bit_xor a c)
bit_xor_left_comm a b c =
    sym (bit_xor_assoc a b c) ∙ ap (λ t. bit_xor t c) (bit_xor_comm a b) ∙ bit_xor_assoc b a c

next_power-bit_xor_sum :
    (b c : ℕ) → b < 256 → c < 256 → next_power (bit_xor b c) ≡ bit_xor (next_power b) (next_power c)
next_power-bit_xor_sum b c sb sc =
    let top : reduction (bit_xor b c / 128) ≡ bit_xor (reduction (b / 128)) (reduction (c / 128)) =
      ap reduction (bit_xor-top b c)
      ∙ reduction-bit_xor (b / 128) (c / 128) (omega arith) (omega arith) in
    next_power-bit_xor (bit_xor b c) (bit_xor_byte b c sb sc)
    ∙ ap₂ (λ d r. bit_xor (bit_xor d r) (bit_xor b c)) (sym (bit_xor-double b c)) top
    ∙ simp (bit_xor_assoc, bit_xor_comm, bit_xor_left_comm) refl
    ∙ sym (ap₂ bit_xor (next_power-bit_xor b sb) (next_power-bit_xor c sc))

scaled-bit_xor :
    (i b c : ℕ) → b < 256 → c < 256 → scaled i (bit_xor b c) ≡ bit_xor (scaled i b) (scaled i c)
scaled-bit_xor zero b c sb sc = refl
scaled-bit_xor (suc i) b c sb sc =
    ap next_power (scaled-bit_xor i b c sb sc)
    ∙ next_power-bit_xor_sum (scaled i b) (scaled i c) (scaled_byte i b sb) (scaled_byte i c sc)

pub gf_mul-bit_xor :
    (a b c : ℕ)
    → a < 256
    → b < 256
    → c < 256
    → gf_mul a (bit_xor b c) ≡ bit_xor (gf_mul a b) (gf_mul a c)
gf_mul-bit_xor zero b c sa sb sc = zero-gf_mul _ ∙ sym (ap₂ bit_xor (zero-gf_mul b) (zero-gf_mul c))
gf_mul-bit_xor (suc a) b c sa sb sc =
    let pa : 0 < suc a = omega arith in
    gf_mul-scaled (suc a) (bit_xor b c) pa sa (bit_xor_byte b c sb sc)
    ∙ scaled-bit_xor (log_at (suc a)) b c sb sc
    ∙ sym (ap₂ bit_xor (gf_mul-scaled (suc a) b pa sa sb) (gf_mul-scaled (suc a) c pa sa sc))
