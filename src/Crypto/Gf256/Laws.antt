-- ===== src/Crypto/Gf256/Laws.antt =====
-- packages/crypto/src/gf256.ts: the arithmetic of the tables is that of a field.
use Prim.Native.Nat.{bit_xor}
use native.Mathlib.Nat.{mod-eq_of_lt}
use zero_window.Prelude.{
  ℕ, zero, suc, ◌+◌, ◌-◌, ◌%◌, ◌≤◌, ◌<◌, ◌≡◌, refl, sym, ap, subst, ◌∙◌, ◌⊎◌, inl, inr, ok, false,
  ◌==◌, arith,
}
use zero_window.Crypto.Xor.{bit_xor_byte}
use zero_window.Crypto.Gf256.{exp_at, log_at, gf_mul, gf_div, gf_add}
use zero_window.Crypto.Gf256.Powers.{
  exp_at-log_at, log_at_bound, log_at-exp_at, exp_at_positive, exp_at_byte, exp_at_repeated,
  bit_and_byte,
}

lt_cases : (a b : ℕ) → (a < b) ⊎ (b ≤ a)
lt_cases a b = ground arith

exp_at_lower : (i : ℕ) → 255 ≤ i → i < 512 → exp_at i ≡ exp_at (i - 255)
exp_at_lower i large small =
    subst (λ k. exp_at k ≡ exp_at (i - 255)) (omega arith) (exp_at_repeated (i - 255) (omega arith))

pub exp_at_mod : (i : ℕ) → i < 512 → exp_at i ≡ exp_at (i % 255)
exp_at_mod i small = elim (lt_cases i 255) [
  | inl low ↦ ap exp_at (omega arith)
  | inr large ↦ elim (lt_cases i 510) [
    | inl middle ↦ exp_at_lower i large small ∙ ap exp_at (omega arith)
    | inr high ↦
        exp_at_lower i large small
        ∙ exp_at_lower (i - 255) (omega arith) (omega arith)
        ∙ ap exp_at (omega arith)
  ]
]

-- The powers of the generator, by exponents modulo 255.
abbrev pub power : ℕ → ℕ
power i = exp_at (i % 255)

power_positive : (i : ℕ) → 0 < power i
power_positive i = exp_at_positive (i % 255) (omega arith)

pub power_byte : (i : ℕ) → power i < 256
power_byte i = exp_at_byte (i % 255) (omega arith)

pub power_log : (x : ℕ) → 0 < x → x < 256 → power (log_at x) ≡ x
power_log x positive small =
    ap exp_at (mod-eq_of_lt (log_at_bound x positive small)) ∙ exp_at-log_at x positive small

log-power : (i : ℕ) → log_at (power i) ≡ i % 255
log-power i = log_at-exp_at (i % 255) (omega arith)

pub power_cong : (i j : ℕ) → i % 255 ≡ j % 255 → power i ≡ power j
power_cong i j e = ap exp_at e

module _ (a b : ℕ) (pa : 0 < a) (sa : a < 256) (pb : 0 < b) (sb : b < 256) where
  pub gf_mul-power : gf_mul a b ≡ power (log_at a + log_at b)
  unfolding gf_mul
  gf_mul-power =
      let na : (a == 0) ≡ false = ground arith in
      let nb : (b == 0) ≡ false = ground arith in
      let la = log_at_bound a pa sa in
      let lb = log_at_bound b pb sb in rw (na, nb) (exp_at_mod (log_at a + log_at b) (omega arith))

  pub gf_mul_positive : 0 < gf_mul a b
  gf_mul_positive = subst (λ n. 0 < n) (sym gf_mul-power) (power_positive (log_at a + log_at b))

  log-gf_mul : log_at (gf_mul a b) ≡ (log_at a + log_at b) % 255
  log-gf_mul = ap log_at gf_mul-power ∙ log-power (log_at a + log_at b)

pub zero-gf_mul : (b : ℕ) → gf_mul 0 b ≡ 0
unfolding gf_mul
zero-gf_mul b = refl

pub gf_mul-zero : (a : ℕ) → gf_mul a 0 ≡ 0
unfolding gf_mul
gf_mul-zero a = ground arith

pub gf_mul_byte : (a b : ℕ) → a < 256 → b < 256 → gf_mul a b < 256
gf_mul_byte zero b sa sb = subst (λ n. n < 256) (sym (zero-gf_mul b)) (omega arith)
gf_mul_byte (suc a) zero sa sb = subst (λ n. n < 256) (sym (gf_mul-zero (suc a))) (omega arith)
gf_mul_byte (suc a) (suc b) sa sb =
    subst (λ n. n < 256) (sym (gf_mul-power (suc a) (suc b) (omega arith) sa (omega arith) sb))
      (power_byte _)

pub gf_mul_comm : (a b : ℕ) → a < 256 → b < 256 → gf_mul a b ≡ gf_mul b a
gf_mul_comm zero b sa sb = zero-gf_mul b ∙ sym (gf_mul-zero b)
gf_mul_comm (suc a) zero sa sb = gf_mul-zero (suc a) ∙ sym (zero-gf_mul (suc a))
gf_mul_comm (suc a) (suc b) sa sb =
    gf_mul-power (suc a) (suc b) (omega arith) sa (omega arith) sb
    ∙ ap power (omega arith)
    ∙ sym (gf_mul-power (suc b) (suc a) (omega arith) sb (omega arith) sa)

pub gf_mul_assoc :
    (a b c : ℕ) → a < 256 → b < 256 → c < 256 → gf_mul (gf_mul a b) c ≡ gf_mul a (gf_mul b c)
gf_mul_assoc zero b c sa sb sc =
    ap (λ t. gf_mul t c) (zero-gf_mul b) ∙ zero-gf_mul c ∙ sym (zero-gf_mul _)
gf_mul_assoc (suc a) zero c sa sb sc =
    ap (λ t. gf_mul t c) (gf_mul-zero (suc a))
    ∙ zero-gf_mul c
    ∙ sym (ap (gf_mul (suc a)) (zero-gf_mul c) ∙ gf_mul-zero (suc a))
gf_mul_assoc (suc a) (suc b) zero sa sb sc =
    gf_mul-zero _ ∙ sym (gf_mul-zero (suc a)) ∙ ap (gf_mul (suc a)) (sym (gf_mul-zero (suc b)))
gf_mul_assoc (suc a) (suc b) (suc c) sa sb sc =
    let pa : 0 < suc a = omega arith in
    let pb : 0 < suc b = omega arith in
    let pc : 0 < suc c = omega arith in
    let ab = gf_mul_byte (suc a) (suc b) sa sb in
    let bc = gf_mul_byte (suc b) (suc c) sb sc in
    let left = log-gf_mul (suc a) (suc b) pa sa pb sb in
    let right = log-gf_mul (suc b) (suc c) pb sb pc sc in
    gf_mul-power (gf_mul (suc a) (suc b)) (suc c) (gf_mul_positive (suc a) (suc b) pa sa pb sb) ab
      pc sc
    ∙ power_cong (log_at (gf_mul (suc a) (suc b)) + log_at (suc c))
        (log_at (suc a) + log_at (gf_mul (suc b) (suc c))) (omega arith)
    ∙ sym (
        gf_mul-power (suc a) (gf_mul (suc b) (suc c)) pa sa
          (gf_mul_positive (suc b) (suc c) pb sb pc sc) bc)

log_at-one : log_at 1 ≡ 0
unfolding log_at
log_at-one = refl

pub gf_mul-one : (a : ℕ) → a < 256 → gf_mul a 1 ≡ a
gf_mul-one zero sa = zero-gf_mul 1
gf_mul-one (suc a) sa =
    gf_mul-power (suc a) 1 (omega arith) sa (omega arith) (omega arith)
    ∙ ap power (omega (arith, log_at-one))
    ∙ power_log (suc a) (omega arith) sa

exp_at-zero : exp_at 0 ≡ 1
unfolding exp_at
exp_at-zero = refl

pub gf_mul-inverse : (a : ℕ) → 0 < a → a < 256 → gf_mul a (exp_at (255 - log_at a)) ≡ 1
gf_mul-inverse a pa sa =
    let la = log_at_bound a pa sa in
    let k = 255 - log_at a in
    let e : exp_at k ≡ power k = exp_at_mod k (omega arith) in
    ap (gf_mul a) e
    ∙ gf_mul-power a (power k) pa sa (power_positive k) (power_byte k)
    ∙ power_cong (log_at a + log_at (power k)) 0 (omega (arith, log-power k))
    ∙ exp_at-zero

pub gf_add-bit_xor : (a b : ℕ) → a < 256 → b < 256 → gf_add a b ≡ bit_xor a b
unfolding gf_add
gf_add-bit_xor a b sa sb = bit_and_byte (bit_xor a b) (bit_xor_byte a b sa sb)

exponent_sub : (x y e : ℕ) → y < 255 → e ≡ (255 - y) % 255 → (x + 255 - y) % 255 ≡ (x + e) % 255
exponent_sub x y e small h = omega arith

-- A quotient by a byte that is not zero is the product with its inverse.
pub gf_div-gf_mul :
    (a b : ℕ) → a < 256 → 0 < b → b < 256 → gf_div a b ≡ ok (gf_mul a (exp_at (255 - log_at b)))
unfolding gf_div
gf_div-gf_mul zero b sa pb sb =
    let nb : (b == 0) ≡ false = ground arith in rw nb (ap ok (sym (zero-gf_mul _)))
gf_div-gf_mul (suc a) b sa pb sb =
    let pa : 0 < suc a = omega arith in
    let na : (suc a == 0) ≡ false = ground arith in
    let nb : (b == 0) ≡ false = ground arith in
    let lb = log_at_bound b pb sb in
    let k = 255 - log_at b in
    let e : exp_at k ≡ power k = exp_at_mod k (omega arith) in
    let small = subst (λ n. n < 256) (sym e) (power_byte k) in
    let positive = subst (λ n. 0 < n) (sym e) (power_positive k) in
    let l : log_at (exp_at k) ≡ k % 255 = ap log_at e ∙ log-power k in
    rw (nb, na)
      (ap ok (
        power_cong (log_at (suc a) + 255 - log_at b) (log_at (suc a) + log_at (exp_at k))
          (exponent_sub (log_at (suc a)) (log_at b) (log_at (exp_at k)) lb l)
        ∙ sym (gf_mul-power (suc a) (exp_at k) pa sa positive small)))
