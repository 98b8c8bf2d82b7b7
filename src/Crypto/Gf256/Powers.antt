-- ===== src/Crypto/Gf256/Powers.antt =====
-- packages/crypto/src/gf256.ts: what the tables hold, entry by entry.
use Prim.Native.Nat.{bit_xor, bit_and}
use zero_window.Prelude.{
  ℕ, zero, suc, ◌+◌, ◌*◌, ◌/◌, ◌<◌, ◌≡◌, refl, Bool, Bool-cases, true, false, ◌⊎◌, inl, inr, sym,
  subst, if◌then◌else◌, ◌&&◌, ◌||◌, ltb, ◌==◌, ==_iff, arith,
}
use zero_window.Crypto.Gf256.{next_power, exp_at, log_at}

-- Whether a test holds of the n numbers from 0 on, the largest tried first.
unfoldable pub holds_below : (test : ℕ → Bool) → ℕ → Bool
holds_below test zero = true
holds_below test (suc k) = if test k then holds_below test k else false

pub holds_below-at :
    (test : ℕ → Bool) (bound : ℕ)
    → holds_below test bound ≡ true
    → {i : ℕ} → i < bound
    → test i ≡ true
unfolding holds_below
holds_below-at test zero all small = absurd (omega arith)
holds_below-at test (suc k) all {i} small =
    let later : ((i ≡ k) ⊎ (i < k)) = ground arith in
    elim (Bool-cases (test k)) [
      | inr fails ↦ let refused = rw fails at all in cc
      | inl holds ↦ elim later [
        | inl same ↦ subst (λ m. test m ≡ true) (sym same) holds
        | inr less ↦ holds_below-at test k (rw holds at all) less
      ]
    ]

logs_table : holds_below (λ x. x == 0 || (exp_at (log_at x) == x && ltb (log_at x) 255)) 256 ≡ true
unfolding holds_below exp_at log_at
logs_table = refl

powers_table :
    holds_below (λ i. log_at (exp_at i) == i && ltb 0 (exp_at i) && ltb (exp_at i) 256) 255 ≡ true
unfolding holds_below exp_at log_at
powers_table = refl

repeated_table : holds_below (λ i. exp_at (i + 255) == exp_at i) 257 ≡ true
unfolding holds_below exp_at
repeated_table = refl

steps_table : holds_below (λ i. exp_at (i + 1) == next_power (exp_at i)) 255 ≡ true
unfolding holds_below exp_at
steps_table = refl

-- What is added for the bit that doubling a byte shifts out.
abbrev pub reduction : ℕ → ℕ
reduction zero = 0
reduction (suc t) = 283

next_table :
    holds_below (λ x. next_power x == bit_xor (bit_xor (x * 2) (reduction (x / 128))) x) 256 ≡ true
unfolding holds_below
next_table = refl

mask_table : holds_below (λ x. bit_and x 255 == x) 256 ≡ true
unfolding holds_below
mask_table = refl

pub exp_at-log_at : (x : ℕ) → 0 < x → x < 256 → exp_at (log_at x) ≡ x
exp_at-log_at x positive small = ground (arith, holds_below-at _ 256 logs_table small)

pub log_at_bound : (x : ℕ) → 0 < x → x < 256 → log_at x < 255
log_at_bound x positive small = ground (arith, holds_below-at _ 256 logs_table small)

pub log_at-exp_at : (i : ℕ) → i < 255 → log_at (exp_at i) ≡ i
log_at-exp_at i small = ground (arith, holds_below-at _ 255 powers_table small)

pub exp_at_positive : (i : ℕ) → i < 255 → 0 < exp_at i
exp_at_positive i small = ground (arith, holds_below-at _ 255 powers_table small)

pub exp_at_byte : (i : ℕ) → i < 255 → exp_at i < 256
exp_at_byte i small = ground (arith, holds_below-at _ 255 powers_table small)

pub exp_at_repeated : (i : ℕ) → i < 257 → exp_at (i + 255) ≡ exp_at i
exp_at_repeated i small = ground (arith, holds_below-at _ 257 repeated_table small)

pub exp_at_step : (i : ℕ) → i < 255 → exp_at (i + 1) ≡ next_power (exp_at i)
exp_at_step i small = ground (arith, holds_below-at _ 255 steps_table small)

pub next_power-bit_xor :
    (x : ℕ) → x < 256 → next_power x ≡ bit_xor (bit_xor (x * 2) (reduction (x / 128))) x
next_power-bit_xor x small = (==_iff _ _).0 (holds_below-at _ 256 next_table small)

pub bit_and_byte : (x : ℕ) → x < 256 → bit_and x 255 ≡ x
bit_and_byte x small = (==_iff _ _).0 (holds_below-at _ 256 mask_table small)
