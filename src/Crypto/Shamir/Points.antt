-- ===== src/Crypto/Shamir/Points.antt =====
-- packages/crypto/src/shamir.ts: the arithmetic of a share set, carried over to the field of bytes
-- and to the abstract interpolation.
use Prim.Native.Nat.{bit_xor}
use zero_window.Prelude.{
  ℕ, suc, ◌+◌, ◌≤◌, ◌<◌, ◌≡◌, refl, sym, subst, length-append, ap, ap₂, ◌∙◌, ◌≢◌, true, false, List,
  [], ◌∷◌, ◌++◌, map, length, append_assoc, get_or, ◌==◌, ok, map_ok, arith,
}
use zero_window.Crypto.Xor.{bit_xor_comm, bit_xor_assoc, bit_xor-zero}
use zero_window.Crypto.Field.{
  TwoField, times_left_comm, unit-times, plus_ne-null, times_ne-null, times_cancel,
}
use zero_window.Prelude.Distinct.{Apart, AreDistinct, distinct_others}
use zero_window.Crypto.Field.Interpolation.{eval, weight, combined}
use zero_window.Crypto.Gf256.{gf_mul, gf_add, gf_poly_eval}
use zero_window.Crypto.Gf256.Laws.{gf_add-bit_xor, gf_mul_comm, gf_mul_byte, gf_div-gf_mul}
use zero_window.Crypto.Gf256.ByteField.{
  Byte, byte_plus, byte_times, byte_inverse, byte_zero, byte_one, byte_field, byte_positive,
}
use zero_window.Crypto.Share.{ShamirShare}
use zero_window.Crypto.Shamir.{basis_products, divided, lagrange, combined_byte}

module _ {A : Type 0} (field : TwoField A) where
  open field use {
    null, unit, plus, times, inverse, times_assoc, times_comm, times-unit, times-inverse,
  }

  inverse-times :
      (a b : A) → a ≢ null → b ≢ null → inverse (times a b) ≡ times (inverse a) (inverse b)
  inverse-times a b na nb = times_cancel field (times a b) _ _ (times_ne-null field a b na nb) (
      times-inverse (times a b) (times_ne-null field a b na nb)
      ∙ sym (
          simp (times_assoc, times_left_comm field b (inverse a)) refl
          ∙ ap (λ t. times a (times (inverse a) t)) (times-inverse b nb)
          ∙ ap (times a) (times-unit (inverse a))
          ∙ times-inverse a na))

  -- The two products that the code accumulates.
  abbrev pub numerators : A → List A → A
  numerators num [] = num
  numerators num (m ∷ ms) = numerators (times num m) ms

  abbrev pub denominators : A → A → List A → A
  denominators x den [] = den
  denominators x den (m ∷ ms) = denominators x (times den (plus m x)) ms

  pub denominators_ne-null :
      (x den : A) (ms : List A) → den ≢ null → Apart x ms → denominators x den ms ≢ null
  denominators_ne-null x den [] nd apart = nd
  denominators_ne-null x den (m ∷ ms) nd (ne, apart) =
      denominators_ne-null x (times den (plus m x)) ms
        (times_ne-null field den (plus m x) nd (plus_ne-null field m x (λ e. ne (sym e)))) apart

  pub numerators-denominators :
      (x num den : A) (ms : List A)
      → den ≢ null
      → Apart x ms
      → times (numerators num ms) (inverse (denominators x den ms))
        ≡ times (times num (inverse den)) (weight field ms x)
  numerators-denominators x num den [] nd apart = sym (times-unit _)
  numerators-denominators x num den (m ∷ ms) nd (ne, apart) =
      let nm = plus_ne-null field m x (λ e. ne (sym e)) in
      numerators-denominators x (times num m) (times den (plus m x)) ms
        (times_ne-null field den (plus m x) nd nm) apart
      ∙ ap (λ t. times (times (times num m) t) (weight field ms x))
          (inverse-times den (plus m x) nd nm)
      ∙ simp (times_assoc, times_left_comm field m (inverse den)) refl

abbrev pub indexes : List Byte → List ℕ
indexes xs = map (λ x. x.0) xs

-- A share before the one in question, or after it.
basis_before :
    (j m : ℕ) (x : Byte) (num den : Byte) (before rest : List Byte)
    → m + length before ≤ j
    → basis_products j x.0 m (num.0, den.0) (indexes (before ++ rest))
      ≡ basis_products j x.0
          (m + length before)
          ((numerators byte_field num before).0, (denominators byte_field x den before).0)
          (indexes rest)
basis_before j m x num den [] rest h =
    ap (λ k. basis_products j x.0 k (num.0, den.0) (indexes rest)) (omega arith)
basis_before j m x num den (y ∷ before) rest h =
    let other : (m == j) ≡ false = ground arith in
    let e : suc m + length before ≡ m + length (y ∷ before) = omega arith in
    let ih =
      basis_before j (suc m) x (byte_times num y) (byte_times den (byte_plus y x)) before rest
        (omega arith) in
    rw (other, ← e) ih

basis_after :
    (j m : ℕ) (x : Byte) (num den : Byte) (after : List Byte)
    → j < m
    → basis_products j x.0 m (num.0, den.0) (indexes after)
      ≡ ((numerators byte_field num after).0, (denominators byte_field x den after).0)
basis_after j m x num den [] h = refl
basis_after j m x num den (y ∷ after) h =
    let other : (m == j) ≡ false = ground arith in
    rw other (
      basis_after j (suc m) x (byte_times num y) (byte_times den (byte_plus y x)) after
        (omega arith))

module _ {A : Type 0} (field : TwoField A) where
  numerators-append :
      (num : A) (xs ys : List A)
      → numerators field (numerators field num xs) ys ≡ numerators field num (xs ++ ys)
  numerators-append num [] ys = refl
  numerators-append num (x ∷ xs) ys = numerators-append (field.times num x) xs ys

  denominators-append :
      (x den : A) (xs ys : List A)
      → denominators field x (denominators field x den xs) ys ≡ denominators field x den (xs ++ ys)
  denominators-append x den [] ys = refl
  denominators-append x den (m ∷ xs) ys =
      denominators-append x (field.times den (field.plus m x)) xs ys

byte_times_comm : (a b : Byte) → byte_times a b ≡ byte_times b a
byte_times_comm a b = byte_field.times_comm a b

-- The quotient of the two products is the weight of the point.
basis_weight :
    (before : List Byte) (x : Byte) (after : List Byte)
    → Apart x (before ++ after)
    → divided (basis_products (length before) x.0 0 (1, 1) (indexes (before ++ x ∷ after)))
      ≡ ok (weight byte_field (before ++ after) x).0
basis_weight before x after apart =
    let all = before ++ after in
    let num = numerators byte_field byte_one all in
    let den = denominators byte_field x byte_one all in
    let nd = denominators_ne-null byte_field x byte_one all byte_field.unit_ne-null apart in
    let here : (0 + length before == length before) ≡ true = ground arith in
    let num_before = numerators byte_field byte_one before in
    let den_before = denominators byte_field x byte_one before in
    let at_point : basis_products (length before) x.0 (0 + length before)
          (num_before.0, den_before.0) (indexes (x ∷ after))
        ≡ basis_products (length before) x.0 (suc (0 + length before)) (num_before.0, den_before.0)
            (indexes after) =
      rw here refl in
    let products : basis_products (length before) x.0 0 (1, 1) (indexes (before ++ x ∷ after))
        ≡ (num.0, den.0) =
      basis_before (length before) 0 x byte_one byte_one before (x ∷ after) (omega arith)
      ∙ at_point
      ∙ basis_after (length before) (suc (0 + length before)) x num_before den_before after
          (omega arith)
      ∙ ap₂ (λ (n d : Byte). (n.0, d.0)) (numerators-append byte_field byte_one before after)
          (denominators-append byte_field x byte_one before after) in
    let quotient : byte_times num (byte_inverse den) ≡ weight byte_field all x =
      numerators-denominators byte_field x byte_one byte_one all byte_field.unit_ne-null apart
      ∙ ap (λ t. byte_times t (weight byte_field all x))
          (byte_field.times-inverse byte_one byte_field.unit_ne-null)
      ∙ unit-times byte_field (weight byte_field all x) in
    ap divided products
    ∙ gf_div-gf_mul num.0 den.0 num.1 (byte_positive den nd) den.1
    ∙ ap (λ (b : Byte). ok b.0) quotient

abbrev pub weights : List Byte → List Byte → List ℕ
weights before [] = []
weights before (x ∷ after) =
    (weight byte_field (before ++ after) x).0 ∷ weights (before ++ x ∷ []) after

pub lagrange-weights :
    (all before after : List Byte)
    → before ++ after ≡ all
    → AreDistinct all
    → lagrange (indexes all) (length before) (indexes after) ≡ ok (weights before after)
lagrange-weights all before [] e distinct = refl
lagrange-weights all before (x ∷ after) e distinct =
    let w = (weight byte_field (before ++ after) x).0 in
    let apart = distinct_others before x after (subst AreDistinct (sym e) distinct) in
    let first : divided (basis_products (length before) x.0 0 (1, 1) (indexes all)) ≡ ok w =
      subst (λ t. divided (basis_products (length before) x.0 0 (1, 1) (indexes t)) ≡ ok w) e
        (basis_weight before x after apart) in
    let size : length (before ++ x ∷ []) ≡ suc (length before) =
      omega (arith, length-append before (x ∷ [])) in
    let ih =
      lagrange-weights all (before ++ x ∷ []) after (append_assoc before (x ∷ []) after ∙ e)
        distinct in
    rw first (
      ap (map_ok (◌∷◌ w)) (
        subst
          (λ k. lagrange (indexes all) k (indexes after) ≡ ok (weights (before ++ x ∷ []) after))
          size ih))

-- The value of a share set's byte is the interpolated sum.
pub combined_byte-weights :
    (share : Byte → ShamirShare) (f : Byte → Byte) (i b : ℕ)
    → ((x : Byte) → get_or (share x).y i 0 ≡ (f x).0)
    → (before after : List Byte)
    → combined_byte i b (map share after) (weights before after)
      ≡ bit_xor b (combined byte_field before f after).0
combined_byte-weights share f i b h before [] = sym (bit_xor-zero b)
combined_byte-weights share f i b h before (x ∷ after) =
    let w = weight byte_field (before ++ after) x in
    ap
      (λ v.
        combined_byte i (bit_xor b (gf_mul v w.0)) (map share after)
          (weights (before ++ x ∷ []) after))
      (h x)
    ∙ combined_byte-weights share f i (bit_xor b (byte_times (f x) w).0) h (before ++ x ∷ []) after
    ∙ bit_xor_assoc b _ _

-- Horner's scheme is Newton's form with all centres at zero.
abbrev pub horner : List Byte → List (Byte × Byte)
horner cs = map (λ c. (c, byte_zero)) cs

pub gf_poly_eval-eval :
    (cs : List Byte) (x : Byte) → gf_poly_eval (indexes cs) x.0 ≡ (eval byte_field (horner cs) x).0
unfolding gf_poly_eval
gf_poly_eval-eval [] x = refl
gf_poly_eval-eval (c ∷ cs) x =
    let rest = eval byte_field (horner cs) x in
    ap (λ p. gf_add (gf_mul p x.0) c.0) (gf_poly_eval-eval cs x)
    ∙ gf_add-bit_xor (gf_mul rest.0 x.0) c.0 (gf_mul_byte rest.0 x.0 rest.1 x.1) c.1
    ∙ bit_xor_comm (gf_mul rest.0 x.0) c.0
    ∙ ap (bit_xor c.0)
        (gf_mul_comm rest.0 x.0 rest.1 x.1 ∙ ap (λ t. gf_mul t rest.0) (sym (bit_xor-zero x.0)))
