-- ===== src/Crypto/Shamir/Checks.antt =====
-- packages/crypto/src/shamir.ts: what a split gives out, and that its shares pass the checks of
-- the combination.
use zero_window.Prelude.{
  ℕ, zero, suc, ◌+◌, ◌≤◌, ◌<◌, ◌≡◌, refl, ap, ap₂, length-map, ◌∙◌, true, false, Bytes, List, [],
  ◌∷◌, map, length, any, get_elem?, some, ltb, ◌==◌, ==_iff, equals_refl, ok, arith,
}
use zero_window.Crypto.Share.{ShamirShare}
use zero_window.Prelude.Distinct.{Apart, AreDistinct}
use zero_window.Crypto.Gf256.{gf_poly_eval}
use zero_window.Crypto.Gf256.ByteField.{Byte}
use zero_window.Crypto.Shamir.{coefficients, share_at, shares_from, shamir_split, check_shares}
use zero_window.Crypto.Shamir.Points.{indexes}

-- Each share of a list is one of the others.
abbrev pub AreAmong : List ShamirShare → List ShamirShare → Type 0
AreAmong shares [] = Unit
AreAmong shares (s ∷ given) = ((j : ℕ) × (get_elem? shares j ≡ some s)) × AreAmong shares given

abbrev pub x_of : ShamirShare → ℕ
x_of s = s.x

-- The test of the code, for each share still to come.
abbrev AreFresh : List ℕ → List Byte → Type 0
AreFresh seen [] = Unit
AreFresh seen (y ∷ ys) = (any (λ x. x == y.0) seen ≡ false) × AreFresh seen ys

AreFresh-cons :
    (x : Byte) (seen : List ℕ) (ys : List Byte)
    → Apart x.0 (indexes ys)
    → AreFresh seen ys
    → AreFresh (x.0 ∷ seen) ys
AreFresh-cons x seen [] apart fresh = tt
AreFresh-cons x seen (y ∷ ys) (ne, apart) (new, fresh) =
    let other : (x.0 == y.0) ≡ false = ground arith in
    (rw (other, new) refl, AreFresh-cons x seen ys apart fresh)

pub AreFresh-nil : (ys : List Byte) → AreFresh [] ys
AreFresh-nil [] = tt
AreFresh-nil (y ∷ ys) = (refl, AreFresh-nil ys)

abbrev pub ArePositive : List Byte → Type 0
ArePositive [] = Unit
ArePositive (x ∷ xs) = (0 < x.0) × ArePositive xs

module _ (set_id : Bytes) (t : ℕ) (rows : List Bytes) where
  abbrev pub share_of : Byte → ShamirShare
  share_of x = share_at set_id t rows x.0

  pub check_shares-share_of :
      (len : ℕ)
      → length rows ≡ len
      → (seen : List ℕ) (points : List Byte) → ArePositive points
      → AreDistinct (indexes points)
      → AreFresh seen points
      → check_shares set_id t len seen (map share_of points) ≡ ok tt
  check_shares-share_of len size seen [] positive distinct fresh = refl
  check_shares-share_of len size seen (x ∷ points) (px, positive) (apart, distinct) (new, fresh) =
      let same_id = equals_refl set_id in
      let same_t : (t == t) ≡ true = ground arith in
      let same_len : (length (map (λ coeffs. gf_poly_eval coeffs x.0) rows) == len) ≡ true =
        (==_iff _ _).1 (length-map _ rows ∙ size) in
      let small = x.1 in
      let low : ltb x.0 1 ≡ false = ground arith in
      let high : ltb 255 x.0 ≡ false = ground arith in
      rw (same_id, same_t, same_len, low, high, new)
        (check_shares-share_of len size (x.0 ∷ seen) points positive distinct
          (AreFresh-cons x seen points apart fresh))

  from_shares :
      (j n k : ℕ) (s : ShamirShare)
      → j + n < 256
      → get_elem? (shares_from set_id t rows j n) k ≡ some s
      → (x : Byte) × (0 < x.0) × (s ≡ share_of x)
  from_shares j zero k s fits h = cc
  from_shares j (suc n) zero s fits h = ((j + 1, omega arith), omega arith, cc)
  from_shares j (suc n) (suc k) s fits h = from_shares (suc j) n k s (omega arith) h

  -- The shares given are those of a list of points.
  pub points_of :
      (n : ℕ) (given : List ShamirShare)
      → n < 256
      → AreAmong (shares_from set_id t rows 0 n) given
      → (points : List Byte) × ArePositive points × (given ≡ map share_of points)
  points_of n [] fits among = ([], tt, refl)
  points_of n (s ∷ given) fits ((k, h), among) =
      let first = from_shares 0 n k s (omega arith) h in
      let rest = points_of n given fits among in
      (first.0 ∷ rest.0, (first.1, rest.1), ap₂ (λ a b. a ∷ b) first.2 rest.2)

  pub indexes-share_of : (points : List Byte) → map x_of (map share_of points) ≡ indexes points
  indexes-share_of [] = refl
  indexes-share_of (x ∷ points) = ap (◌∷◌ x.0) (indexes-share_of points)

pub distinct_indexes : (points : List Byte) → AreDistinct (indexes points) → AreDistinct points
distinct_indexes [] distinct = tt
distinct_indexes (x ∷ points) (apart, distinct) =
    (apart_indexes points apart, distinct_indexes points distinct)
  where
    apart_indexes : (ys : List Byte) → Apart x.0 (indexes ys) → Apart x ys
    apart_indexes [] h = tt
    apart_indexes (y ∷ ys) (ne, h) = (λ e. ne (ap (λ (b : Byte). b.0) e), apart_indexes ys h)

module _ (fill : ℕ → ℕ → Bytes) where
  pub shamir_split-ok :
      (secret : Bytes) (t n : ℕ) (shares : List ShamirShare)
      → shamir_split fill secret t n ≡ ok shares
      → (2 ≤ t)
        × (t ≤ n)
        × (n < 256)
        × (0 < length secret)
        × (shares ≡ shares_from (fill 0 8) t (coefficients fill t 1 secret) 0 n)
  unfolding shamir_split
  shamir_split-ok secret t n shares h = ground arith
