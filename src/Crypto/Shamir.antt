-- ===== src/Crypto/Shamir.antt =====
-- packages/crypto/src/shamir.ts: splitting a secret into shares, and combining shares. The random
-- bytes are a parameter. Where the code writes one byte of all the shares after another, the
-- shares are written here one after another.
pub mod Points
pub mod Checks
pub mod RoundTrip
use Prim.Native.Nat.{bit_xor}
use zero_window.Prelude.{
  ℕ, zero, suc, ◌+◌, ◌≤◌, ◌<◌, ◌≡◌, Bool, true, false, not, ◌||◌, Bytes, Option, none, some, List,
  [], ◌∷◌, map, length, take, set, get_or, any, ltb, ◌==◌, equals, if◌then◌else◌, Result, ok, err,
  map_ok, and_then,
}
use zero_window.Crypto.Share.{ShamirShare}
use zero_window.Crypto.Gf256.{GfError, gf_mul, gf_div, gf_poly_eval}

pub data SplitError : Type 0 where
  low_threshold few_shares many_shares empty_secret : SplitError

pub data CombineError : Type 0 where
  no_shares too_few_shares different_splits inconsistent_thresholds inconsistent_lengths :
      CombineError
  invalid_index duplicate_index output_length : CombineError
  gf_failed : GfError → CombineError

-- `fill i n` is what the call number i of `fill` writes to a buffer of n bytes.
module _ (fill : ℕ → ℕ → Bytes) where
  -- The coefficients for each byte of the secret, from the call number i on.
  abbrev pub coefficients : ℕ → ℕ → Bytes → List Bytes
  coefficients t i [] = []
  coefficients t i (b ∷ secret) = set (fill i t) 0 b ∷ coefficients t (suc i) secret

abbrev pub share_at : Bytes → ℕ → List Bytes → ℕ → ShamirShare
share_at set_id t rows x = record {
  set_id = set_id;
  x = x;
  threshold = t;
  y = map (λ coeffs. gf_poly_eval coeffs x) rows;
}

abbrev pub shares_from : Bytes → ℕ → List Bytes → ℕ → ℕ → List ShamirShare
shares_from set_id t rows j zero = []
shares_from set_id t rows j (suc n) =
    share_at set_id t rows (j + 1) ∷ shares_from set_id t rows (suc j) n

module _ (fill : ℕ → ℕ → Bytes) where
  unfoldable pub shamir_split :
      Bytes → (threshold shares : ℕ) → Result SplitError (List ShamirShare)
  shamir_split secret t n =
      if ltb t 2
      then err low_threshold
      else if ltb n t
      then err few_shares
      else if ltb 255 n
      then err many_shares
      else if length secret == 0
      then err empty_secret
      else ok (shares_from (fill 0 8) t (coefficients fill t 1 secret) 0 n)

-- The checks of the loop over the shares; `seen` are the indexes so far.
abbrev pub check_shares : Bytes → ℕ → ℕ → List ℕ → List ShamirShare → Result CombineError (Unit {0})
check_shares set_id t len seen [] = ok tt
check_shares set_id t len seen (s ∷ shares) =
    let rest = check_shares set_id t len (s.x ∷ seen) shares in
    if not (equals s.set_id set_id)
    then err different_splits
    else if not (s.threshold == t)
    then err inconsistent_thresholds
    else if not (length s.y == len)
    then err inconsistent_lengths
    else if ltb s.x 1 || ltb 255 s.x
    then err invalid_index
    else if any (λ x. x == s.x) seen
    then err duplicate_index
    else rest

-- The numerator and the denominator of the basis value of the share number j, whose index is x,
-- over the shares from the number m on.
abbrev pub basis_products : ℕ → ℕ → ℕ → ℕ × ℕ → List ℕ → ℕ × ℕ
basis_products j x m (num, den) [] = (num, den)
basis_products j x m (num, den) (x_m ∷ xs) =
    basis_products j x (suc m)
      (if m == j then (num, den) else (gf_mul num x_m, gf_mul den (bit_xor x_m x))) xs

abbrev pub lift_gf : {A : Type 0} → Result GfError A → Result CombineError A
lift_gf (ok a) = ok a
lift_gf (err e) = err (gf_failed e)

abbrev pub divided : ℕ × ℕ → Result GfError ℕ
divided (num, den) = gf_div num den

abbrev pub lagrange : List ℕ → ℕ → List ℕ → Result GfError (List ℕ)
lagrange all j [] = ok []
lagrange all j (x ∷ xs) =
    and_then (divided (basis_products j x 0 (1, 1) all))
      (λ l. map_ok (◌∷◌ l) (lagrange all (suc j) xs))

-- One byte of the secret.
abbrev pub combined_byte : ℕ → ℕ → List ShamirShare → List ℕ → ℕ
combined_byte i b [] ls = b
combined_byte i b (s ∷ shares) [] = b
combined_byte i b (s ∷ shares) (l ∷ ls) =
    combined_byte i (bit_xor b (gf_mul (get_or s.y i 0) l)) shares ls

abbrev pub combined_bytes : ℕ → ℕ → List ShamirShare → List ℕ → Bytes
combined_bytes i zero shares ls = []
combined_bytes i (suc n) shares ls =
    combined_byte i 0 shares ls ∷ combined_bytes (suc i) n shares ls

abbrev pub fits_output : Option ℕ → ℕ → Bool
fits_output none len = true
fits_output (some n) len = n == len

-- With the length of the buffer for the secret, if the caller gives one.
unfoldable pub shamir_combine : List ShamirShare → (out : Option ℕ) → Result CombineError Bytes
shamir_combine [] out = err no_shares
shamir_combine (s ∷ shares) out =
    let all = s ∷ shares in
    let len = length s.y in
    let used = take s.threshold all in
    if ltb (length all) s.threshold
    then err too_few_shares
    else and_then (check_shares s.set_id s.threshold len [] all) (λ checked.
      and_then (lift_gf (lagrange (map (λ s. s.x) used) 0 (map (λ s. s.x) used))) (λ ls.
        if not (fits_output out len) then err output_length else ok (combined_bytes 0 len used ls)))
