-- ===== src/Crypto/Shamir/RoundTrip.antt =====
-- packages/crypto/src/shamir.ts: combining shares of a split gives the secret back.
use Prim.Native.Nat.{bit_xor}
use zero_window.Prelude.{
  ℕ, zero, suc, ◌≤◌, ◌<◌, ◌≡◌, refl, sym, ap, ap₂, subst, length-append, length-map, length-take,
  ◌∙◌, true, false, Bytes, AreBytes, Option, List, [], ◌∷◌, ◌++◌, append_assoc, map, length, take,
  set, get_or, ltb, ok, arith,
}
use zero_window.Crypto.Xor.{zero-bit_xor}
use zero_window.Crypto.Share.{ShamirShare}
use zero_window.Crypto.Field.{null-times}
use zero_window.Prelude.Distinct.{AreDistinct, AreDistinct-take}
use zero_window.Crypto.Field.Interpolation.{eval, combined-eval}
use zero_window.Crypto.Gf256.{gf_poly_eval}
use zero_window.Crypto.Gf256.ByteField.{Byte, byte_plus, byte_times, byte_zero, byte_field}
use zero_window.Crypto.Shamir.{
  coefficients, shamir_split, check_shares, shamir_combine, lagrange, combined_byte, combined_bytes,
  fits_output,
}
use zero_window.Crypto.Shamir.Points.{
  indexes, weights, lagrange-weights, combined_byte-weights, horner, gf_poly_eval-eval,
}
use zero_window.Crypto.Shamir.Checks.{
  AreAmong, ArePositive, AreFresh-nil, x_of, share_of, check_shares-share_of, points_of,
  indexes-share_of, distinct_indexes, shamir_split-ok,
}

-- What a buffer of random bytes holds.
abbrev pub FillsBytes : (ℕ → ℕ → Bytes) → Type 0
FillsBytes fill = (i n : ℕ) → (length (fill i n) ≡ n) × AreBytes (fill i n)

eval-horner : (c : Byte) (cs : List Byte) → eval byte_field (horner (c ∷ cs)) byte_zero ≡ c
eval-horner c cs =
    ap (λ t. byte_plus c (byte_times t (eval byte_field (horner cs) byte_zero)))
      (byte_field.plus_self byte_zero)
    ∙ ap (byte_plus c) (null-times byte_field (eval byte_field (horner cs) byte_zero))
    ∙ byte_field.plus-null c

length-horner : (cs : List Byte) → length (horner cs) ≡ length cs
length-horner [] = refl
length-horner (c ∷ cs) = ap suc (length-horner cs)

-- The coefficients for the byte b of the secret.
row_bytes :
    (b : ℕ) (row : Bytes) (t : ℕ)
    → b < 256
    → AreBytes row
    → length row ≡ suc t
    → (c : Byte) × (cs : List Byte) × (c.0 ≡ b)
      × (set row 0 b ≡ indexes (c ∷ cs))
      × (length (c ∷ cs) ≡ suc t)
row_bytes b [] t small bytes size = absurd (omega arith)
row_bytes b (r ∷ row) t small (first, bytes) size =
    let rest = bytes_of row bytes in
    ((b, small), rest.0, refl, ap (◌∷◌ b) rest.1, ap suc (rest.2) ∙ size)
  where
    bytes_of :
        (bs : Bytes) → AreBytes bs → (cs : List Byte) × (bs ≡ indexes cs) × (length cs ≡ length bs)
    bytes_of [] h = ([], refl, refl)
    bytes_of (a ∷ bs) (h, hs) =
        let rest = bytes_of bs hs in ((a, h) ∷ rest.0, ap (◌∷◌ a) rest.1, ap suc rest.2)

get_or-map :
    (f : Bytes → ℕ) (before : List Bytes) (row : Bytes) (after : List Bytes)
    → get_or (map f (before ++ row ∷ after)) (length before) 0 ≡ f row
get_or-map f [] row after = refl
get_or-map f (r ∷ before) row after = get_or-map f before row after

module _ (fill : ℕ → ℕ → Bytes) (fills : FillsBytes fill) (set_id : Bytes) (t : ℕ) where
  -- The bytes of the secret from one on, at points as many as coefficients.
  combined_bytes-coefficients :
      (points : List Byte)
      → AreDistinct points
      → length points ≡ suc t
      → (secret : Bytes) → AreBytes secret
      → (k : ℕ) (rows before : List Bytes) → before ++ coefficients fill (suc t) k secret ≡ rows
      → combined_bytes
          (length before)
          (length secret)
          (map (share_of set_id (suc t) rows) points)
          (weights [] points)
        ≡ secret
  combined_bytes-coefficients points distinct size [] bytes k rows before e = refl
  combined_bytes-coefficients points distinct size (b ∷ secret) (small, bytes) k rows before e =
      let row = row_bytes b (fill k (suc t)) t small (fills k (suc t)).1 (fills k (suc t)).0 in
      let g = horner (row.0 ∷ row.1) in
      let share = share_of set_id (suc t) rows in
      let value : (x : Byte) → get_or (share x).y (length before) 0 ≡ (eval byte_field g x).0 = λ x.
        ap (λ r. get_or (map (λ coeffs. gf_poly_eval coeffs x.0) r) (length before) 0) (sym e)
        ∙ get_or-map (λ coeffs. gf_poly_eval coeffs x.0) before (set (fill k (suc t)) 0 b)
            (coefficients fill (suc t) (suc k) secret)
        ∙ ap (λ r. gf_poly_eval r x.0) row.3
        ∙ gf_poly_eval-eval (row.0 ∷ row.1) x in
      let short : length g ≤ length points =
        omega (arith, length-horner (row.0 ∷ row.1), row.4, size) in
      let one : combined_byte (length before) 0 (map share points) (weights [] points) ≡ b =
        combined_byte-weights share (eval byte_field g) (length before) 0 value [] points
        ∙ ap (λ (c : Byte). bit_xor 0 c.0)
            (combined-eval byte_field points g distinct short ∙ eval-horner row.0 row.1)
        ∙ zero-bit_xor row.0.0
        ∙ row.2 in
      let next : length (before ++ set (fill k (suc t)) 0 b ∷ []) ≡ suc (length before) =
        omega (arith, length-append before (set (fill k (suc t)) 0 b ∷ [])) in
      ap₂ (λ c cs. c ∷ cs) one
        (ap (λ i. combined_bytes i (length secret) (map share points) (weights [] points))
            (sym next)
          ∙ combined_bytes-coefficients points distinct size secret bytes (suc k) rows
              (before ++ set (fill k (suc t)) 0 b ∷ []) (append_assoc before _ _ ∙ e))

take-map : (f : Byte → ShamirShare) (n : ℕ) (xs : List Byte) → take n (map f xs) ≡ map f (take n xs)
take-map f zero xs = refl
take-map f (suc n) [] = refl
take-map f (suc n) (x ∷ xs) = ap (◌∷◌ (f x)) (take-map f n xs)

pub length-coefficients :
    (fill : ℕ → ℕ → Bytes) (t k : ℕ) (secret : Bytes)
    → length (coefficients fill t k secret) ≡ length secret
length-coefficients fill t k [] = refl
length-coefficients fill t k (b ∷ secret) = ap suc (length-coefficients fill t (suc k) secret)

combine_run :
    (s : ShamirShare) (shares : List ShamirShare) (out : Option ℕ) (used : List ShamirShare)
    (ls : List ℕ) (secret : Bytes)
    → s.threshold ≤ length (s ∷ shares)
    → check_shares s.set_id s.threshold (length s.y) [] (s ∷ shares) ≡ ok tt
    → take s.threshold (s ∷ shares) ≡ used
    → lagrange (map x_of used) 0 (map x_of used) ≡ ok ls
    → fits_output out (length s.y) ≡ true
    → combined_bytes 0 (length s.y) used ls ≡ secret
    → shamir_combine (s ∷ shares) out ≡ ok secret
unfolding shamir_combine
combine_run s shares out used ls secret enough checked is_used basis fits whole =
    let not_few : ltb (length (s ∷ shares)) s.threshold ≡ false = ground arith in
    rw (not_few, checked, is_used, basis, fits, whole) refl

combine_points :
    (fill : ℕ → ℕ → Bytes)
    → FillsBytes fill
    → (set_id : Bytes) (t : ℕ) (secret : Bytes) → AreBytes secret
    → (out : Option ℕ) → fits_output out (length secret) ≡ true
    → (points : List Byte) → ArePositive points
    → AreDistinct (indexes points)
    → suc t ≤ length points
    → shamir_combine (map (share_of set_id (suc t) (coefficients fill (suc t) 1 secret)) points) out
      ≡ ok secret
combine_points fill fills set_id t secret bytes out fits [] positive distinct enough =
    absurd (omega arith)
combine_points fill fills set_id t secret bytes out fits (p ∷ ps) positive distinct enough =
    let points : List Byte = p ∷ ps in
    let rows = coefficients fill (suc t) 1 secret in
    let share = share_of set_id (suc t) rows in
    let used = take (suc t) points in
    let distinct_used = AreDistinct-take (suc t) points (distinct_indexes points distinct) in
    let used_size : length used ≡ suc t = omega (arith, length-take (suc t) points) in
    let len_secret : length (share p).y ≡ length secret =
      length-map _ rows ∙ length-coefficients fill (suc t) 1 secret in
    let xs = indexes-share_of set_id (suc t) rows used in
    combine_run (share p) (map share ps) out (map share used) (weights [] used) secret
      (omega (arith, length-map share points))
      (check_shares-share_of set_id (suc t) rows (length (share p).y) (sym (length-map _ rows)) []
        points positive distinct (AreFresh-nil points))
      (take-map share (suc t) points)
      (ap (λ l. lagrange l 0 l) xs ∙ lagrange-weights used [] used refl distinct_used)
      (ap (fits_output out) len_secret ∙ fits)
      (ap (λ n. combined_bytes 0 n (map share used) (weights [] used)) len_secret
        ∙ combined_bytes-coefficients fill fills set_id t used distinct_used used_size secret bytes
            1 rows [] refl)

-- If `fill` writes bytes and shamirSplit gives shares for a secret of bytes, then shamirCombine
-- gives the secret back for every list of at least as many of those shares as the threshold, in
-- any order, with distinct indexes, and an output buffer, if any, of the secret's length.
pub shamir_combine-shamir_split :
    (fill : ℕ → ℕ → Bytes)
    → FillsBytes fill
    → (secret : Bytes) → AreBytes secret
    → (t n : ℕ) (shares : List ShamirShare) → shamir_split fill secret t n ≡ ok shares
    → (given : List ShamirShare) → AreAmong shares given
    → AreDistinct (map x_of given)
    → t ≤ length given
    → (out : Option ℕ) → fits_output out (length secret) ≡ true
    → shamir_combine given out ≡ ok secret
shamir_combine-shamir_split fill fills secret bytes zero n shares split given among distinct enough
      out fits =
    absurd (omega (arith, shamir_split-ok fill secret 0 n shares split))
shamir_combine-shamir_split fill fills secret bytes (suc t) n shares split given among distinct
      enough out fits =
    let facts = shamir_split-ok fill secret (suc t) n shares split in
    let rows = coefficients fill (suc t) 1 secret in
    let set_id = fill 0 8 in
    let found =
      points_of set_id (suc t) rows n given facts.2 (subst (λ l. AreAmong l given) facts.4 among) in
    let share = share_of set_id (suc t) rows in
    let points = found.0 in
    ap (λ l. shamir_combine l out) found.2
    ∙ combine_points fill fills set_id t secret bytes out fits points found.1
        (subst AreDistinct (ap (map x_of) found.2 ∙ indexes-share_of set_id (suc t) rows points)
          distinct)
        (omega (arith, length-map share points, ap length found.2))
