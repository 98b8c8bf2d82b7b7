-- ===== src/Crypto/Share.antt =====
-- packages/crypto/src/shamir.ts: the wire format of a share. A store into a buffer keeps the low
-- eight bits, and writing the length of more than 65535 bytes throws.
use zero_window.Prelude.{
  ℕ, zero, suc, ◌+◌, ◌*◌, ◌/◌, ◌%◌, ◌≤◌, ◌<◌, ◌≡◌, refl, sym, ap, ap₂, subst, ◌∙◌, true, false, not,
  Bytes, none, List, [], ◌∷◌, ◌++◌, length, take, drop, get_or, ltb, ◌==◌, equals, equals_iff,
  if◌then◌else◌, Result, ok, err, length-append, take-append_left, drop-append_left, append_assoc,
  drop-drop, arith,
}
use native.Mathlib.Nat.{div-add-mod', mod-eq_of_lt}
use zero_window.Crypto.Sodium.{Sodium, SodiumLaws}
use zero_window.Crypto.Hash.{codes, blake2b_with, domain_hash}

pub record ShamirShare : Type 0 where
  pub set_id : Bytes
  pub x : ℕ
  pub threshold : ℕ
  pub y : Bytes

pub data ShareError : Type 0 where
  bad_set_id secret_too_long share_too_short bad_share_magic bad_share_length checksum_mismatch :
      ShareError

abbrev pub share_magic : Bytes
share_magic = codes "ZWS1"

abbrev pub check_len : ℕ
check_len = 16

abbrev pub share_body : ShamirShare → Bytes
share_body s =
    share_magic
    ++ s.set_id
    ++ s.x % 256 ∷ s.threshold % 256 ∷ length s.y / 256 % 256 ∷ length s.y % 256 ∷ s.y

module _ (sodium : Sodium) where
  unfoldable pub share_check : Bytes → Bytes
  unfolding blake2b_with domain_hash
  share_check body =
      blake2b_with sodium (domain_hash sodium (codes "shamir-share") (body ∷ []) ∷ []) none
        check_len

  unfoldable pub serialize_share : ShamirShare → Result ShareError Bytes
  unfolding share_check
  serialize_share s =
      if not (length s.set_id == 8)
      then err bad_set_id
      else if ltb 65535 (length s.y)
      then err secret_too_long
      else ok (share_body s ++ share_check (share_body s))

  unfoldable pub parse_share : Bytes → Result ShareError ShamirShare
  unfolding share_check
  parse_share buf =
      let y_len = get_or buf 14 0 * 256 + get_or buf 15 0 in
      if ltb (length buf) (16 + 1 + check_len)
      then err share_too_short
      else if not (equals (take 4 buf) share_magic)
      then err bad_share_magic
      else if not (length buf == 16 + y_len + check_len)
      then err bad_share_length
      else if not (equals (share_check (take (16 + y_len) buf)) (drop (16 + y_len) buf))
      then err checksum_mismatch
      else ok (record {
        set_id = take 8 (drop 4 buf);
        x = get_or buf 12 0;
        threshold = get_or buf 13 0;
        y = take y_len (drop 16 buf);
      })

module _ {ℓ} {A : Type ℓ} where
  get_or-append_right :
      (xs ys : List A) (n i : ℕ) (d : A)
      → length xs ≡ n
      → get_or (xs ++ ys) (n + i) d ≡ get_or ys i d
  get_or-append_right [] ys n i d h = let e : n + i ≡ i = omega arith in rw e refl
  get_or-append_right (x ∷ xs) ys zero i d h = absurd (omega arith)
  get_or-append_right (x ∷ xs) ys (suc n) i d h =
      let e : suc n + i ≡ suc (n + i) = omega arith in
      rw e (get_or-append_right xs ys n i d (omega arith))

  take-append_size : (xs ys : List A) (n : ℕ) → length xs ≡ n → take n (xs ++ ys) ≡ xs
  take-append_size xs ys n h = subst (λ k. take k (xs ++ ys) ≡ xs) h (take-append_left xs ys)

  drop-append_size : (xs ys : List A) (n : ℕ) → length xs ≡ n → drop n (xs ++ ys) ≡ ys
  drop-append_size xs ys n h = subst (λ k. drop k (xs ++ ys) ≡ ys) h (drop-append_left xs ys)

parse_parts :
    (sodium : Sodium) (buf : Bytes) (s : ShamirShare) (y_len : ℕ)
    → length buf ≡ 16 + y_len + 16
    → 0 < y_len
    → take 4 buf ≡ share_magic
    → get_or buf 14 0 * 256 + get_or buf 15 0 ≡ y_len
    → share_check sodium (take (16 + y_len) buf) ≡ drop (16 + y_len) buf
    → take 8 (drop 4 buf) ≡ s.set_id
    → get_or buf 12 0 ≡ s.x
    → get_or buf 13 0 ≡ s.threshold
    → take y_len (drop 16 buf) ≡ s.y
    → parse_share sodium buf ≡ ok s
unfolding parse_share
parse_parts sodium buf s y_len size nonempty magic len checked id x threshold y =
    let long : ltb (length buf) 33 ≡ false = ground arith in
    let is_magic = (equals_iff (take 4 buf) share_magic).1 magic in
    let exact : (length buf == 16 + y_len + 16) ≡ true = ground arith in
    let is_check =
      (equals_iff (share_check sodium (take (16 + y_len) buf)) (drop (16 + y_len) buf)).1 checked in
    rw (long, is_magic, len, exact, is_check, id, x, threshold, y) refl

-- Parsing a serialized share gives the share back, if its set id has 8 bytes, its index and its
-- threshold fit a byte, and its value is neither empty nor longer than 65535 bytes.
pub parse_share-serialize_share :
    (sodium : Sodium)
    → SodiumLaws sodium
    → (s : ShamirShare) → length s.set_id ≡ 8
    → s.x < 256
    → s.threshold < 256
    → 0 < length s.y
    → length s.y ≤ 65535
    → (buf : Bytes) × (serialize_share sodium s ≡ ok buf) × (parse_share sodium buf ≡ ok s)
unfolding serialize_share parse_share share_check
parse_share-serialize_share sodium laws s id_size small_x small_t nonempty fits =
    let body = share_body s in
    let check = share_check sodium body in
    let buf = body ++ check in
    let check_size : length check ≡ 16 = laws.hash_length 16 none _ in
    let tail : Bytes =
      s.x % 256 ∷ s.threshold % 256 ∷ length s.y / 256 % 256 ∷ length s.y % 256 ∷ s.y in
    let body_size : length body ≡ 16 + length s.y = omega (arith, length-append s.set_id tail) in
    let buf_size : length buf ≡ 16 + length s.y + 16 =
      length-append body check ∙ ap₂ (λ a b. a + b) body_size check_size in
    let right_id : (length s.set_id == 8) ≡ true = ground arith in
    let not_long : ltb 65535 (length s.y) ≡ false = ground arith in
    let high : length s.y / 256 % 256 ≡ length s.y / 256 = omega arith in
    let at : (i : ℕ) → get_or (s.set_id ++ (tail ++ check)) (8 + i) 0 ≡ get_or (tail ++ check) i 0 =
      λ i. get_or-append_right s.set_id (tail ++ check) 8 i 0 id_size in
    let whole : buf ≡ share_magic ++ (s.set_id ++ (tail ++ check)) =
      ap (λ t. share_magic ++ t) (append_assoc s.set_id tail check) in
    (
      buf,
      rw (right_id, not_long) refl,
      parse_parts sodium buf s (length s.y) buf_size nonempty refl
          (ap₂ (λ a b. a * 256 + b) (ap (λ t. get_or t 14 0) whole ∙ at 2)
              (ap (λ t. get_or t 15 0) whole ∙ at 3)
            ∙ ap (λ h. h * 256 + length s.y % 256) high
            ∙ div-add-mod' (length s.y) 256)
          (ap (share_check sodium) (take-append_size body check (16 + length s.y) body_size)
            ∙ sym (drop-append_size body check (16 + length s.y) body_size))
          (ap (λ t. take 8 (drop 4 t)) whole ∙ take-append_size s.set_id (tail ++ check) 8 id_size)
          (ap (λ t. get_or t 12 0) whole ∙ at 0 ∙ mod-eq_of_lt small_x)
          (ap (λ t. get_or t 13 0) whole ∙ at 1 ∙ mod-eq_of_lt small_t)
          (ap (λ t. take (length s.y) (drop 16 t)) whole
            ∙ ap (take (length s.y)) (
                sym (drop-drop 8 4 (s.set_id ++ (tail ++ check)))
                ∙ ap (drop 4) (drop-append_size s.set_id (tail ++ check) 8 id_size))
            ∙ take-append_left s.y check),
    )
