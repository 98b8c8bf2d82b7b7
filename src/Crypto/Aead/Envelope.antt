-- ===== src/Crypto/Aead/Envelope.antt =====
-- packages/crypto/src/aead.ts: the envelope and its parts determine each other.
use zero_window.Prelude.{
  ◌≤◌, ◌≡◌, ◌↔◌, refl, sym, ap, ap₂, ◌∙◌, false, Bytes, ◌++◌, length, take, drop, ltb, equals,
  equals_iff, equals_refl, ok, arith, Bool-cases, inl, inr, length-append, take-append_left,
  drop-append_left, take-append-drop, length-take, length-drop, drop-drop, ok-injective, subst,
}
use zero_window.Crypto.Aead.{AeadCiphertext, serialize_aead, parse_aead, aead_magic}

pub parse-serialize :
    (ct : AeadCiphertext)
    → length ct.nonce ≡ 24
    → 16 ≤ length ct.ciphertext
    → parse_aead (serialize_aead ct) ≡ ok ct
unfolding parse_aead serialize_aead
parse-serialize ct nonce tag =
    let size = length-append ct.nonce ct.ciphertext in
    let long : ltb (length (aead_magic ++ ct.nonce ++ ct.ciphertext)) 45 ≡ false = ground arith in
    let first : take 24 (ct.nonce ++ ct.ciphertext) ≡ ct.nonce =
      rw nonce at (take-append_left ct.nonce ct.ciphertext) in
    let rest : drop 24 (ct.nonce ++ ct.ciphertext) ≡ ct.ciphertext =
      rw nonce at (drop-append_left ct.nonce ct.ciphertext) in
    rw (long, equals_refl aead_magic, first, rest) refl

abbrev Parts : Bytes → AeadCiphertext → Type 0
Parts buf ct = (buf ≡ serialize_aead ct) × (length ct.nonce ≡ 24) × (16 ≤ length ct.ciphertext)

parts : (buf : Bytes) {ct : AeadCiphertext} → parse_aead buf ≡ ok ct → Parts buf ct
unfolding parse_aead serialize_aead
parts buf {ct} h = elim (Bool-cases (ltb (length buf) 45)) [
  | inl short ↦ absurd (ground arith)
  | inr long ↦ elim (Bool-cases (equals (take 5 buf) aead_magic)) [
    | inr other ↦ absurd (ground arith)
    | inl magic ↦
        let e = ok-injective (rw (long, magic) at h) in
        let first = (equals_iff (take 5 buf) aead_magic).0 magic in
        let whole : buf ≡ aead_magic ++ take 24 (drop 5 buf) ++ drop 29 buf =
          sym (take-append-drop 5 buf)
          ∙ ap₂ (λ a b. a ++ b) first (sym (take-append-drop 24 (drop 5 buf)))
          ∙ ap (λ b. aead_magic ++ take 24 (drop 5 buf) ++ b) (drop-drop 5 24 buf) in
        let size = length-drop 5 buf in
        let nonce = length-take 24 (drop 5 buf) in
        let tag = length-drop 29 buf in
        let enough : 45 ≤ length buf = ground arith in
        let nonce_size : length (take 24 (drop 5 buf)) ≡ 24 = omega arith in
        let tag_size : 16 ≤ length (drop 29 buf) = omega arith in
        subst (Parts buf) e (whole, nonce_size, tag_size)
  ]
]

-- An envelope parses to a ciphertext exactly if it is that ciphertext's serialization and the
-- ciphertext has a nonce of 24 bytes and room for a tag of 16.
pub parse_aead_iff :
    (buf : Bytes) (ct : AeadCiphertext)
    → (parse_aead buf ≡ ok ct)
      ↔ ((buf ≡ serialize_aead ct) × (length ct.nonce ≡ 24) × (16 ≤ length ct.ciphertext))
parse_aead_iff buf ct = (
  parts buf,
  (λ (h : Parts buf ct).
      let (e, nonce, tag) = h in
      subst (λ b. parse_aead b ≡ ok ct) (sym e) (parse-serialize ct nonce tag)),
)
