-- ===== src/Authority/Admit/Verdicts.antt =====
-- packages/authority/src/admit.ts: which tokens a centre admits.
use zero_window.Prelude.{
  ℕ, ◌≤◌, ◌≡◌, ◌↔◌, refl, true, Bytes, [], ◌∷◌, ◌==◌, equals_iff, ==_iff, Result, ok, err,
  ok-injective, arith, Bool-cases, Result-cases, inl, inr,
}
use zero_window.Prelude.Sort.{precedes}
use zero_window.Encoding.{to_hex, from_hex}
use zero_window.Encoding.Laws.{from_hex-to_hex}
use zero_window.Crypto.Sodium.{Sodium, SodiumLaws}
use zero_window.Crypto.Hash.{
  codes, domain_hash, sign_domain, verify_domain, verify_domain-sign_domain, sign_domain-AreBytes,
}
use zero_window.Authority.Json.{JsonError}
use zero_window.Authority.Admit.{
  AdmitToken, AdmitTokenBody, AdmitFailureCode, Expected, IssueAdmitTokenOptions,
  admit_token_body_bytes, admit_token_hash, admit_token_domain, issue_admit_token, issued_body,
  verify_admit_token, compare_fields,
}

abbrev value_of : Result JsonError Bytes → Bytes
value_of (ok bytes) = bytes
value_of (err e) = []

-- Every token body has canonical bytes.
body_bytes-ok : (b : AdmitTokenBody) → (bytes : Bytes) × (admit_token_body_bytes b ≡ ok bytes)
unfolding admit_token_body_bytes precedes
body_bytes-ok b = (value_of (admit_token_body_bytes b), refl)

compare_fields_iff :
    (b : AdmitTokenBody) (expect : Expected)
    → (compare_fields b expect ≡ ok tt) ↔ (
        (b.exam_id ≡ expect.exam_id)
        × (b.centre_id ≡ expect.centre_id)
        × (expect.now ≤ b.expires_at))
unfolding compare_fields
compare_fields_iff b expect =
    ground (arith, equals_iff b.exam_id expect.exam_id, equals_iff b.centre_id expect.centre_id)

no_verdict :
    {code : AdmitFailureCode} {hash : Bytes}
    → ◌≡◌ {A = Result AdmitFailureCode Bytes} (err code) (ok hash)
    → ⊥
no_verdict h = absurd cc

module _ (sodium : Sodium) where
  -- What makes a token admissible, with its hash.
  abbrev pub IsAdmissible : AdmitToken → Bytes → Expected → Bytes → Type 0
  IsAdmissible token key expect hash =
      (bytes : Bytes) × (admit_token_body_bytes token.body ≡ ok bytes)
      × (token.body.v ≡ 1)
      × (verify_domain sodium admit_token_domain bytes (from_hex token.signature) key ≡ true)
      × (token.body.exam_id ≡ expect.exam_id)
      × (token.body.centre_id ≡ expect.centre_id)
      × (expect.now ≤ token.body.expires_at)
      × (domain_hash sodium (codes "admit-token-id") (bytes ∷ []) ≡ hash)

  admissible :
      (token : AdmitToken) (key : Bytes) (expect : Expected) {hash : Bytes}
      → verify_admit_token sodium token key expect ≡ ok (ok hash)
      → IsAdmissible token key expect hash
  unfolding verify_admit_token
  admissible token key expect {hash} h =
      let (bytes, encoded) = body_bytes-ok token.body in
      elim (Bool-cases (token.body.v == 1)) [
        | inr other ↦ absurd (ground arith)
        | inl version ↦
            elim (Bool-cases
              (verify_domain sodium admit_token_domain bytes (from_hex token.signature) key)) [
                | inr forged ↦
                    absurd (no_verdict (ok-injective (rw (version, encoded, forged) at h)))
                | inl signed ↦ elim (Result-cases (compare_fields token.body expect)) [
                  | inr (code, failed) ↦
                      absurd
                        (no_verdict (ok-injective (rw (version, encoded, signed, failed) at h)))
                  | inl (u, passed) ↦
                      let (exam, centre, intime) =
                        (compare_fields_iff token.body expect).0 passed in
                      (
                        bytes,
                        encoded,
                        (==_iff token.body.v 1).0 version,
                        signed,
                        exam,
                        centre,
                        intime,
                        ok-injective (ok-injective (rw (version, encoded, signed, passed) at h)),
                      )
                ]
              ]
      ]

  accepted :
      (token : AdmitToken) (key : Bytes) (expect : Expected) {hash : Bytes}
      → IsAdmissible token key expect hash
      → verify_admit_token sodium token key expect ≡ ok (ok hash)
  unfolding verify_admit_token
  accepted token key expect {hash} (bytes, encoded, version, signed, exam, centre, intime, named) =
      let fields = (compare_fields_iff token.body expect).1 (exam, centre, intime) in
      let same : (token.body.v == 1) ≡ true = (==_iff token.body.v 1).1 version in
      rw (same, encoded, signed, fields, named) refl

  -- A token is admitted, with a hash, exactly if its version is 1, its signature over its canonical
  -- body verifies against the authority's key, its exam and centre are those of the centre, it has
  -- not expired, and the hash is that of the canonical body.
  pub verify_admit_token_iff :
      (token : AdmitToken) (key : Bytes) (expect : Expected) (hash : Bytes)
      → (verify_admit_token sodium token key expect ≡ ok (ok hash))
        ↔ IsAdmissible token key expect hash
  verify_admit_token_iff token key expect hash =
      (admissible token key expect, accepted token key expect)

  -- A token that the authority issues is admitted at its own exam and centre until it expires, and
  -- its hash is `admitTokenHash` of its body.
  pub verify_admit_token-issue_admit_token :
      SodiumLaws sodium
      → (secret_key : Bytes) (opts : IssueAdmitTokenOptions) (now : ℕ) → now ≤ opts.expires_at
      → (token : AdmitToken) × (hash : Bytes) × (issue_admit_token sodium secret_key opts
          ≡ ok token)
        × (admit_token_hash sodium token.body ≡ ok hash)
        × (verify_admit_token sodium token
              (sodium.public_key secret_key)
              (record { exam_id = opts.exam_id; centre_id = opts.centre_id; now = now })
            ≡ ok (ok hash))
  unfolding issue_admit_token admit_token_hash
  verify_admit_token-issue_admit_token laws secret_key opts now intime =
      let body = issued_body opts in
      let (bytes, encoded) = body_bytes-ok body in
      let signature = sign_domain sodium admit_token_domain bytes secret_key in
      let token : AdmitToken = record { body = body; signature = to_hex signature } in
      let hash = domain_hash sodium (codes "admit-token-id") (bytes ∷ []) in
      let back =
        from_hex-to_hex signature
          (sign_domain-AreBytes sodium laws admit_token_domain bytes secret_key) in
      let signed : verify_domain sodium admit_token_domain bytes (from_hex token.signature)
            (sodium.public_key secret_key)
          ≡ true =
        rw back (verify_domain-sign_domain sodium laws admit_token_domain bytes secret_key) in
      (
        token,
        hash,
        rw encoded refl,
        rw encoded refl,
        accepted token (sodium.public_key secret_key)
            (record { exam_id = opts.exam_id; centre_id = opts.centre_id; now = now })
            (bytes, encoded, refl, signed, refl, refl, intime, refl),
      )
