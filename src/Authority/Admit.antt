-- ===== src/Authority/Admit.antt =====
-- packages/authority/src/admit.ts: admit tokens. A token has its declared fields, so the test for
-- missing ones holds, and decoding hex never throws. The QR encoding is left out.
pub mod Verdicts
use zero_window.Prelude.{
  ℕ, Bool, true, false, not, Bytes, Text, Option, none, some, List, [], ◌∷◌, ltb, ◌==◌, equals,
  if◌then◌else◌, Result, ok, err, map_ok, and_then,
}
use zero_window.Encoding.{utf8, to_hex, from_hex}
use zero_window.Crypto.Sodium.{Sodium}
use zero_window.Crypto.Hash.{codes, domain_hash, sign_domain, verify_domain}
use zero_window.Authority.Json.{
  Json, JsonError, number, string, object, end, member, canonical_json,
}

abbrev pub admit_token_domain : Text
admit_token_domain = codes "admit-token"

abbrev pub admit_token_version : ℕ
admit_token_version = 1

pub record AdmitTokenBody : Type 0 where
  pub v : ℕ
  pub exam_id : Text
  pub centre_id : Text
  pub seat : Text
  pub registration_hash : Text
  pub expires_at : ℕ

pub record AdmitToken : Type 0 where
  pub body : AdmitTokenBody
  pub signature : Text

abbrev pub body_json : AdmitTokenBody → Json
body_json b = object (
    member (codes "v") (number b.v) (
      member (codes "examId") (string b.exam_id) (
        member (codes "centreId") (string b.centre_id) (
          member (codes "seat") (string b.seat) (
            member (codes "registrationHash") (string b.registration_hash)
              (member (codes "expiresAt") (number b.expires_at) end))))))

unfoldable pub admit_token_body_bytes : AdmitTokenBody → Result JsonError Bytes
unfolding canonical_json
admit_token_body_bytes b = canonical_json (body_json b)

pub record IssueAdmitTokenOptions : Type 0 where
  pub exam_id : Text
  pub centre_id : Text
  pub seat : Text
  pub registration_hash : Bytes
  pub expires_at : ℕ

pub data AdmitFailureCode : Type 0 where
  malformed unsupported_version bad_signature wrong_exam wrong_centre expired : AdmitFailureCode

-- What the centre expects: its exam, itself and the time.
pub record Expected : Type 0 where
  pub exam_id : Text
  pub centre_id : Text
  pub now : ℕ

abbrev pub issued_body : IssueAdmitTokenOptions → AdmitTokenBody
issued_body opts = record {
  v = admit_token_version;
  exam_id = opts.exam_id;
  centre_id = opts.centre_id;
  seat = opts.seat;
  registration_hash = to_hex opts.registration_hash;
  expires_at = opts.expires_at;
}

-- The checks after the signature.
unfoldable pub compare_fields : AdmitTokenBody → Expected → Result AdmitFailureCode Unit
compare_fields body expect =
    if not (equals body.exam_id expect.exam_id)
    then err wrong_exam
    else if not (equals body.centre_id expect.centre_id)
    then err wrong_centre
    else if ltb body.expires_at expect.now
    then err expired
    else ok tt

module _ (sodium : Sodium) where
  unfoldable pub admit_token_hash : AdmitTokenBody → Result JsonError Bytes
  unfolding admit_token_body_bytes domain_hash
  admit_token_hash b =
      map_ok (λ bytes. domain_hash sodium (codes "admit-token-id") (bytes ∷ []))
        (admit_token_body_bytes b)

  unfoldable pub registration_hash : (salt : Bytes) → (registration_id : Text) → Bytes
  unfolding domain_hash utf8
  registration_hash salt registration_id =
      domain_hash sodium (codes "registration-id") (salt ∷ utf8 registration_id ∷ [])

  -- The provider signs with the secret key of the authority's signing key.
  unfoldable pub issue_admit_token :
      (secret_key : Bytes) → IssueAdmitTokenOptions → Result JsonError AdmitToken
  unfolding admit_token_body_bytes sign_domain to_hex
  issue_admit_token secret_key opts =
      map_ok
        (λ bytes. record {
          body = issued_body opts;
          signature = to_hex (sign_domain sodium admit_token_domain bytes secret_key);
        })
        (admit_token_body_bytes (issued_body opts))

  -- The outer result is what canonical JSON may throw, the inner one the verdict.
  unfoldable pub verify_admit_token :
      AdmitToken
      → (authority_public_key : Bytes) → Expected
      → Result JsonError (Result AdmitFailureCode Bytes)
  unfolding admit_token_body_bytes verify_domain compare_fields domain_hash
  verify_admit_token token authority_public_key expect =
      if not (token.body.v == admit_token_version)
      then ok (err unsupported_version)
      else map_ok
          (λ bytes.
            if not (
              verify_domain sodium admit_token_domain bytes (from_hex token.signature)
                authority_public_key)
            then err bad_signature
            else map_ok (λ u. domain_hash sodium (codes "admit-token-id") (bytes ∷ []))
                (compare_fields token.body expect))
          (admit_token_body_bytes token.body)
