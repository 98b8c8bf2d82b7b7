-- ===== src/Authority/Medium.antt =====
-- packages/authority/src/release.ts: the offline release medium.
use zero_window.Prelude.{ℕ, Bool, Bytes, Text, List, map, Result, map_ok}
use zero_window.Encoding.{to_hex, from_hex}
use zero_window.Crypto.Sodium.{Sodium}
use zero_window.Crypto.Hash.{codes, sign_domain, verify_domain}
use zero_window.Authority.Json.{
  Json, JsonError, number, string, array, object, end, member, elements, canonical_json,
}

pub record MediumEntry : Type 0 where
  pub centre_id : Text
  pub sealed_hex : Text

pub record MediumBody : Type 0 where
  pub v : ℕ
  pub bundle_id : Text
  pub exam_id : Text
  pub released_at : ℕ
  pub kek_fingerprint : Text
  pub entries : List MediumEntry

pub record OfflineReleaseMedium : Type 0 where
  pub body : MediumBody
  pub signature : Text

-- The parts of `ReleaseOutcome` that the medium takes.
pub record Wrapped : Type 0 where
  pub centre_id : Text
  pub sealed : Bytes

abbrev pub entry_json : MediumEntry → Json
entry_json e = object (
    member (codes "centreId") (string e.centre_id)
      (member (codes "sealedHex") (string e.sealed_hex) end))

abbrev pub medium_json : MediumBody → Json
medium_json b = object (
    member (codes "v") (number b.v) (
      member (codes "bundleId") (string b.bundle_id) (
        member (codes "examId") (string b.exam_id) (
          member (codes "releasedAt") (number b.released_at) (
            member (codes "kekFingerprint") (string b.kek_fingerprint)
              (member (codes "entries") (array (elements (map entry_json b.entries))) end))))))

abbrev pub medium_domain : Text
medium_domain = codes "offline-release"

abbrev pub medium_entry : Wrapped → MediumEntry
medium_entry w = record { centre_id = w.centre_id; sealed_hex = to_hex w.sealed }

module _ (sodium : Sodium) where
  unfoldable pub build_offline_medium :
      (bundle_id exam_id : Text)
      → List Wrapped
      → (kek_fingerprint : Text) → (secret_key : Bytes) → (released_at : ℕ)
      → Result JsonError OfflineReleaseMedium
  unfolding canonical_json sign_domain to_hex
  build_offline_medium bundle_id exam_id wrapped kek_fingerprint secret_key released_at =
      let body : MediumBody = record {
        v = 1;
        bundle_id = bundle_id;
        exam_id = exam_id;
        released_at = released_at;
        kek_fingerprint = kek_fingerprint;
        entries = map medium_entry wrapped;
      } in
      map_ok
        (λ bytes. record {
          body = body;
          signature = to_hex (sign_domain sodium medium_domain bytes secret_key);
        })
        (canonical_json (medium_json body))

  unfoldable pub verify_offline_medium :
      OfflineReleaseMedium → (authority_public_key : Bytes) → Result JsonError Bool
  unfolding canonical_json verify_domain from_hex
  verify_offline_medium medium authority_public_key =
      map_ok
        (λ bytes.
          verify_domain sodium medium_domain bytes (from_hex medium.signature) authority_public_key)
        (canonical_json (medium_json medium.body))
