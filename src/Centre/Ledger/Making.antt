-- ===== src/Centre/Ledger/Making.antt =====
-- packages/centre/src/centre.ts: from the bundle in custody to the PDF, inside `generatePaper`.
use zero_window.Prelude.{
  ◌≡◌, refl, ap, subst, ◌∙◌, false, Bytes, Text, some, [], ◌∷◌, ok-injective, arith, Bool-cases,
  Option-cases, Result-cases, inl, inr, Result, ok, err,
}
use zero_window.Encoding.{to_hex, from_hex}
use zero_window.Crypto.Sodium.{Sodium}
use zero_window.Crypto.Hash.{codes, domain_hash}
use zero_window.Crypto.Aead.{AeadCiphertext, parse_aead, aead_decrypt}
use zero_window.Crypto.KekEngine.{KekEngine, get_kek, held, decrypt}
use zero_window.Authority.Bank.{PaperBundleContent}
use zero_window.Centre.Assemble.{AssembledPaper, assemble_paper}
use zero_window.Authority.Json.{JsonError}
use zero_window.Centre.PaperHash.{paper_content_hash}
use zero_window.Centre.Store.{CentreBundleRecord, CheckinRecord}
use zero_window.Centre.Node.{Outside, CentreOptions, CentreError, paper_bundle_id}
use zero_window.Centre.ExamDay.{Rendered, bundle_associated_data, render_paper, make_paper}

decrypt_key :
    (outside : Outside) (kek_id : Text) (ct : AeadCiphertext) (ad : Bytes) (engine : KekEngine)
    {plain : Bytes}
    → decrypt outside.ciphers kek_id ct ad engine ≡ ok plain
    → (kek : Bytes) × (engine.closed ≡ false)
      × (get_kek engine.keks kek_id ≡ some kek)
      × (aead_decrypt outside.ciphers kek ct ad ≡ ok plain)
unfolding decrypt held
decrypt_key outside kek_id ct ad engine h = elim (Bool-cases engine.closed) [
  | inl shut ↦ absurd (ground arith)
  | inr live ↦ elim (Option-cases (get_kek engine.keks kek_id)) [
    | inl missing ↦ absurd (ground arith)
    | inr (kek, key) ↦ elim (Result-cases (aead_decrypt outside.ciphers kek ct ad)) [
      | inr (e, failed) ↦ absurd (ground arith)
      | inl (p, opened) ↦ (kek, live, key, ground arith)
    ]
  ]
]

module _ (sodium : Sodium) (outside : Outside) (opts : CentreOptions) where
  abbrev pub IsRendered : AssembledPaper → Bytes → Text → Type 0
  IsRendered p pdf pdf_hash =
      (content_hash : Bytes) × (paper_content_hash sodium p ≡ ok content_hash)
      × ((outside.draw_pdf p content_hash).0 ≡ pdf)
      × (pdf_hash ≡ to_hex (domain_hash sodium (codes "paper-pdf") (pdf ∷ [])))

  -- The PDF comes from the bundle in custody, decrypted with a key that the provider holds.
  abbrev pub IsMade :
      CentreBundleRecord → Text → Text → CheckinRecord → KekEngine → Bytes → Text → Type 0
  IsMade b kek_id seat checkin engine pdf pdf_hash =
      (kek : Bytes) × (ad : Bytes) × (ct : AeadCiphertext) × (plain : Bytes)
      × (content : PaperBundleContent) × (p : AssembledPaper) × (get_kek engine.keks kek_id
          ≡ some kek)
      × (bundle_associated_data (paper_bundle_id sodium outside opts) (codes "paper") b.exam_id
          ≡ ok ad)
      × (parse_aead b.ciphertext ≡ ok ct)
      × (aead_decrypt outside.ciphers kek ct ad ≡ ok plain)
      × (outside.parse_content plain ≡ some content)
      × (assemble_paper sodium opts.tries content opts.centre_id seat (from_hex checkin.token_hash)
          ≡ ok p)
      × IsRendered p pdf pdf_hash

  refused :
      {r : Rendered} {e : CentreError} → ◌≡◌ {A = Result CentreError Rendered} (err e) (ok r) → ⊥
  refused h = absurd cc

  no_rendering :
      {r : Rendered} {e : JsonError} → ◌≡◌ {A = Result JsonError Rendered} (err e) (ok r) → ⊥
  no_rendering h = absurd cc

  render_paper_hash :
      (p : AssembledPaper) {r : Rendered}
      → render_paper sodium outside opts p ≡ ok r
      → IsRendered p r.pdf r.pdf_hash
  unfolding render_paper
  render_paper_hash p {r} h = elim (Result-cases (paper_content_hash sodium p)) [
    | inr (e, failed) ↦ absurd (no_rendering (rw (failed, render_paper) at h))
    | inl (hash, hashed) ↦
        let same = ok-injective (rw (hashed, render_paper) at h) in
        subst (λ x. IsRendered p x.pdf x.pdf_hash) same (hash, hashed, refl, refl)
  ]

  pub make_paper-IsMade :
      (b : CentreBundleRecord) (kek_id seat : Text) (checkin : CheckinRecord) (engine : KekEngine)
      {r : Rendered}
      → make_paper sodium outside opts b kek_id seat checkin engine ≡ ok r
      → IsMade b kek_id seat checkin engine r.pdf r.pdf_hash
  unfolding make_paper
  make_paper-IsMade b kek_id seat checkin engine {r} q =
      elim (Result-cases
        (bundle_associated_data (paper_bundle_id sodium outside opts) (codes "paper") b.exam_id)) [
          | inr (e1, failed) ↦ absurd (refused (rw (failed, make_paper) at q))
          | inl (ad, encoded) ↦ elim (Result-cases (parse_aead b.ciphertext)) [
            | inr (e1, failed) ↦ absurd (refused (rw (encoded, failed, make_paper) at q))
            | inl (ct, parsed) ↦ elim (Result-cases (decrypt outside.ciphers kek_id ct ad engine)) [
              | inr (e1, failed) ↦ absurd (refused (rw (encoded, parsed, failed, make_paper) at q))
              | inl (plain, decrypted) ↦ elim (Option-cases (outside.parse_content plain)) [
                | inl unreadable ↦
                    absurd (refused (rw (encoded, parsed, decrypted, unreadable, make_paper) at q))
                | inr (content, read) ↦
                    elim (Result-cases (
                      assemble_paper sodium opts.tries content opts.centre_id seat
                        (from_hex checkin.token_hash))) [
                          | inr (e1, failed) ↦ absurd (
                              refused
                                (rw (encoded, parsed, decrypted, read, failed, make_paper) at q))
                          | inl (p, assembled) ↦
                              elim (Result-cases (render_paper sodium outside opts p)) [
                                | inr (e1, failed) ↦ absurd (
                                    refused (
                                      rw
                                        (
                                          encoded, parsed, decrypted, read, assembled, failed,
                                          make_paper,
                                        )
                                        at q))
                                | inl (r1, rendered) ↦
                                    let same = ok-injective (
                                      rw
                                        (
                                          encoded, parsed, decrypted, read, assembled, rendered,
                                          make_paper,
                                        )
                                        at q) in
                                    let (kek, live, key, plainly) =
                                      decrypt_key outside kek_id ct ad engine decrypted in
                                    (
                                      kek,
                                      ad,
                                      ct,
                                      plain,
                                      content,
                                      p,
                                      key,
                                      encoded,
                                      parsed,
                                      plainly,
                                      read,
                                      assembled,
                                      render_paper_hash p (rendered ∙ ap ok same),
                                    )
                              ]
                        ]
              ]
            ]
          ]
        ]
