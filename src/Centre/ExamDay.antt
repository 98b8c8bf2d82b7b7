-- ===== src/Centre/ExamDay.antt =====
-- packages/centre/src/centre.ts: check-in, and the making of a paper from the bundle in custody.
use zero_window.Prelude.{ℕ, ◌+◌, Bytes, Text, Option, none, some, [], ◌∷◌, ◌++◌, Result, ok, err}
use zero_window.Encoding.{to_hex, from_hex}
use zero_window.Crypto.Sodium.{Sodium}
use zero_window.Crypto.Hash.{codes, domain_hash}
use zero_window.Crypto.Aead.{parse_aead}
use zero_window.Crypto.KekEngine.{decrypt, KekEngine}
use zero_window.Authority.Json.{JsonError, string, number, object, end, member, canonical_json}
use zero_window.Authority.Admit.{AdmitToken, malformed, verify_admit_token}
use zero_window.Log.Canonical.{Fields}
use zero_window.Log.Canonical
use zero_window.Log.Types.{candidate_checked_in}
use zero_window.Centre.Assemble.{AssembledPaper, assemble_paper}
use zero_window.Centre.PaperHash.{paper_content_hash}
use zero_window.Centre.Store.{
  CentreBundleRecord, CheckinRecord, PaperRecord, put_checkin, checkin_by_token, checkin_by_seat,
}
use zero_window.Centre.Node.{
  Outside, CentreOptions, CentreNode, CentreError, Outcome, then_do, log_event, text_field,
  number_field, paper_bundle_id, admit_refused, duplicate_checkin, seat_taken, store_failed,
  envelope_refused, provider_failed, encoding_failed, content_unreadable, assembly_failed,
}

-- A check-in: the seat and the token hash it returns.
pub record Admitted : Type 0 where
  pub seat : Text
  pub token_hash : Text

pub record Generated : Type 0 where
  pub pdf : Bytes
  pub paper_hash : Text

-- `renderPaper`: the PDF, its hash, the hash of the content, the number of pages.
pub record Rendered : Type 0 where
  pub pdf : Bytes
  pub pdf_hash : Text
  pub content_hash : Text
  pub page_count : ℕ

-- `bundleAssociatedData`.
unfoldable pub bundle_associated_data : (id kind exam_id : Text) → Result JsonError Bytes
unfolding canonical_json
bundle_associated_data id kind exam_id = canonical_json (
    object (
      member (codes "bundleId") (string id) (
        member (codes "kind") (string kind)
          (member (codes "examId") (string exam_id) (member (codes "v") (number 1) end)))))

module _ (sodium : Sodium) (outside : Outside) (opts : CentreOptions) where
  -- Every event of the exam day starts with the exam and the centre.
  abbrev pub here : Fields → Fields
  here rest =
      text_field (codes "exam_id") opts.exam_id (text_field (codes "centre_id") opts.centre_id rest)

  abbrev pub checkin_payload : CheckinRecord → Fields
  checkin_payload r = here (
      text_field (codes "seat") r.seat (text_field (codes "token_hash") r.token_hash Canonical.end))

  abbrev pub admit : AdmitToken → (token_hash : Text) → (at : ℕ) → CentreNode → Outcome Admitted
  admit token token_hash at node =
      let record_ : CheckinRecord = record {
        token_hash = token_hash;
        seat = token.body.seat;
        registration_hash = token.body.registration_hash;
        checked_in_at = at;
      } in
      elim (put_checkin record_ node.store) [
        | err e ↦ (err (store_failed e), node)
        | ok store ↦
            then_do
              (log_event outside candidate_checked_in (checkin_payload record_) at
                (record node { store = store }))
              (λ _ node. (
                ok (record { seat = token.body.seat; token_hash = token_hash }),
                record node { checkins_total = node.checkins_total + 1 },
              ))
      ]

  -- `none` is a token that cannot be decoded.
  unfoldable pub check_in : Option AdmitToken → (now at : ℕ) → CentreNode → Outcome Admitted
  unfolding verify_admit_token checkin_by_token checkin_by_seat put_checkin to_hex
  check_in none now at node =
      (err admit_refused, record node { admit_refusals = node.admit_refusals ++ malformed ∷ [] })
  check_in (some token) now at node =
      elim (verify_admit_token sodium token opts.authority_public_key
        (record { exam_id = opts.exam_id; centre_id = opts.centre_id; now = now })) [
          | err e ↦ (err (encoding_failed e), node)
          | ok (err code) ↦
              (err admit_refused, record node { admit_refusals = node.admit_refusals ++ code ∷ [] })
          | ok (ok hash) ↦ elim (checkin_by_token (to_hex hash) node.store) [
            | some old ↦ (err duplicate_checkin, node)
            | none ↦ elim (checkin_by_seat token.body.seat node.store) [
              | some old ↦ (err seat_taken, node)
              | none ↦ admit token (to_hex hash) at node
            ]
          ]
        ]

  unfoldable pub render_paper : AssembledPaper → Result JsonError Rendered
  unfolding paper_content_hash domain_hash to_hex
  render_paper p = elim (paper_content_hash sodium p) [
    | err e ↦ err e
    | ok content_hash ↦
        let (pdf, page_count) = outside.draw_pdf p content_hash in
        ok (record {
          pdf = pdf;
          pdf_hash = to_hex (domain_hash sodium (codes "paper-pdf") (pdf ∷ []));
          content_hash = to_hex content_hash;
          page_count = page_count;
        })
  ]

  -- From the custody record to the rendered paper: decrypting, parsing, assembling, rendering.
  unfoldable pub make_paper :
      CentreBundleRecord
      → (kek_id seat : Text) → CheckinRecord
      → KekEngine
      → Result CentreError Rendered
  unfolding bundle_associated_data parse_aead decrypt assemble_paper render_paper from_hex
  make_paper b kek_id seat checkin engine =
      elim (bundle_associated_data (paper_bundle_id sodium outside opts) (codes "paper")
        b.exam_id) [
          | err e ↦ err (encoding_failed e)
          | ok ad ↦ elim (parse_aead b.ciphertext) [
            | err e ↦ err (envelope_refused e)
            | ok ct ↦ elim (decrypt outside.ciphers kek_id ct ad engine) [
              | err e ↦ err (provider_failed e)
              | ok plaintext ↦ elim (outside.parse_content plaintext) [
                | none ↦ err content_unreadable
                | some content ↦
                    elim (assemble_paper sodium opts.tries content opts.centre_id seat
                      (from_hex checkin.token_hash)) [
                        | err e ↦ err (assembly_failed e)
                        | ok p ↦ elim (render_paper p) [
                          | err e ↦ err (encoding_failed e)
                          | ok r ↦ ok r
                        ]
                      ]
              ]
            ]
          ]
        ]

  abbrev pub paper_record : (seat : Text) → CheckinRecord → Rendered → ℕ → PaperRecord
  paper_record seat checkin r at = record {
    seat = seat;
    token_hash = checkin.token_hash;
    paper_hash = r.pdf_hash;
    content_hash = r.content_hash;
    page_count = r.page_count;
    generated_at = at;
    printed_at = none;
    printer_id = none;
    job_ref = none;
    transport = none;
  }

  abbrev pub paper_payload : PaperRecord → Fields
  paper_payload p = here (
      text_field (codes "seat") p.seat (
        text_field (codes "token_hash") p.token_hash (
          text_field (codes "paper_hash") p.paper_hash (
            text_field (codes "content_hash") p.content_hash
              (number_field (codes "page_count") p.page_count Canonical.end)))))
