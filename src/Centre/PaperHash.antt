-- ===== src/Centre/PaperHash.antt =====
-- packages/centre/src/assemble.ts: the hash of an assembled paper, before it is rendered.
use zero_window.Prelude.{Bytes, [], ◌∷◌, map, Result, map_ok}
use zero_window.Crypto.Sodium.{Sodium}
use zero_window.Crypto.Hash.{codes, domain_hash}
use zero_window.Authority.Bank.{difficulty_name}
use zero_window.Authority.Json.{
  Json, JsonError, number, string, array, object, end, member, elements, canonical_json,
}
use zero_window.Centre.Assemble.{AssembledQuestion, AssembledPaper}

abbrev pub question_json : AssembledQuestion → Json
question_json q = object (
    member (codes "number") (number q.number) (
      member (codes "itemId") (string q.item_id) (
        member (codes "subject") (string q.subject) (
          member (codes "difficulty") (string (difficulty_name q.difficulty)) (
            member (codes "body") (string q.body) (
              member (codes "options") (array (elements (map string q.options))) (
                member (codes "optionOrder") (array (elements (map number q.option_order)))
                  end)))))))

abbrev pub paper_json : AssembledPaper → Json
paper_json p = object (
    member (codes "examId") (string p.exam_id) (
      member (codes "centreId") (string p.centre_id) (
        member (codes "seat") (string p.seat) (
          member (codes "tokenHashHex") (string p.token_hash_hex) (
            member (codes "title") (string p.title) (
              member (codes "durationMinutes") (number p.duration_minutes) (
                member (codes "questions") (array (elements (map question_json p.questions)))
                  end)))))))

unfoldable pub paper_content_hash : Sodium → AssembledPaper → Result JsonError Bytes
unfolding canonical_json domain_hash
paper_content_hash sodium p =
    map_ok (λ bytes. domain_hash sodium (codes "paper-content") (bytes ∷ []))
      (canonical_json (paper_json p))
