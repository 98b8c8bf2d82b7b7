-- ===== src/Authority/Content.antt =====
-- packages/authority/src/bank.ts: the contents of the two bundles as JSON values.
use zero_window.Prelude.{map}
use zero_window.Crypto.Hash.{codes}
use zero_window.Authority.Bank.{
  Blueprint, BlueprintSlot, PaperItem, PaperBundleContent, Answer, AnswerBundleContent,
  difficulty_name,
}
use zero_window.Authority.Json.{
  Json, number, string, array as json_array, elements, object, end as done, member,
}

abbrev pub slot_json : BlueprintSlot → Json
slot_json s = object (
    member (codes "subject") (string s.subject) (
      member (codes "difficulty") (string (difficulty_name s.difficulty))
        (member (codes "count") (number s.count) done)))

abbrev pub blueprint_json : Blueprint → Json
blueprint_json b = object (
    member (codes "examId") (string b.exam_id) (
      member (codes "title") (string b.title) (
        member (codes "durationMinutes") (number b.duration_minutes)
          (member (codes "slots") (json_array (elements (map slot_json b.slots))) done))))

abbrev pub item_json : PaperItem → Json
item_json item = object (
    member (codes "id") (string item.id) (
      member (codes "subject") (string item.subject) (
        member (codes "difficulty") (string (difficulty_name item.difficulty)) (
          member (codes "body") (string item.body) (
            member (codes "options") (json_array (elements (map (λ o. string o) item.options)))
              done)))))

abbrev pub paper_json : PaperBundleContent → Json
paper_json content = object (
    member (codes "examId") (string content.exam_id) (
      member (codes "blueprint") (blueprint_json content.blueprint)
        (member (codes "items") (json_array (elements (map item_json content.items))) done)))

abbrev pub answer_json : Answer → Json
answer_json a = object (
    member (codes "id") (string a.id) (member (codes "correctIndex") (number a.correct_index) done))

abbrev pub answers_json : AnswerBundleContent → Json
answers_json content = object (
    member (codes "examId") (string content.exam_id)
      (member (codes "answers") (json_array (elements (map answer_json content.answers))) done))
