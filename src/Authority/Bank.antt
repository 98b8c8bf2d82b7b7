-- ===== src/Authority/Bank.antt =====
-- packages/authority/src/bank.ts: the item bank, its validation against a blueprint and its split
-- into the paper bundle and the answer key. The numbers of the types are natural numbers, and the
-- fields have their declared types, so the checks for fractions, negative numbers, absent fields
-- and wrong types have nothing to refuse here.
pub mod Validity
use zero_window.Prelude.{
  ℕ, zero, suc, ◌+◌, Bool, true, false, ◌&&◌, ◌||◌, not, Text, List, [], ◌∷◌, ◌++◌, map, length,
  ltb, leb, ◌==◌, equals, if◌then◌else◌, Result, ok, err,
}
use zero_window.Crypto.Hash.{codes}

pub data Difficulty : Type 0 where
  easy medium hard : Difficulty

unfoldable pub same_difficulty : Difficulty → Difficulty → Bool
same_difficulty easy easy = true
same_difficulty medium medium = true
same_difficulty hard hard = true
same_difficulty _ _ = false

abbrev pub difficulty_name : Difficulty → Text
difficulty_name easy = codes "easy"
difficulty_name medium = codes "medium"
difficulty_name hard = codes "hard"

pub record Item : Type 0 where
  pub id : Text
  pub subject : Text
  pub difficulty : Difficulty
  pub body : Text
  pub options : List Text
  pub correct_index : ℕ

pub record ItemBank : Type 0 where
  pub exam_id : Text
  pub items : List Item

pub record BlueprintSlot : Type 0 where
  pub subject : Text
  pub difficulty : Difficulty
  pub count : ℕ

pub record Blueprint : Type 0 where
  pub exam_id : Text
  pub title : Text
  pub duration_minutes : ℕ
  pub slots : List BlueprintSlot

-- What a message of `BankValidationError` reports; an item is named by its place.
pub data Problem : Type 0 where
  wrong_exam no_items no_slots : Problem
  missing_id duplicate_id missing_subject empty_body too_few_options empty_option : ℕ → Problem
  correct_index_out_of_range : ℕ → Problem
  count_not_positive pool_too_small : BlueprintSlot → Problem

-- The code units that `trim` takes off: white space and line terminators.
abbrev pub is_space : ℕ → Bool
is_space c =
    (leb 9 c && leb c 13)
    || c == 32
    || c == 160
    || c == 5760
    || (leb 8192 c && leb c 8202)
    || c == 8232
    || c == 8233
    || c == 8239
    || c == 8287
    || c == 12288
    || c == 65279

-- `!text.trim()`.
unfoldable pub is_blank : Text → Bool
is_blank [] = true
is_blank (c ∷ s) = is_space c && is_blank s

unfoldable pub some_blank : List Text → Bool
unfolding is_blank
some_blank [] = false
some_blank (o ∷ os) = is_blank o || some_blank os

abbrev pub is_empty : Text → Bool
is_empty [] = true
is_empty (c ∷ s) = false

-- `seen.has(id)`.
unfoldable pub has : List Text → Text → Bool
has [] id = false
has (s ∷ seen) id = equals s id || has seen id

-- The problem, if the test holds.
abbrev pub report : Bool → Problem → List Problem
report true p = p ∷ []
report false p = []

unfoldable pub id_problems : ℕ → List Text → Text → List Problem
unfolding has
id_problems i seen id =
    if is_empty id then missing_id i ∷ [] else report (has seen id) (duplicate_id i)

-- `seen` after an item: its id, unless it is empty or there already.
unfoldable pub see : List Text → Text → List Text
unfolding has
see seen id = if is_empty id || has seen id then seen else id ∷ seen

unfoldable pub option_problems : ℕ → List Text → List Problem
unfolding some_blank
option_problems i options =
    if ltb (length options) 2
    then too_few_options i ∷ []
    else report (some_blank options) (empty_option i)

unfoldable pub item_problems : ℕ → List Text → Item → List Problem
unfolding id_problems option_problems is_blank
item_problems i seen item =
    id_problems i seen item.id
    ++ report (is_empty item.subject) (missing_subject i)
    ++ report (is_blank item.body) (empty_body i)
    ++ option_problems i item.options
    ++ report (leb (length item.options) item.correct_index) (correct_index_out_of_range i)

unfoldable pub items_problems : ℕ → List Text → List Item → List Problem
unfolding item_problems see
items_problems i seen [] = []
items_problems i seen (item ∷ items) =
    item_problems i seen item ++ items_problems (i + 1) (see seen item.id) items

abbrev pub fits_slot : BlueprintSlot → Text → Difficulty → Bool
fits_slot slot subject difficulty =
    equals subject slot.subject && same_difficulty difficulty slot.difficulty

-- The number of items of a slot: `pool.length`.
unfoldable pub pool_size : BlueprintSlot → List Item → ℕ
unfolding same_difficulty equals
pool_size slot [] = 0
pool_size slot (item ∷ items) =
    if fits_slot slot item.subject item.difficulty
    then 1 + pool_size slot items
    else pool_size slot items

unfoldable pub slot_problems : List Item → List BlueprintSlot → List Problem
unfolding pool_size
slot_problems items [] = []
slot_problems items (slot ∷ slots) =
    report (slot.count == 0) (count_not_positive slot)
    ++ report (ltb (pool_size slot items) slot.count) (pool_too_small slot)
    ++ slot_problems items slots

abbrev pub no_elements {ℓ} : {A : Type ℓ} → List A → Bool
no_elements [] = true
no_elements (x ∷ xs) = false

unfoldable pub validation_problems : ItemBank → Blueprint → List Problem
unfolding items_problems slot_problems equals
validation_problems bank blueprint =
    report (not (equals bank.exam_id blueprint.exam_id)) wrong_exam
    ++ report (no_elements bank.items) no_items
    ++ items_problems 0 [] bank.items
    ++ slot_problems bank.items blueprint.slots
    ++ report (no_elements blueprint.slots) no_slots

-- `validateBank`: nothing, or the problems of the error thrown.
unfoldable pub validate_bank : ItemBank → Blueprint → Result (List Problem) Unit
unfolding validation_problems
validate_bank bank blueprint =
    let problems = validation_problems bank blueprint in
    if no_elements problems then ok tt else err problems

-- `Omit<Item, "correctIndex">`.
pub record PaperItem : Type 0 where
  pub id : Text
  pub subject : Text
  pub difficulty : Difficulty
  pub body : Text
  pub options : List Text

pub record PaperBundleContent : Type 0 where
  pub exam_id : Text
  pub blueprint : Blueprint
  pub items : List PaperItem

pub record Answer : Type 0 where
  pub id : Text
  pub correct_index : ℕ

pub record AnswerBundleContent : Type 0 where
  pub exam_id : Text
  pub answers : List Answer

abbrev pub drop_answer : Item → PaperItem
drop_answer item = record {
  id = item.id;
  subject = item.subject;
  difficulty = item.difficulty;
  body = item.body;
  options = item.options;
}

abbrev pub answer_of : Item → Answer
answer_of item = record { id = item.id; correct_index = item.correct_index }

unfoldable pub split_bank : ItemBank → Blueprint → PaperBundleContent × AnswerBundleContent
split_bank bank blueprint = (
  record { exam_id = bank.exam_id; blueprint = blueprint; items = map drop_answer bank.items },
  record { exam_id = bank.exam_id; answers = map answer_of bank.items },
)
