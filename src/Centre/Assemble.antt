-- ===== src/Centre/Assemble.antt =====
-- packages/centre/src/assemble.ts: the paper of a candidate, assembled from the bundle.
pub mod Order
pub mod Drawn
pub mod Validated
use zero_window.Prelude.{
  ℕ, zero, suc, ◌+◌, Bool, true, false, ◌&&◌, not, Bytes, Text, List, [], ◌∷◌, ◌++◌, map, length,
  get_or, ltb, equals, if◌then◌else◌, Result, ok, err, map_ok, and_then,
}
use zero_window.Prelude.Sort.{sort_by}
use zero_window.Encoding.{utf8, to_hex}
use zero_window.Crypto.Sodium.{Sodium}
use zero_window.Crypto.Hash.{codes, domain_hash}
use zero_window.Authority.Bank.{
  Difficulty, BlueprintSlot, Blueprint, PaperItem, PaperBundleContent, fits_slot, same_difficulty,
}
use zero_window.Centre.Prng.{Stream, PrngError, open_stream, sample, shuffle}

pub record AssembledQuestion : Type 0 where
  pub number : ℕ
  pub item_id : Text
  pub subject : Text
  pub difficulty : Difficulty
  pub body : Text
  pub options : List Text
  pub option_order : List ℕ

pub record AssembledPaper : Type 0 where
  pub exam_id : Text
  pub centre_id : Text
  pub seat : Text
  pub token_hash_hex : Text
  pub title : Text
  pub duration_minutes : ℕ
  pub questions : List AssembledQuestion

pub data AssemblyError : Type 0 where
  inconsistent_bundle : Text → Text → AssemblyError
  bundle_too_small : BlueprintSlot → ℕ → AssemblyError
  stream_failed : PrngError → AssemblyError

abbrev pub lift_stream : {A : Type 0} → Result PrngError A → Result AssemblyError A
lift_stream (ok a) = ok a
lift_stream (err e) = err (stream_failed e)

-- `content.items.filter(...)` for a slot.
unfoldable pub matching : BlueprintSlot → List PaperItem → List PaperItem
unfolding same_difficulty equals
matching slot [] = []
matching slot (item ∷ items) =
    if fits_slot slot item.subject item.difficulty
    then item ∷ matching slot items
    else matching slot items

abbrev pub item_key : PaperItem → Text
item_key item = item.id

unfoldable pub slot_pool : BlueprintSlot → List PaperItem → List PaperItem
unfolding matching sort_by
slot_pool slot items = sort_by item_key (matching slot items)

-- The places of a list of n options.
abbrev pub indices_from : ℕ → ℕ → List ℕ
indices_from i zero = []
indices_from i (suc n) = i ∷ indices_from (i + 1) n

abbrev pub indices : ℕ → List ℕ
indices n = indices_from 0 n

abbrev pub printed_options : PaperItem → List ℕ → List Text
printed_options item order = map (λ i. get_or item.options i []) order

abbrev pub question : ℕ → PaperItem → List ℕ → AssembledQuestion
question number item option_order = record {
  number = number;
  item_id = item.id;
  subject = item.subject;
  difficulty = item.difficulty;
  body = item.body;
  options = printed_options item option_order;
  option_order = option_order;
}

module _ (sodium : Sodium) where
  unfoldable pub paper_seed : Text → Text → Bytes → Bytes
  unfolding domain_hash utf8
  paper_seed exam_id centre_id token_hash =
      domain_hash sodium (codes "paper-seed")
        (utf8 exam_id ∷ utf8 (codes " ") ∷ utf8 centre_id ∷ utf8 (codes " ") ∷ token_hash ∷ [])

  -- The inner loop over the items drawn, with the number of the next question.
  unfoldable pub print_items :
      ℕ → ℕ → List PaperItem → Stream → Result AssemblyError (List AssembledQuestion × Stream)
  unfolding shuffle
  print_items f number [] s = ok ([], s)
  print_items f number (item ∷ items) s =
      and_then (lift_stream (shuffle sodium f (indices (length item.options)) s)) (λ d.
        map_ok (λ r. (question number item d.0 ∷ r.0, r.1)) (print_items f (number + 1) items d.1))

  unfoldable pub print_slot :
      ℕ
      → ℕ
      → BlueprintSlot
      → List PaperItem
      → Stream
      → Result AssemblyError (List AssembledQuestion × Stream)
  unfolding slot_pool sample print_items
  print_slot f number slot items s =
      let pool = slot_pool slot items in
      if ltb (length pool) slot.count
      then err (bundle_too_small slot (length pool))
      else and_then (lift_stream (sample sodium f pool slot.count s))
          (λ d. print_items f number d.0 d.1)

  -- The loop over the slots.
  unfoldable pub print_slots :
      ℕ
      → ℕ
      → List BlueprintSlot
      → List PaperItem
      → Stream
      → Result AssemblyError (List AssembledQuestion × Stream)
  unfolding print_slot
  print_slots f number [] items s = ok ([], s)
  print_slots f number (slot ∷ slots) items s =
      and_then (print_slot f number slot items s)
        (λ d. map_ok (λ r. (d.0 ++ r.0, r.1)) (print_slots f (number + length d.0) slots items d.1))

  unfoldable pub assemble_paper :
      ℕ → PaperBundleContent → Text → Text → Bytes → Result AssemblyError AssembledPaper
  unfolding paper_seed open_stream print_slots equals to_hex
  assemble_paper f content centre_id seat token_hash =
      let blueprint = content.blueprint in
      if not (equals blueprint.exam_id content.exam_id)
      then err (inconsistent_bundle blueprint.exam_id content.exam_id)
      else and_then (lift_stream (open_stream (paper_seed content.exam_id centre_id token_hash)))
          (λ stream.
            map_ok
              (λ r. record {
                exam_id = content.exam_id;
                centre_id = centre_id;
                seat = seat;
                token_hash_hex = to_hex token_hash;
                title = blueprint.title;
                duration_minutes = blueprint.duration_minutes;
                questions = r.0;
              })
              (print_slots f 1 blueprint.slots content.items stream))
