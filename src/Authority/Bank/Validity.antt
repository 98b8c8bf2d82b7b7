-- ===== src/Authority/Bank/Validity.antt =====
-- packages/authority/src/bank.ts: what `validateBank` accepts.
use zero_window.Prelude.{
  ℕ, ◌+◌, ◌≤◌, ◌<◌, ◌≡◌, ◌≢◌, ◌↔◌, refl, Bool, true, false, not, Text, List, [], ◌∷◌, ◌++◌, length,
  ltb, leb, ◌==◌, equals, equals_iff, if◌then◌else◌, Result, ok, err, arith,
}
use zero_window.Prelude.Sort.{HasDistinctKeys, IsFresh}
use zero_window.Authority.Bank.{
  Item, ItemBank, BlueprintSlot, Blueprint, Problem, is_blank, some_blank, is_empty, has, report,
  see, id_problems, option_problems, item_problems, items_problems, duplicate_id, missing_subject,
  empty_body, empty_option, correct_index_out_of_range, count_not_positive, pool_too_small,
  wrong_exam, no_items, no_slots, pool_size, slot_problems, no_elements, validation_problems,
  validate_bank,
}

abbrev pub item_id : Item → Text
item_id item = item.id

abbrev pub AreNotBlank : List Text → Type 0
AreNotBlank [] = Unit
AreNotBlank (o ∷ os) = (is_blank o ≡ false) × AreNotBlank os

abbrev pub IsValidItem : Item → Type 0
IsValidItem item =
    (item.id ≢ [])
    × (item.subject ≢ [])
    × (is_blank item.body ≡ false)
    × (2 ≤ length item.options)
    × AreNotBlank item.options
    × (item.correct_index < length item.options)

abbrev pub AreValidItems : List Item → Type 0
AreValidItems [] = Unit
AreValidItems (item ∷ items) = IsValidItem item × AreValidItems items

abbrev pub AreFilled : List Item → List BlueprintSlot → Type 0
AreFilled items [] = Unit
AreFilled items (slot ∷ slots) =
    (0 < slot.count) × (slot.count ≤ pool_size slot items) × AreFilled items slots

-- The bank serves the blueprint: same exam, some items, some slots, each item complete, no id
-- twice, and each slot asks for at least one item and for no more than there are.
abbrev pub IsValidBank : ItemBank → Blueprint → Type 0
IsValidBank bank blueprint =
    (bank.exam_id ≡ blueprint.exam_id)
    × (bank.items ≢ [])
    × AreValidItems bank.items
    × HasDistinctKeys item_id bank.items
    × AreFilled bank.items blueprint.slots
    × (blueprint.slots ≢ [])

report_iff : (b : Bool) (p : Problem) → (report b p ≡ []) ↔ (b ≡ false)
report_iff true p = ((λ h. absurd cc), (λ h. absurd cc))
report_iff false p = ((λ h. refl), (λ h. refl))

append-nil_iff : (xs ys : List Problem) → ((xs ++ ys) ≡ []) ↔ ((xs ≡ []) × (ys ≡ []))
append-nil_iff [] ys = ((λ h. (refl, h)), (λ h. h.1))
append-nil_iff (x ∷ xs) ys = ((λ h. absurd cc), (λ h. absurd cc))

some_blank_iff : (os : List Text) → (some_blank os ≡ false) ↔ AreNotBlank os
unfolding some_blank
some_blank_iff [] = ((λ h. tt), (λ h. refl))
some_blank_iff (o ∷ os) = ground (arith, some_blank_iff os)

is_empty_iff {ℓ} : {A : Type ℓ} (xs : List A) → (no_elements xs ≡ false) ↔ (xs ≢ [])
is_empty_iff [] = ((λ h. absurd cc), (λ h. absurd (h refl)))
is_empty_iff (x ∷ xs) = ((λ h e. absurd cc), (λ h. refl))

empty_text_iff : (t : Text) → (is_empty t ≡ false) ↔ (t ≢ [])
empty_text_iff [] = ((λ h. absurd cc), (λ h. absurd (h refl)))
empty_text_iff (x ∷ xs) = ((λ h e. absurd cc), (λ h. refl))

slot_problems_iff :
    (items : List Item) (slots : List BlueprintSlot)
    → (slot_problems items slots ≡ []) ↔ AreFilled items slots
unfolding slot_problems
slot_problems_iff items [] = ((λ h. tt), (λ h. refl))
slot_problems_iff items (slot ∷ slots) =
    let a = report (slot.count == 0) (count_not_positive slot) in
    let b = report (ltb (pool_size slot items) slot.count) (pool_too_small slot) in
    let c = slot_problems items slots in
    let ha = report_iff (slot.count == 0) (count_not_positive slot) in
    let hb = report_iff (ltb (pool_size slot items) slot.count) (pool_too_small slot) in
    let hc = slot_problems_iff items slots in
    let outer = append-nil_iff a (b ++ c) in let inner = append-nil_iff b c in ground arith

abbrev AreUnseen : List Text → List Item → Type 0
AreUnseen seen [] = Unit
AreUnseen seen (item ∷ items) = (has seen item.id ≡ false) × AreUnseen seen items

AreUnseen-cons :
    (k : Text) (seen : List Text) (items : List Item)
    → AreUnseen (k ∷ seen) items ↔ (IsFresh item_id k items × AreUnseen seen items)
unfolding has
AreUnseen-cons k seen [] = ((λ h. (tt, tt)), (λ h. tt))
AreUnseen-cons k seen (item ∷ items) =
    ground (arith, equals_iff k item.id, AreUnseen-cons k seen items)

AreUnseen-nil : (items : List Item) → AreUnseen [] items
unfolding has
AreUnseen-nil [] = tt
AreUnseen-nil (item ∷ items) = (refl, AreUnseen-nil items)

id_problems_iff :
    (i : ℕ) (seen : List Text) (id : Text)
    → (id_problems i seen id ≡ []) ↔ ((id ≢ []) × (has seen id ≡ false))
unfolding id_problems
id_problems_iff i seen [] = ((λ h. absurd cc), (λ h. absurd (h.0 refl)))
id_problems_iff i seen (c ∷ id) =
    let filled : (c ∷ id) ≢ [] = λ e. absurd cc in
    let reported = report_iff (has seen (c ∷ id)) (duplicate_id i) in
    ((λ h. (filled, reported.0 h)), (λ h. reported.1 h.1))

option_problems_iff :
    (i : ℕ) (os : List Text) → (option_problems i os ≡ []) ↔ ((2 ≤ length os) × AreNotBlank os)
unfolding option_problems
option_problems_iff i os =
    ground (arith, some_blank_iff os, report_iff (some_blank os) (empty_option i))

item_problems_iff :
    (i : ℕ) (seen : List Text) (item : Item)
    → (item_problems i seen item ≡ []) ↔ (IsValidItem item × (has seen item.id ≡ false))
unfolding item_problems
item_problems_iff i seen item =
    let a = id_problems i seen item.id in
    let b = report (is_empty item.subject) (missing_subject i) in
    let c = report (is_blank item.body) (empty_body i) in
    let d = option_problems i item.options in
    let e = report (leb (length item.options) item.correct_index) (correct_index_out_of_range i) in
    let ha = id_problems_iff i seen item.id in
    let hb = report_iff (is_empty item.subject) (missing_subject i) in
    let hb' = empty_text_iff item.subject in
    let hc = report_iff (is_blank item.body) (empty_body i) in
    let hd = option_problems_iff i item.options in
    let he =
      report_iff (leb (length item.options) item.correct_index) (correct_index_out_of_range i) in
    let all = append-nil_iff a (b ++ c ++ d ++ e) in
    let from_b = append-nil_iff b (c ++ d ++ e) in
    let from_c = append-nil_iff c (d ++ e) in let from_d = append-nil_iff d e in ground arith

see_new : (seen : List Text) (id : Text) → id ≢ [] → has seen id ≡ false → see seen id ≡ id ∷ seen
unfolding see
see_new seen id filled unseen = ground (arith, empty_text_iff id)

items_problems_iff :
    (i : ℕ) (seen : List Text) (items : List Item)
    → (items_problems i seen items ≡ [])
      ↔ (AreValidItems items × HasDistinctKeys item_id items × AreUnseen seen items)
unfolding items_problems
items_problems_iff i seen [] = ((λ h. (tt, tt, tt)), (λ h. refl))
items_problems_iff i seen (item ∷ items) =
    let both =
      append-nil_iff (item_problems i seen item)
        (items_problems (i + 1) (see seen item.id) items) in
    let first = item_problems_iff i seen item in
    let others = items_problems_iff (i + 1) (item.id ∷ seen) items in
    let apart = AreUnseen-cons item.id seen items in
    (
      (λ h.
          let (valid, unseen) = first.0 (both.0 h).0 in
          let e = see_new seen item.id valid.0 unseen in
          let (valids, distinct, unseens) = others.0 (rw e at (both.0 h).1) in
          let (fresh, before) = apart.0 unseens in
          ((valid, valids), (fresh, distinct), (unseen, before))),
      (λ h.
          let ((valid, valids), (fresh, distinct), (unseen, before)) = h in
          let e = see_new seen item.id valid.0 unseen in
          both.1
            (first.1 (valid, unseen), rw e (others.1 (valids, distinct, apart.1 (fresh, before))))),
    )

validation_problems_iff :
    (bank : ItemBank) (blueprint : Blueprint)
    → (validation_problems bank blueprint ≡ []) ↔ IsValidBank bank blueprint
unfolding validation_problems
validation_problems_iff bank blueprint =
    let a = report (not (equals bank.exam_id blueprint.exam_id)) wrong_exam in
    let b = report (no_elements bank.items) no_items in
    let c = items_problems 0 [] bank.items in
    let d = slot_problems bank.items blueprint.slots in
    let e = report (no_elements blueprint.slots) no_slots in
    let ha = report_iff (not (equals bank.exam_id blueprint.exam_id)) wrong_exam in
    let same = equals_iff bank.exam_id blueprint.exam_id in
    let hb = report_iff (no_elements bank.items) no_items in
    let some_items = is_empty_iff bank.items in
    let hc = items_problems_iff 0 [] bank.items in
    let unseen = AreUnseen-nil bank.items in
    let hd = slot_problems_iff bank.items blueprint.slots in
    let he = report_iff (no_elements blueprint.slots) no_slots in
    let some_slots = is_empty_iff blueprint.slots in
    let all = append-nil_iff a (b ++ c ++ d ++ e) in
    let from_b = append-nil_iff b (c ++ d ++ e) in
    let from_c = append-nil_iff c (d ++ e) in let from_d = append-nil_iff d e in ground arith

accepted-nil :
    (ps : List Problem)
    → ◌≡◌ {A = Result (List Problem) Unit} (if no_elements ps then ok tt else err ps) (ok tt)
    → ps ≡ []
accepted-nil [] h = refl
accepted-nil (p ∷ ps) h = absurd cc

-- `validateBank` accepts a bank exactly if it serves the blueprint: same exam, some items and some
-- slots, each item complete, no id twice, and each slot asks for at least one item and for no
-- more than the bank has of its subject and difficulty.
pub validate_bank_iff :
    (bank : ItemBank) (blueprint : Blueprint)
    → (validate_bank bank blueprint ≡ ok tt) ↔ IsValidBank bank blueprint
unfolding validate_bank
validate_bank_iff bank blueprint =
    let h = validation_problems_iff bank blueprint in
    ((λ e. h.0 (accepted-nil (validation_problems bank blueprint) e)), (λ v. rw (h.1 v) refl))
