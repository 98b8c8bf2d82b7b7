-- ===== src/Centre/Assemble/Validated.antt =====
-- packages/centre/src/assemble.ts on the paper bundle of a bank that packages/authority/src/bank.ts
-- has validated.
use zero_window.Prelude.{
  ℕ, suc, ◌+◌, ◌≤◌, ◌≡◌, refl, sym, ap, ◌∙◌, true, false, Bytes, Text, List, [], ◌∷◌, map, length,
  ltb, equals, equals_iff, ok, err, and_then, err-injective, Result-cases, inl, inr, arith,
  taken_else,
}
use zero_window.Prelude.Sort.{sort_by, insert_sorted}
use zero_window.Crypto.Sodium.{Sodium, SodiumLaws}
use zero_window.Crypto.Hash.{codes, length-domain_hash}
use zero_window.Encoding.{utf8}
use zero_window.Authority.Bank.{
  Item, ItemBank, BlueprintSlot, Blueprint, PaperItem, drop_answer, pool_size, split_bank,
  validate_bank,
}
use zero_window.Authority.Bank.Validity.{AreFilled, validate_bank_iff}
use zero_window.Centre.Prng.{Stream, PrngError, no_draw, open_stream, sample, shuffle}
use zero_window.Centre.Prng.Shuffle.{shuffle_error}
use zero_window.Centre.Prng.Sample.{sample_error}
use zero_window.Centre.Assemble.{
  AssemblyError, stream_failed, bundle_too_small, lift_stream, matching, item_key, slot_pool,
  indices, paper_seed, print_items, print_slot, print_slots, assemble_paper,
}

length-insert_sorted :
    (x : PaperItem) (xs : List PaperItem) → length (insert_sorted item_key x xs) ≡ suc (length xs)
unfolding insert_sorted
length-insert_sorted x [] = refl
length-insert_sorted x (y ∷ ys) = ground (arith, length-insert_sorted x ys)

length-sort_by : (xs : List PaperItem) → length (sort_by item_key xs) ≡ length xs
unfolding sort_by
length-sort_by [] = refl
length-sort_by (x ∷ xs) = length-insert_sorted x (sort_by item_key xs) ∙ ap suc (length-sort_by xs)

length-matching :
    (slot : BlueprintSlot) (items : List Item)
    → length (matching slot (map drop_answer items)) ≡ pool_size slot items
unfolding matching pool_size
length-matching slot [] = refl
length-matching slot (item ∷ items) = ground (arith, length-matching slot items)

length-slot_pool :
    (slot : BlueprintSlot) (items : List Item)
    → length (slot_pool slot (map drop_answer items)) ≡ pool_size slot items
unfolding slot_pool
length-slot_pool slot items =
    length-sort_by (matching slot (map drop_answer items)) ∙ length-matching slot items

-- An error that no paper of a validated bank can have, but for a stream without an end of draws.
abbrev IsNoDraw : AssemblyError → Type 0
IsNoDraw e = e ≡ stream_failed no_draw

open_stream-ok : (seed : Bytes) {p : PrngError} → length seed ≡ 32 → open_stream seed ≡ err p → ⊥
unfolding open_stream
open_stream-ok seed size h = ground arith

module _ (sodium : Sodium) where
  print_items_error :
      (f number : ℕ) (items : List PaperItem) (s : Stream) {e : AssemblyError}
      → print_items sodium f number items s ≡ err e
      → IsNoDraw e
  unfolding print_items
  print_items_error f number [] s h = absurd cc
  print_items_error f number (item ∷ items) s {e} h =
      elim (Result-cases (shuffle sodium f (indices (length item.options)) s)) [
        | inr (p, failed) ↦
            sym (err-injective (rw (failed, lift_stream, and_then) at h))
            ∙ ap stream_failed (shuffle_error sodium f (indices (length item.options)) s failed)
        | inl ((order, s1), shuffled) ↦
            elim (Result-cases (print_items sodium f (number + 1) items s1)) [
              | inr (e1, failed) ↦
                  sym (err-injective (rw (shuffled, lift_stream, and_then, failed) at h))
                  ∙ print_items_error f (number + 1) items s1 failed
              | inl (r, printed) ↦ absurd (ground arith)
            ]
      ]

  print_slot_error :
      (f number : ℕ) (slot : BlueprintSlot) (items : List PaperItem) (s : Stream)
      {e : AssemblyError}
      → slot.count ≤ length (slot_pool slot items)
      → print_slot sodium f number slot items s ≡ err e
      → IsNoDraw e
  unfolding print_slot
  print_slot_error f number slot items s {e} fits h =
      let pool = slot_pool slot items in
      let enough : ltb (length pool) slot.count ≡ false = ground arith in
      let drawn_from =
        taken_else (ltb (length pool) slot.count) (err (bundle_too_small slot (length pool))) enough
          h in
      elim (Result-cases (sample sodium f pool slot.count s)) [
        | inr (p, failed) ↦
            sym (err-injective (rw (failed, lift_stream, and_then) at drawn_from))
            ∙ ap stream_failed (sample_error sodium f pool slot.count s fits failed)
        | inl ((drawn, s1), sampled) ↦
            print_items_error f number drawn s1 (rw (sampled, lift_stream, and_then) at drawn_from)
      ]

  print_slots_error :
      (f number : ℕ) (slots : List BlueprintSlot) (items : List Item) (s : Stream)
      {e : AssemblyError}
      → AreFilled items slots
      → print_slots sodium f number slots (map drop_answer items) s ≡ err e
      → IsNoDraw e
  unfolding print_slots
  print_slots_error f number [] items s filled h = absurd cc
  print_slots_error f number (slot ∷ slots) items s {e} filled h =
      elim (Result-cases (print_slot sodium f number slot (map drop_answer items) s)) [
        | inr (e1, failed) ↦
            let size = length-slot_pool slot items in
            let (positive, fits, others) = filled in
            sym (err-injective (rw (failed, and_then) at h))
            ∙ print_slot_error f number slot (map drop_answer items) s (rw size fits) failed
        | inl ((first, s1), printed) ↦
            elim (Result-cases
              (print_slots sodium f (number + length first) slots (map drop_answer items) s1)) [
                | inr (e1, failed) ↦
                    sym (err-injective (rw (printed, and_then, failed) at h))
                    ∙ (let (positive, fits, others) = filled in
                        print_slots_error f (number + length first) slots items s1 others failed)
                | inl (r, more) ↦ absurd (ground arith)
              ]
      ]

  length-paper_seed :
      SodiumLaws sodium
      → (exam_id centre_id : Text) (token_hash : Bytes)
      → length (paper_seed sodium exam_id centre_id token_hash) ≡ 32
  unfolding paper_seed
  length-paper_seed laws exam_id centre_id token_hash =
      length-domain_hash sodium laws (codes "paper-seed")
        (utf8 exam_id ∷ utf8 (codes " ") ∷ utf8 centre_id ∷ utf8 (codes " ") ∷ token_hash ∷ [])

  -- On the paper bundle of a bank that `validateBank` has accepted, nothing that `assemblePaper`
  -- checks fails, for any centre, seat and token: its only error is that a draw ran out of tries.
  pub assemble_paper-validate_bank :
      SodiumLaws sodium
      → (f : ℕ) (bank : ItemBank) (blueprint : Blueprint) (centre_id seat : Text)
        (token_hash : Bytes) {e : AssemblyError}
      → validate_bank bank blueprint ≡ ok tt
      → assemble_paper sodium f (split_bank bank blueprint).0 centre_id seat token_hash ≡ err e
      → e ≡ stream_failed no_draw
  unfolding assemble_paper split_bank
  assemble_paper-validate_bank laws f bank blueprint centre_id seat token_hash {e} valid h =
      let (same_exam, some_items, complete, distinct, filled, some_slots) =
        (validate_bank_iff bank blueprint).0 valid in
      let agree : equals blueprint.exam_id bank.exam_id ≡ true =
        (equals_iff blueprint.exam_id bank.exam_id).1 (sym same_exam) in
      let seed = paper_seed sodium bank.exam_id centre_id token_hash in
      let size = length-paper_seed laws bank.exam_id centre_id token_hash in
      elim (Result-cases (open_stream seed)) [
        | inr (p, failed) ↦ absurd (open_stream-ok seed size failed)
        | inl (s, opened) ↦
            elim (Result-cases
              (print_slots sodium f 1 blueprint.slots (map drop_answer bank.items) s)) [
                | inr (e1, failed) ↦
                    sym (err-injective (rw (agree, opened, lift_stream, and_then, failed) at h))
                    ∙ print_slots_error f 1 blueprint.slots bank.items s filled failed
                | inl (r, printed) ↦ absurd (ground arith)
              ]
      ]
