-- ===== src/Centre/Assemble/Drawn.antt =====
-- packages/centre/src/assemble.ts: what is printed on a paper.
use zero_window.Prelude.{
  ℕ, ◌+◌, ◌≡◌, refl, sym, ap, subst, Bytes, Text, List, [], ◌∷◌, ◌++◌, length, map, get_or, equals,
  ok, err, and_then, Bool-cases, Result-cases, ok-injective, taken_else, inl, inr, arith, ltb,
}
use mathlib.Core.List.{Perm, Permᴰ}
use zero_window.Prelude.Sort.{sort_by-permutes}
use zero_window.Crypto.Sodium.{Sodium}
use zero_window.Authority.Bank.{BlueprintSlot, PaperItem, PaperBundleContent}
use zero_window.Centre.Prng.{Stream, open_stream, sample, shuffle}
use zero_window.Centre.Prng.Shuffle.{shuffle-perm}
use zero_window.Centre.Prng.Sample.{sample-perm}
use zero_window.Centre.Assemble.{
  AssembledPaper, AssembledQuestion, matching, item_key, slot_pool, print_items, print_slot,
  print_slots, assemble_paper, bundle_too_small, indices, lift_stream, paper_seed,
}

-- The questions print these items one after the other, numbered from the first number on; the
-- options of each stand in the order that the question records, in which every option has one place.
abbrev pub ArePrinted : ℕ → List PaperItem → List AssembledQuestion → Type 0
ArePrinted number [] [] = Unit
ArePrinted number [] (q ∷ qs) = ⊥
ArePrinted number (item ∷ items) [] = ⊥
ArePrinted number (item ∷ items) (q ∷ qs) =
    (q.number ≡ number)
    × (q.item_id ≡ item.id)
    × (q.subject ≡ item.subject)
    × (q.difficulty ≡ item.difficulty)
    × (q.body ≡ item.body)
    × (Perm q.option_order (indices (length item.options)))
    × (q.options ≡ map (λ i. get_or item.options i []) q.option_order)
    × ArePrinted (number + 1) items qs

-- The questions are, slot by slot, as many items of the slot's subject and difficulty as it counts,
-- each place of the bundle at most once.
abbrev pub AreDrawn : List PaperItem → ℕ → List BlueprintSlot → List AssembledQuestion → Type 0
AreDrawn items number [] qs = qs ≡ []
AreDrawn items number (slot ∷ slots) qs =
    (drawn : List PaperItem) × (rest : List PaperItem) × (first : List AssembledQuestion)
    × (others : List AssembledQuestion) × (qs ≡ first ++ others)
    × (length drawn ≡ slot.count)
    × Permᴰ (drawn ++ rest) (matching slot items)
    × ArePrinted number drawn first
    × AreDrawn items (number + length first) slots others

module _ (sodium : Sodium) where
  print_items-ArePrinted :
      (f number : ℕ) (items : List PaperItem) (s : Stream) {qs : List AssembledQuestion}
      {s' : Stream}
      → print_items sodium f number items s ≡ ok (qs, s')
      → ArePrinted number items qs
  unfolding print_items
  print_items-ArePrinted f number [] s {qs} h =
      let e : [] ≡ qs = ap (λ t. t.0) (ok-injective h) in subst (ArePrinted number []) e tt
  print_items-ArePrinted f number (item ∷ items) s {qs} h =
      elim (Result-cases (shuffle sodium f (indices (length item.options)) s)) [
        | inr (e, failed) ↦ absurd (ground arith)
        | inl ((order, s1), shuffled) ↦
            elim (Result-cases (print_items sodium f (number + 1) items s1)) [
              | inr (e, failed) ↦ absurd (ground arith)
              | inl ((qs1, s2), printed) ↦
                  let e =
                    ap (λ t. t.0)
                      (ok-injective (rw (shuffled, lift_stream, and_then, printed) at h)) in
                  subst (ArePrinted number (item ∷ items)) e (
                    refl,
                    refl,
                    refl,
                    refl,
                    refl,
                    shuffle-perm sodium f (indices (length item.options)) s shuffled,
                    refl,
                    print_items-ArePrinted f (number + 1) items s1 printed,
                  )
            ]
      ]

  -- One slot: what `AreDrawn` says of its questions.
  abbrev IsSlot : List PaperItem → ℕ → BlueprintSlot → List AssembledQuestion → Type 0
  IsSlot items number slot first =
      (drawn : List PaperItem) × (rest : List PaperItem) × (length drawn ≡ slot.count)
      × Permᴰ (drawn ++ rest) (matching slot items)
      × ArePrinted number drawn first

  print_slot-IsSlot :
      (f number : ℕ) (slot : BlueprintSlot) (items : List PaperItem) (s : Stream)
      {qs : List AssembledQuestion} {s' : Stream}
      → print_slot sodium f number slot items s ≡ ok (qs, s')
      → IsSlot items number slot qs
  unfolding print_slot slot_pool
  print_slot-IsSlot f number slot items s {qs} h =
      elim (Bool-cases (ltb (length (slot_pool slot items)) slot.count)) [
        | inl short ↦ absurd (ground arith)
        | inr enough ↦ elim (Result-cases (sample sodium f (slot_pool slot items) slot.count s)) [
          | inr (e, failed) ↦ absurd (ground arith)
          | inl ((drawn, s1), sampled) ↦
              let (size, rest, all) =
                sample-perm sodium f (slot_pool slot items) slot.count s sampled in
              let printed =
                rw (sampled, lift_stream, and_then) at
                  (taken_else (ltb (length (slot_pool slot items)) slot.count)
                    (err (bundle_too_small slot (length (slot_pool slot items)))) enough h) in
              (
                drawn,
                rest,
                size,
                Permᴰ.trans all (sort_by-permutes item_key (matching slot items)),
                print_items-ArePrinted f number drawn s1 printed,
              )
        ]
      ]

  print_slots-AreDrawn :
      (f number : ℕ) (slots : List BlueprintSlot) (items : List PaperItem) (s : Stream)
      {qs : List AssembledQuestion} {s' : Stream}
      → print_slots sodium f number slots items s ≡ ok (qs, s')
      → AreDrawn items number slots qs
  unfolding print_slots
  print_slots-AreDrawn f number [] items s h = sym (ap (λ t. t.0) (ok-injective h))
  print_slots-AreDrawn f number (slot ∷ slots) items s h =
      elim (Result-cases (print_slot sodium f number slot items s)) [
        | inr (e, failed) ↦ absurd (ground arith)
        | inl ((first, s1), printed) ↦
            elim (Result-cases (print_slots sodium f (number + length first) slots items s1)) [
              | inr (e, failed) ↦ absurd (ground arith)
              | inl ((others, s2), more) ↦
                  let e = ap (λ t. t.0) (ok-injective (rw (printed, and_then, more) at h)) in
                  let (drawn, rest, size, all, questions) =
                    print_slot-IsSlot f number slot items s printed in
                  (
                    drawn,
                    rest,
                    first,
                    others,
                    sym e,
                    size,
                    all,
                    questions,
                    print_slots-AreDrawn f (number + length first) slots items s1 more,
                  )
            ]
      ]

  -- On a paper that is assembled, the questions are numbered from one on, and are, slot by slot in
  -- the blueprint's order, as many items of the slot's subject and difficulty as it counts, no
  -- place of the bundle twice in a slot. Each question has its item's text, and its options are
  -- those of the item in the order that `option_order` records, a rearrangement of all of them.
  pub assemble_paper-AreDrawn :
      (f : ℕ) (content : PaperBundleContent) (centre_id seat : Text) (token_hash : Bytes)
      {paper : AssembledPaper}
      → assemble_paper sodium f content centre_id seat token_hash ≡ ok paper
      → AreDrawn content.items 1 content.blueprint.slots paper.questions
  unfolding assemble_paper
  assemble_paper-AreDrawn f content centre_id seat token_hash {paper} h =
      elim (Bool-cases (equals content.blueprint.exam_id content.exam_id)) [
        | inr differ ↦ absurd (ground arith)
        | inl agree ↦
            elim (Result-cases
              (open_stream (paper_seed sodium content.exam_id centre_id token_hash))) [
                | inr (e, failed) ↦ absurd (ground arith)
                | inl (s, opened) ↦
                    elim (Result-cases
                      (print_slots sodium f 1 content.blueprint.slots content.items s)) [
                        | inr (e, failed) ↦ absurd (ground arith)
                        | inl ((qs, s'), printed) ↦
                            let e =
                              ok-injective
                                (rw (agree, opened, lift_stream, and_then, printed) at h) in
                            subst (AreDrawn content.items 1 content.blueprint.slots)
                              (ap (λ p. p.questions) e)
                              (print_slots-AreDrawn f 1 content.blueprint.slots content.items s
                                printed)
                      ]
              ]
      ]
