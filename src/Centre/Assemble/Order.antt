-- ===== src/Centre/Assemble/Order.antt =====
-- packages/centre/src/assemble.ts: the paper does not depend on the order in which the bundle
-- stores its items.
use zero_window.Prelude.{
  ℕ, ◌+◌, ◌≡◌, refl, ap, ap₂, subst, Bytes, Text, List, [], ◌∷◌, ◌++◌, length, Result, map_ok,
  and_then, fun_ext, Bool-cases, inl, inr,
}
use mathlib.Core.List.{Permᴰ}
use mathlib.Core.List.Permᴰ
use zero_window.Prelude.Sort.{HasDistinctKeys, IsFresh, sort_by-perm}
use zero_window.Crypto.Sodium.{Sodium}
use zero_window.Authority.Bank.{BlueprintSlot, PaperItem, PaperBundleContent, fits_slot}
use zero_window.Centre.Prng.{Stream}
use zero_window.Centre.Assemble.{
  AssembledQuestion, AssemblyError, matching, item_key, slot_pool, print_slot, print_slots,
  assemble_paper,
}

module _ (slot : BlueprintSlot) where
  matching-same_head :
      (a : PaperItem) (xs ys : List PaperItem)
      → Permᴰ (matching slot xs) (matching slot ys)
      → Permᴰ (matching slot (a ∷ xs)) (matching slot (a ∷ ys))
  unfolding matching
  matching-same_head a xs ys p = elim (Bool-cases (fits_slot slot a.subject a.difficulty)) [
    | inl fits ↦ rw (fits) (Permᴰ.cons refl p)
    | inr misfit ↦ rw (misfit) p
  ]

  matching-same_swap :
      (a b : PaperItem) (l : List PaperItem)
      → Permᴰ (matching slot (a ∷ b ∷ l)) (matching slot (b ∷ a ∷ l))
  unfolding matching
  matching-same_swap a b l = elim (Bool-cases (fits_slot slot a.subject a.difficulty)) [
    | inl fits_a ↦ elim (Bool-cases (fits_slot slot b.subject b.difficulty)) [
      | inl fits_b ↦ rw (fits_a, fits_b) (Permᴰ.swap refl refl)
      | inr misfit_b ↦ rw (fits_a, misfit_b) (Permᴰ.refl (a ∷ matching slot l))
    ]
    | inr misfit_a ↦ rw (misfit_a) (Permᴰ.refl (matching slot (b ∷ l)))
  ]

  matching-Permᴰ :
      {xs ys : List PaperItem} → Permᴰ xs ys → Permᴰ (matching slot xs) (matching slot ys)
  matching-Permᴰ Permᴰ.nil = Permᴰ.refl (matching slot [])
  matching-Permᴰ (Permᴰ.cons {a = a} {l₁ = xs} {l₂ = ys} e p) =
      subst (λ b. Permᴰ (matching slot (a ∷ xs)) (matching slot (b ∷ ys))) e
        (matching-same_head a xs ys (matching-Permᴰ p))
  matching-Permᴰ (Permᴰ.swap {a = a} {b = b} {l = l} e e') =
      subst
        (λ (x : PaperItem × PaperItem).
          Permᴰ (matching slot (a ∷ b ∷ l)) (matching slot (x.0 ∷ x.1 ∷ l)))
        (ap₂ (λ x y. (x, y)) e' e) (matching-same_swap a b l)
  matching-Permᴰ (Permᴰ.trans p q) = Permᴰ.trans (matching-Permᴰ p) (matching-Permᴰ q)

  matching-IsFresh :
      (k : Text) (xs : List PaperItem)
      → IsFresh item_key k xs
      → IsFresh item_key k (matching slot xs)
  unfolding matching
  matching-IsFresh k [] h = h
  matching-IsFresh k (x ∷ xs) h = elim (Bool-cases (fits_slot slot x.subject x.difficulty)) [
    | inl fits ↦ rw (fits) (h.0, matching-IsFresh k xs h.1)
    | inr misfit ↦ rw (misfit) (matching-IsFresh k xs h.1)
  ]

  matching-HasDistinctKeys :
      (xs : List PaperItem)
      → HasDistinctKeys item_key xs
      → HasDistinctKeys item_key (matching slot xs)
  unfolding matching
  matching-HasDistinctKeys [] h = h
  matching-HasDistinctKeys (x ∷ xs) h = elim (Bool-cases (fits_slot slot x.subject x.difficulty)) [
    | inl fits ↦ rw (fits) (matching-IsFresh x.id xs h.0, matching-HasDistinctKeys xs h.1)
    | inr misfit ↦ rw (misfit) (matching-HasDistinctKeys xs h.1)
  ]

  slot_pool-Permᴰ :
      {xs ys : List PaperItem}
      → Permᴰ xs ys
      → HasDistinctKeys item_key xs
      → slot_pool slot xs ≡ slot_pool slot ys
  unfolding slot_pool
  slot_pool-Permᴰ {xs} p distinct =
      sort_by-perm item_key (matching-Permᴰ p) (matching-HasDistinctKeys xs distinct)

module _ (sodium : Sodium) {xs ys : List PaperItem} (p : Permᴰ xs ys)
    (distinct : HasDistinctKeys item_key xs) where
  print_slot-Permᴰ :
      (f number : ℕ) (slot : BlueprintSlot) (s : Stream)
      → print_slot sodium f number slot xs s ≡ print_slot sodium f number slot ys s
  unfolding print_slot
  print_slot-Permᴰ f number slot s = rw (slot_pool-Permᴰ slot p distinct) refl

  print_slots-Permᴰ :
      (f number : ℕ) (slots : List BlueprintSlot) (s : Stream)
      → print_slots sodium f number slots xs s ≡ print_slots sodium f number slots ys s
  unfolding print_slots
  print_slots-Permᴰ f number [] s = refl
  print_slots-Permᴰ f number (slot ∷ slots) s =
      ap₂
        (λ printed
            (go : List AssembledQuestion × Stream
              → Result AssemblyError (List AssembledQuestion × Stream)).
          and_then printed go)
        (print_slot-Permᴰ f number slot s)
        (fun_ext (λ d.
          ap (map_ok (λ r. (d.0 ++ r.0, r.1)))
            (print_slots-Permᴰ f (number + length d.0) slots d.1)))

-- Two bundles that hold the same items in different orders, no id twice, and are otherwise equal
-- give every candidate the same paper, or the same error.
pub assemble_paper-Permᴰ :
    (sodium : Sodium) (f : ℕ) (content : PaperBundleContent) (items : List PaperItem)
    → Permᴰ content.items items
    → HasDistinctKeys item_key content.items
    → (centre_id seat : Text) (token_hash : Bytes)
    → assemble_paper sodium f content centre_id seat token_hash
      ≡ assemble_paper sodium f (record content { items = items }) centre_id seat token_hash
unfolding assemble_paper
assemble_paper-Permᴰ sodium f content items p distinct centre_id seat token_hash =
    rw (fun_ext (print_slots-Permᴰ sodium p distinct f 1 content.blueprint.slots)) refl
