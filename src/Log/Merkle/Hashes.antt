-- ===== src/Log/Merkle/Hashes.antt =====
-- packages/log/src/merkle.ts: leaf and node hashes determine what they hash, up to a collision.
use zero_window.Prelude.{
  ℕ, zero, suc, ◌≡◌, ◌≢◌, ◌∙◌, sym, ◌⊎◌, inl, inr, Bytes, none, List, [], ◌∷◌, ◌++◌, length, take,
  drop, arith, Bool-cases, append-nil, equals, equals_iff,
}
use zero_window.Crypto.Sodium.{Sodium}
use zero_window.Log.Merkle.{leaf_hash, node_hash}

module _ (sodium : Sodium) where
  -- These two inputs are different and have one digest.
  abbrev pub AreColliding : Bytes → Bytes → Type 0
  AreColliding x y = (x ≢ y) × (sodium.generichash 32 none x ≡ sodium.generichash 32 none y)

  -- What is hashed for a leaf and for a node.
  abbrev pub leaf_input : Bytes → Bytes
  leaf_input a = 0 ∷ a ++ []

  abbrev pub node_input : Bytes → Bytes → Bytes
  node_input a b = 1 ∷ (a ++ (b ++ []))

  same_or_colliding :
      (x y : Bytes)
      → sodium.generichash 32 none x ≡ sodium.generichash 32 none y
      → (x ≡ y) ⊎ AreColliding x y
  same_or_colliding x y e = elim (Bool-cases (equals x y)) [
    | inl same ↦ inl ((equals_iff x y).0 same)
    | inr other ↦ inr ((λ p. ground (arith, equals_iff x y)), e)
  ]

  pub leaf_hash_inj :
      (a b : Bytes)
      → leaf_hash sodium a ≡ leaf_hash sodium b
      → (a ≡ b) ⊎ AreColliding (leaf_input a) (leaf_input b)
  unfolding leaf_hash
  leaf_hash_inj a b e = elim (same_or_colliding (0 ∷ a ++ []) (0 ∷ b ++ []) e) [
    | inl same ↦ inl (sym (append-nil a) ∙ tails same ∙ append-nil b)
    | inr c ↦ inr c
  ]
    where
      tails : ◌≡◌ {A = Bytes} (0 ∷ a ++ []) (0 ∷ b ++ []) → a ++ [] ≡ b ++ []
      tails p = cc

  -- Of two nodes with one hash the left parts agree, if they are digests of the tree, and the
  -- right parts too.
  pub node_hash_inj :
      (a b c d : Bytes)
      → node_hash sodium a b ≡ node_hash sodium c d
      → (a ++ b ≡ c ++ d) ⊎ AreColliding (node_input a b) (node_input c d)
  unfolding node_hash
  node_hash_inj a b c d e =
      elim (same_or_colliding (1 ∷ (a ++ (b ++ []))) (1 ∷ (c ++ (d ++ []))) e) [
        | inl same ↦ inl (tails same)
        | inr c ↦ inr c
      ]
    where
      tails : ◌≡◌ {A = Bytes} (1 ∷ (a ++ (b ++ []))) (1 ∷ (c ++ (d ++ []))) → a ++ b ≡ c ++ d
      tails p = let q : a ++ (b ++ []) ≡ c ++ (d ++ []) = cc in rw (append-nil b, append-nil d) at q

-- Every node is a digest.
abbrev pub AreDigests : List Bytes → Type 0
AreDigests [] = Unit
AreDigests (x ∷ xs) = (length x ≡ 32) × AreDigests xs

pub AreDigests-take : (n : ℕ) (xs : List Bytes) → AreDigests xs → AreDigests (take n xs)
AreDigests-take zero xs h = tt
AreDigests-take (suc n) [] h = tt
AreDigests-take (suc n) (x ∷ xs) h = (h.0, AreDigests-take n xs h.1)

pub AreDigests-drop : (n : ℕ) (xs : List Bytes) → AreDigests xs → AreDigests (drop n xs)
AreDigests-drop zero xs h = h
AreDigests-drop (suc n) [] h = tt
AreDigests-drop (suc n) (x ∷ xs) h = AreDigests-drop n xs h.1
