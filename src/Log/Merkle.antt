-- ===== src/Log/Merkle.antt =====
-- packages/log/src/merkle.ts: the RFC 6962 Merkle tree over entry hashes. The recursions halve a
-- list; they take as fuel the number of leaves, which `Merkle.Split` proves to be enough.
pub mod Split
pub mod Proofs
pub mod Hashes
pub mod Binding
pub mod Inclusion
use zero_window.Prelude.{
  ℕ, zero, suc, ◌-◌, ◌*◌, Bool, true, false, ◌&&◌, ◌||◌, not, Bytes, Option, none, some, List, [],
  ◌∷◌, ◌++◌, map, length, get_elem?, get_or, take, drop, ltb, ◌==◌, equals, if◌then◌else◌,
}
use mathlib.Core.Option
use zero_window.Crypto.Sodium.{Sodium}
use zero_window.Crypto.Hash.{blake2b}

-- The loop of `largestPowerOfTwoBelow`.
double_while_below : ℕ → ℕ → ℕ → ℕ
double_while_below zero k n = k
double_while_below (suc f) k n =
    let next = double_while_below f (k * 2) n in if ltb (k * 2) n then next else k

unfoldable pub largest_power_of_two_below : ℕ → ℕ
unfolding double_while_below
largest_power_of_two_below n = double_while_below n 1 n

module _ (sodium : Sodium) where
  unfoldable pub empty_root : Bytes
  unfolding blake2b
  empty_root = blake2b sodium ([] ∷ [])

  unfoldable pub leaf_hash : Bytes → Bytes
  unfolding blake2b
  leaf_hash entry_hash = blake2b sodium ((0 ∷ []) ∷ entry_hash ∷ [])

  unfoldable pub node_hash : Bytes → Bytes → Bytes
  unfolding blake2b
  node_hash left right = blake2b sodium ((1 ∷ []) ∷ left ∷ right ∷ [])

  -- Out of fuel, and on no nodes (where the source would not return), the value is empty.
  unfoldable pub root_of : ℕ → List Bytes → Bytes
  root_of zero nodes = []
  root_of (suc f) nodes =
      let k = largest_power_of_two_below (length nodes) in
      let left = root_of f (take k nodes) in
      let right = root_of f (drop k nodes) in
      if length nodes == 1 then get_or nodes 0 [] else node_hash left right

  unfoldable pub merkle_root : List Bytes → Bytes
  merkle_root entry_hashes =
      if length entry_hashes == 0
      then empty_root
      else root_of (length entry_hashes) (map leaf_hash entry_hashes)

  unfoldable pub build : ℕ → List Bytes → ℕ → List Bytes → List Bytes
  build zero nodes index proof = proof
  build (suc f) nodes index proof =
      let k = largest_power_of_two_below (length nodes) in
      let left = build f (take k nodes) index proof in
      let right = build f (drop k nodes) (index - k) proof in
      if length nodes == 1
      then proof
      else if ltb index k
      then left ++ root_of f (drop k nodes) ∷ []
      else right ++ root_of f (take k nodes) ∷ []

  -- `none` where the source throws; an index is a natural number, so `index < 0` cannot hold.
  unfoldable pub inclusion_proof : List Bytes → ℕ → Option (List Bytes)
  inclusion_proof entry_hashes index =
      if ltb index (length entry_hashes)
      then some (build (length entry_hashes) (map leaf_hash entry_hashes) index [])
      else none

  -- The parent's hash, from the sibling and from the child on the side of the leaf.
  unfoldable pub rejoin : Option Bytes → Bool → Option Bytes → Option Bytes → Option Bytes
  rejoin none in_left left right = none
  rejoin (some sibling) in_left left right =
      if in_left
      then Option.map (λ h. node_hash h sibling) left
      else Option.map (λ h. node_hash sibling h) right

  -- The argument `rest` is the source's `p + 1`: how much of the proof is not yet consumed.
  unfoldable pub recompute : ℕ → Bytes → ℕ → ℕ → List Bytes → ℕ → Option Bytes
  unfolding rejoin
  recompute zero hash index n proof rest = none
  recompute (suc f) hash index n proof zero = if n == 1 then some hash else none
  recompute (suc f) hash index n proof (suc p) =
      let k = largest_power_of_two_below n in
      let left = recompute f hash index k proof p in
      let right = recompute f hash (index - k) (n - k) proof p in
      if n == 1 then none else rejoin (get_elem? proof p) (ltb index k) left right

  unfoldable pub verify_inclusion : Bytes → ℕ → ℕ → List Bytes → Bytes → Bool
  verify_inclusion entry_hash index size proof expected_root =
      if not (ltb index size) || ltb size 1
      then false
      else elim (recompute size (leaf_hash entry_hash) index size proof (length proof)) [
        | none ↦ false
        | some computed ↦ equals computed expected_root
      ]
