-- ===== src/Log/Merkle/Inclusion.antt =====
-- packages/log/src/merkle.ts: `inclusionProof` and `verifyInclusion` against `merkleRoot`.
use zero_window.Prelude.{
  ℕ, ◌<◌, ◌≤◌, ◌≡◌, ◌⊎◌, inl, inr, true, Bytes, some, List, [], ◌∷◌, map, length, get_elem?, arith,
  Option-cases, length-map, get_elem?-map, get_elem?-map_inv, get_elem?-lt, equals_refl, equals_iff,
  ap, sym, subst, ◌∙◌,
}
use zero_window.Crypto.Sodium.{Sodium, SodiumLaws}
use zero_window.Crypto.Hash.{length-blake2b}
use zero_window.Log.Merkle.{
  leaf_hash, root_of, merkle_root, build, inclusion_proof, recompute, verify_inclusion,
}
use zero_window.Log.Merkle.Proofs.{recompute-build}
use zero_window.Log.Merkle.Hashes.{AreDigests, AreColliding, leaf_input, leaf_hash_inj}
use zero_window.Log.Merkle.Binding.{HasCollision, recompute_binds}

root_of_leaves :
    (sodium : Sodium) (hashes : List Bytes)
    → 1 ≤ length hashes
    → merkle_root sodium hashes ≡ root_of sodium (length hashes) (map (leaf_hash sodium) hashes)
unfolding merkle_root
root_of_leaves sodium hashes h = ground arith

AreDigests-leaves :
    (sodium : Sodium)
    → SodiumLaws sodium
    → (hashes : List Bytes) → AreDigests (map (leaf_hash sodium) hashes)
unfolding leaf_hash
AreDigests-leaves sodium laws [] = tt
AreDigests-leaves sodium laws (x ∷ xs) =
    (length-blake2b sodium laws ((0 ∷ []) ∷ x ∷ []), AreDigests-leaves sodium laws xs)

-- For every list of entry hashes and every position in it, `inclusionProof` returns a proof, and
-- `verifyInclusion` accepts it for the entry hash at that position, the list's length and its
-- Merkle root.
pub verify_inclusion-inclusion_proof :
    (sodium : Sodium) (hashes : List Bytes) (index : ℕ) {entry : Bytes}
    → get_elem? hashes index ≡ some entry
    → (proof : List Bytes) × (inclusion_proof sodium hashes index ≡ some proof)
      × (verify_inclusion sodium entry index (length hashes) proof (merkle_root sodium hashes)
          ≡ true)
unfolding inclusion_proof verify_inclusion
verify_inclusion-inclusion_proof sodium hashes index {entry} e =
    let n = length hashes in
    let leaves = map (leaf_hash sodium) hashes in
    let inside : index < n = get_elem?-lt hashes index e in
    let size : length leaves ≡ n = length-map (leaf_hash sodium) hashes in
    let path = rw size at (
      recompute-build sodium n (leaf_hash sodium entry) index leaves (omega arith)
        (get_elem?-map (leaf_hash sodium) hashes index e)) in
    (
      build sodium n leaves index [],
      ground arith,
      ground (arith, path, root_of_leaves sodium hashes, equals_refl (root_of sodium n leaves)),
    )

-- What an accepted proof has passed.
verify_inclusion_inv :
    (sodium : Sodium) (entry : Bytes) (index size : ℕ) (proof : List Bytes) (root : Bytes)
    → verify_inclusion sodium entry index size proof root ≡ true
    → (index < size)
      × (recompute sodium size (leaf_hash sodium entry) index size proof (length proof) ≡ some root)
unfolding verify_inclusion
verify_inclusion_inv sodium entry index size proof root e =
    elim (Option-cases
      (recompute sodium size (leaf_hash sodium entry) index size proof (length proof))) [
        | inl failed ↦ absurd (ground arith)
        | inr (computed, found) ↦ (ground arith, ground (arith, equals_iff computed root))
      ]

-- Two inputs that were hashed here collide: the leaf of the entry and the leaf at its index, or a
-- node on the path of the proof and a node of the tree.
abbrev pub IsForged : Sodium → List Bytes → List Bytes → ℕ → Bytes → Type 0
IsForged sodium hashes proof index entry =
    ((other : Bytes) × (get_elem? hashes index ≡ some other)
      × AreColliding sodium (leaf_input sodium other) (leaf_input sodium entry))
    ⊎ HasCollision sodium (length hashes) (leaf_hash sodium entry) index
        (map (leaf_hash sodium) hashes) proof (length proof)

-- If `verifyInclusion` accepts any proof for an entry hash at an index against the size and the
-- Merkle root of a list of entry hashes, then that entry hash stands at that index of the list,
-- or two of the inputs that were hashed are different and have one BLAKE2b digest: the leaf of the
-- entry and the leaf that stands at the index, or a node recomputed along the proof and a node of
-- the tree. The hypothesis on libsodium is that digests have the requested length.
pub verify_inclusion_binds :
    (sodium : Sodium)
    → SodiumLaws sodium
    → (hashes proof : List Bytes) (index : ℕ) (entry : Bytes)
    → verify_inclusion sodium entry index (length hashes) proof (merkle_root sodium hashes) ≡ true
    → (get_elem? hashes index ≡ some entry) ⊎ IsForged sodium hashes proof index entry
unfolding leaf_hash
verify_inclusion_binds sodium laws hashes proof index entry e =
    let n = length hashes in
    let leaves = map (leaf_hash sodium) hashes in
    let size : length leaves ≡ n = length-map (leaf_hash sodium) hashes in
    let (inside, path) =
      verify_inclusion_inv sodium entry index n proof (merkle_root sodium hashes) e in
    elim (recompute_binds sodium laws n (leaf_hash sodium entry) index leaves proof (length proof)
      (omega arith) (omega arith) (length-blake2b sodium laws ((0 ∷ []) ∷ entry ∷ []))
      (AreDigests-leaves sodium laws hashes)
      (subst
        (λ m.
          recompute sodium n (leaf_hash sodium entry) index m proof (length proof)
          ≡ some (root_of sodium n leaves))
        (sym size) (path ∙ ap some (root_of_leaves sodium hashes (omega arith))))) [
          | inr found ↦ inr (inr found)
          | inl at_leaf ↦
              let (other, stands, same) =
                get_elem?-map_inv (leaf_hash sodium) hashes index at_leaf in
              elim (leaf_hash_inj sodium other entry same) [
                | inr found ↦ inr (inl (other, stands, found))
                | inl equal ↦ inl (stands ∙ ap some equal)
              ]
        ]
