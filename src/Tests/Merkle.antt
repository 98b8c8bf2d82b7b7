-- ===== src/Tests/Merkle.antt =====
-- The Merkle tree on three entries.
use zero_window.Prelude.{
  ℕ, ◌<◌, ◌≤◌, ◌*◌, ◌^◌, ◌≡◌, refl, ◌⊎◌, true, Bytes, some, List, [], ◌∷◌, get_elem?, arith, equals,
}
use zero_window.Log.Merkle.{
  largest_power_of_two_below, merkle_root, inclusion_proof, verify_inclusion, root_of, recompute,
  leaf_hash, node_hash, empty_root,
}
use zero_window.Log.Merkle.Split.{largest_power_of_two_below_lem}
use zero_window.Log.Merkle.Inclusion.{
  verify_inclusion-inclusion_proof, verify_inclusion_binds, IsForged,
}
use zero_window.Tests.Toy.{toy, toy_laws}

abbrev hashes : List Bytes
hashes = (7 ∷ []) ∷ (8 ∷ 9 ∷ []) ∷ (10 ∷ []) ∷ []

abbrev proof_of_last : List Bytes
proof_of_last = root_of toy 2 (leaf_hash toy (7 ∷ []) ∷ leaf_hash toy (8 ∷ 9 ∷ []) ∷ []) ∷ []

verify_inclusion-run :
    verify_inclusion toy (10 ∷ []) 2 3 proof_of_last (merkle_root toy hashes) ≡ true
unfolding verify_inclusion merkle_root root_of recompute leaf_hash node_hash empty_root
    largest_power_of_two_below equals
verify_inclusion-run = refl

verify_inclusion-inclusion_proof_example :
    (proof : List Bytes) × (inclusion_proof toy hashes 1 ≡ some proof)
    × (verify_inclusion toy (8 ∷ 9 ∷ []) 1 3 proof (merkle_root toy hashes) ≡ true)
verify_inclusion-inclusion_proof_example = verify_inclusion-inclusion_proof toy hashes 1 refl

verify_inclusion_binds_example :
    (get_elem? hashes 2 ≡ some (10 ∷ [])) ⊎ IsForged toy hashes proof_of_last 2 (10 ∷ [])
verify_inclusion_binds_example =
    verify_inclusion_binds toy toy_laws hashes proof_of_last 2 (10 ∷ []) verify_inclusion-run

largest_power_of_two_below_lem_example :
    (largest_power_of_two_below 7 < 7)
    × (7 ≤ 2 * largest_power_of_two_below 7)
    × ((i : ℕ) × (largest_power_of_two_below 7 ≡ 2 ^ i))
largest_power_of_two_below_lem_example = largest_power_of_two_below_lem 7 (omega arith)
