-- ===== src/Log/Merkle/Binding.antt =====
-- packages/log/src/merkle.ts: an inclusion proof that verifies binds the entry to its position.
use zero_window.Prelude.{
  ℕ, zero, suc, ◌-◌, ◌≤◌, ◌<◌, ◌≡◌, ◌∙◌, refl, sym, ap, subst, ◌⊎◌, inl, inr, Bytes, Option, none,
  some, List, [], ◌∷◌, length, get_elem?, take, drop, ltb, ◌==◌, arith, Bool-cases, length-take,
  length-drop, get_elem?-take, get_elem?-drop, append_inj_left, append_inj_right, true, false,
}
use mathlib.Core.Bool.{Bool}
use zero_window.Crypto.Sodium.{Sodium, SodiumLaws}
use zero_window.Crypto.Hash.{length-blake2b}
use zero_window.Log.Merkle.{largest_power_of_two_below, node_hash, root_of, rejoin, recompute}
use zero_window.Log.Merkle.Split.{split_bounds, root_of_node}
use zero_window.Log.Merkle.Hashes.{
  AreDigests, AreColliding, node_input, node_hash_inj, AreDigests-take, AreDigests-drop,
}

module _ (sodium : Sodium) where
  -- An input that the computation of the root hashes for a node of the tree.
  abbrev pub IsTreeInput : ℕ → List Bytes → Bytes → Type 0
  IsTreeInput zero nodes x = ⊥
  IsTreeInput (suc f) [] x = ⊥
  IsTreeInput (suc f) (a ∷ []) x = ⊥
  IsTreeInput (suc f) (a ∷ b ∷ nodes) x =
      let k = largest_power_of_two_below (length (a ∷ b ∷ nodes)) in
      (x
        ≡ node_input sodium (root_of sodium f (take k (a ∷ b ∷ nodes)))
            (root_of sodium f (drop k (a ∷ b ∷ nodes))))
      ⊎ IsTreeInput f (take k (a ∷ b ∷ nodes)) x
      ⊎ IsTreeInput f (drop k (a ∷ b ∷ nodes)) x

  -- An input that the recomputation of the root along a proof hashes for a node.
  abbrev pub IsPathInput : ℕ → Bytes → ℕ → ℕ → List Bytes → ℕ → Bytes → Type 0
  IsPathInput zero hash index n proof rest x = ⊥
  IsPathInput (suc f) hash index n proof zero x = ⊥
  IsPathInput (suc f) hash index n proof (suc p) x =
      let k = largest_power_of_two_below n in
      ((h : Bytes) × (sibling : Bytes) × (get_elem? proof p ≡ some sibling)
        × (((ltb index k ≡ true)
              × (recompute sodium f hash index k proof p ≡ some h)
              × (x ≡ node_input sodium h sibling))
            ⊎ ((ltb index k ≡ false)
                × (recompute sodium f hash (index - k) (n - k) proof p ≡ some h)
                × (x ≡ node_input sodium sibling h))))
      ⊎ ((ltb index k ≡ true) × IsPathInput f hash index k proof p x)
      ⊎ ((ltb index k ≡ false) × IsPathInput f hash (index - k) (n - k) proof p x)

  -- Two inputs collide, one hashed along the proof and one hashed for the tree.
  abbrev pub HasCollision : ℕ → Bytes → ℕ → List Bytes → List Bytes → ℕ → Type 0
  HasCollision f hash index nodes proof rest =
      (x : Bytes) × (y : Bytes) × IsPathInput f hash index (length nodes) proof rest x
      × IsTreeInput f nodes y
      × AreColliding sodium x y

module _ (sodium : Sodium) (laws : SodiumLaws sodium) where
  length-node_hash : (a b : Bytes) → length (node_hash sodium a b) ≡ 32
  unfolding node_hash
  length-node_hash a b = length-blake2b sodium laws ((1 ∷ []) ∷ a ∷ b ∷ [])

  length-root_of :
      (f : ℕ) (nodes : List Bytes)
      → 1 ≤ length nodes
      → length nodes ≤ f
      → AreDigests nodes
      → length (root_of sodium f nodes) ≡ 32
  length-root_of zero nodes a b d = absurd (omega arith)
  length-root_of (suc f) [] a b d = absurd (omega arith)
  length-root_of (suc f) (x ∷ []) a b d = unfold root_of in d.0
  length-root_of (suc f) (x ∷ y ∷ xs) a b d =
      rw (root_of_node sodium f (x ∷ y ∷ xs) (omega arith)) (length-node_hash _ _)

  rejoin-length :
      (s : Option Bytes) (in_left : Bool) (left right : Option Bytes) {r : Bytes}
      → rejoin sodium s in_left left right ≡ some r
      → length r ≡ 32
  unfolding rejoin
  rejoin-length none b l r e = cc
  rejoin-length (some s) true none r e = cc
  rejoin-length (some s) true (some l) r e = ground (arith, length-node_hash l s)
  rejoin-length (some s) false l none e = cc
  rejoin-length (some s) false l (some r) e = ground (arith, length-node_hash s r)

  length-recompute :
      (f : ℕ) (hash : Bytes) (index n : ℕ) (proof : List Bytes) (rest : ℕ) {r : Bytes}
      → length hash ≡ 32
      → recompute sodium f hash index n proof rest ≡ some r
      → length r ≡ 32
  unfolding recompute
  length-recompute zero hash index n proof rest h e = cc
  length-recompute (suc f) hash index n proof zero h e = ground arith
  length-recompute (suc f) hash index n proof (suc p) h e = elim (Bool-cases (n == 1)) [
    | inl one ↦ ground arith
    | inr more ↦
        let k = largest_power_of_two_below n in
        rejoin-length (get_elem? proof p) (ltb index k) (recompute sodium f hash index k proof p)
          (recompute sodium f hash (index - k) (n - k) proof p) (rw more at e)
  ]

  -- What one step of `recompute` has used.
  rejoin_inv :
      (s : Option Bytes) (in_left : Bool) (left right : Option Bytes) {r : Bytes}
      → rejoin sodium s in_left left right ≡ some r
      → (sibling : Bytes) × (h : Bytes) × (s ≡ some sibling)
        × (((in_left ≡ true) × (left ≡ some h) × (node_hash sodium h sibling ≡ r))
            ⊎ ((in_left ≡ false) × (right ≡ some h) × (node_hash sodium sibling h ≡ r)))
  unfolding rejoin
  rejoin_inv none b l r e = cc
  rejoin_inv (some s) true none r e = cc
  rejoin_inv (some s) true (some l) r e = (s, l, refl, inl (refl, refl, cc))
  rejoin_inv (some s) false l none e = cc
  rejoin_inv (some s) false l (some r) e = (s, r, refl, inr (refl, refl, cc))

  recompute_stops :
      (f : ℕ) (hash : Bytes) (index n : ℕ) (proof : List Bytes) {r : Bytes}
      → 2 ≤ n
      → recompute sodium (suc f) hash index n proof zero ≡ some r
      → ⊥
  unfolding recompute
  recompute_stops f hash index n proof two e = ground arith

  recompute_inv :
      (f : ℕ) (hash : Bytes) (index n : ℕ) (proof : List Bytes) (p : ℕ) {r : Bytes}
      → 2 ≤ n
      → recompute sodium (suc f) hash index n proof (suc p) ≡ some r
      → let k = largest_power_of_two_below n in
        (sibling : Bytes) × (h : Bytes) × (get_elem? proof p ≡ some sibling)
        × (((ltb index k ≡ true)
              × (recompute sodium f hash index k proof p ≡ some h)
              × (node_hash sodium h sibling ≡ r))
            ⊎ ((ltb index k ≡ false)
                × (recompute sodium f hash (index - k) (n - k) proof p ≡ some h)
                × (node_hash sodium sibling h ≡ r)))
  unfolding recompute
  recompute_inv f hash index n proof p two e =
      let k = largest_power_of_two_below n in
      let more : (n == 1) ≡ false = ground arith in
      rejoin_inv (get_elem? proof p) (ltb index k) (recompute sodium f hash index k proof p)
        (recompute sodium f hash (index - k) (n - k) proof p) (rw more at e)

  -- The left parts of two nodes with one hash agree, if both are digests.
  left_child :
      (a b c d : Bytes)
      → length a ≡ 32
      → length c ≡ 32
      → node_hash sodium a b ≡ node_hash sodium c d
      → (a ≡ c) ⊎ AreColliding sodium (node_input sodium a b) (node_input sodium c d)
  left_child a b c d la lc e = elim (node_hash_inj sodium a b c d e) [
    | inl same ↦ inl (append_inj_left a b c d (la ∙ sym lc) same).0
    | inr found ↦ inr found
  ]

  right_child :
      (a b c d : Bytes)
      → length b ≡ 32
      → length d ≡ 32
      → node_hash sodium a b ≡ node_hash sodium c d
      → (b ≡ d) ⊎ AreColliding sodium (node_input sodium a b) (node_input sodium c d)
  right_child a b c d lb ld e = elim (node_hash_inj sodium a b c d e) [
    | inl same ↦ inl (append_inj_right a b c d (lb ∙ sym ld) same).1
    | inr found ↦ inr found
  ]

  -- A path that leads to the root of the tree starts at the leaf that stands at the index.
  pub recompute_binds :
      (f : ℕ) (hash : Bytes) (index : ℕ) (nodes proof : List Bytes) (rest : ℕ)
      → length nodes ≤ f
      → index < length nodes
      → length hash ≡ 32
      → AreDigests nodes
      → recompute sodium f hash index (length nodes) proof rest ≡ some (root_of sodium f nodes)
      → (get_elem? nodes index ≡ some hash) ⊎ HasCollision sodium f hash index nodes proof rest
  recompute_binds f hash index [] proof rest b i h d e = elim i [ ]
  recompute_binds zero hash index (x ∷ xs) proof rest b i h d e = absurd (omega arith)
  recompute_binds (suc f) hash zero (x ∷ []) proof zero b i h d e = inl (
      unfold recompute root_of in
      (let q : ◌≡◌ {A = Option Bytes} (some hash) (some x) = e in sym q))
  recompute_binds (suc f) hash zero (x ∷ []) proof (suc p) b i h d e =
      unfold recompute root_of in ground arith
  recompute_binds (suc f) hash (suc j) (x ∷ []) proof rest b i h d e = absurd (omega arith)
  recompute_binds (suc f) hash index (x ∷ y ∷ xs) proof zero b i h d e =
      absurd (recompute_stops f hash index (length (x ∷ y ∷ xs)) proof (omega arith) e)
  recompute_binds (suc f) hash index (x ∷ y ∷ xs) proof (suc p) b i h d e =
      let nodes : List Bytes = x ∷ y ∷ xs in
      let n = length nodes in
      let k = largest_power_of_two_below n in
      let (low, high) = split_bounds n (omega arith) in
      let lt : length (take k nodes) ≡ k = omega (arith, length-take k nodes) in
      let ld : length (drop k nodes) ≡ n - k = length-drop k nodes in
      let root_left : length (root_of sodium f (take k nodes)) ≡ 32 =
        length-root_of f (take k nodes) (omega arith) (omega arith) (AreDigests-take k nodes d) in
      let root_right : length (root_of sodium f (drop k nodes)) ≡ 32 =
        length-root_of f (drop k nodes) (omega arith) (omega arith) (AreDigests-drop k nodes d) in
      let (s, c, sibling, either) = recompute_inv f hash index n proof p (omega arith) e in
      elim either [
        | inl (below, sub, node) ↦
            elim (left_child c s _ _ (length-recompute f hash index k proof p h sub) root_left
              (node ∙ root_of_node sodium f nodes (omega arith))) [
                | inr found ↦
                    inr (_, _, inl (c, s, sibling, inl (below, sub, refl)), inl refl, found)
                | inl same ↦
                    elim (recompute_binds f hash index (take k nodes) proof p (omega arith)
                      (ground arith) h (AreDigests-take k nodes d)
                      (subst
                        (λ m.
                          recompute sodium f hash index m proof p
                          ≡ some (root_of sodium f (take k nodes)))
                        (sym lt) (sub ∙ ap some same))) [
                          | inr (u, w, on_path, in_tree, found) ↦ inr (
                            u,
                            w,
                            inr (
                                inl (
                                  below,
                                  subst (λ m. IsPathInput sodium f hash index m proof p u) lt
                                      on_path,
                                )),
                            inr (inl in_tree),
                            found,
                          )
                          | inl at_index ↦
                              inl (sym (get_elem?-take k index nodes (ground arith)) ∙ at_index)
                        ]
              ]
        | inr (above, sub, node) ↦
            elim (right_child s c _ _ (length-recompute f hash (index - k) (n - k) proof p h sub)
              root_right (node ∙ root_of_node sodium f nodes (omega arith))) [
                | inr found ↦
                    inr (_, _, inl (c, s, sibling, inr (above, sub, refl)), inl refl, found)
                | inl same ↦
                    elim (recompute_binds f hash (index - k) (drop k nodes) proof p (omega arith)
                      (ground arith) h (AreDigests-drop k nodes d)
                      (subst
                        (λ m.
                          recompute sodium f hash (index - k) m proof p
                          ≡ some (root_of sodium f (drop k nodes)))
                        (sym ld) (sub ∙ ap some same))) [
                          | inr (u, w, on_path, in_tree, found) ↦ inr (
                            u,
                            w,
                            inr (
                                inr (
                                  above,
                                  subst (λ m. IsPathInput sodium f hash (index - k) m proof p u) ld
                                      on_path,
                                )),
                            inr (inr in_tree),
                            found,
                          )
                          | inl at_index ↦
                              inl (sym (get_elem?-drop k index nodes (ground arith)) ∙ at_index)
                        ]
              ]
      ]
