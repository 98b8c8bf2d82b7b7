-- ===== src/Log/Merkle/Split.antt =====
-- The split point of packages/log/src/merkle.ts, and that the fuel of the recursions is enough.
use zero_window.Prelude.{
  ℕ, zero, suc, ◌+◌, ◌-◌, ◌*◌, ◌^◌, ◌≤◌, ◌<◌, ◌≡◌, ◌∙◌, refl, sym, ap₂, Bytes, List, ltb, ◌==◌,
  length, take, drop, length-take, length-drop, arith, Bool-cases, inl, inr,
}
use zero_window.Crypto.Sodium.{Sodium}
use zero_window.Log.Merkle.{double_while_below, largest_power_of_two_below, root_of, node_hash}
use native.Mathlib.Nat.{pow-suc}

double_while_below_bounds :
    (f k n : ℕ)
    → 1 ≤ k
    → k < n
    → n ≤ k + f
    → (double_while_below f k n < n)
      × (n ≤ 2 * double_while_below f k n)
      × (1 ≤ double_while_below f k n)
unfolding double_while_below
double_while_below_bounds zero k n a b c = absurd (omega arith)
double_while_below_bounds (suc f) k n a b c = ground (arith, double_while_below_bounds f (k * 2) n)

double_while_below_power : (f j n : ℕ) → (i : ℕ) × (double_while_below f (2 ^ j) n ≡ 2 ^ i)
unfolding double_while_below
double_while_below_power zero j n = (j, refl)
double_while_below_power (suc f) j n = elim (Bool-cases (ltb (2 ^ j * 2) n)) [
  | inl more ↦
      let (i, e) = double_while_below_power f (suc j) n in (i, rw (more, sym (pow-suc 2 j)) e)
  | inr done ↦ (j, rw done)
]

-- For two leaves or more the split point is a power of two below their number, and at least half
-- of it.
pub largest_power_of_two_below_lem :
    (n : ℕ)
    → 2 ≤ n
    → (largest_power_of_two_below n < n)
      × (n ≤ 2 * largest_power_of_two_below n)
      × ((i : ℕ) × (largest_power_of_two_below n ≡ 2 ^ i))
unfolding largest_power_of_two_below
largest_power_of_two_below_lem n h =
    let (a, b, c) = double_while_below_bounds n 1 n (omega arith) (omega arith) (omega arith) in
    (a, b, double_while_below_power n 0 n)

pub split_bounds :
    (n : ℕ) → 2 ≤ n → (1 ≤ largest_power_of_two_below n) × (largest_power_of_two_below n < n)
unfolding largest_power_of_two_below
split_bounds n h =
    let (a, b, c) = double_while_below_bounds n 1 n (omega arith) (omega arith) (omega arith) in
    (c, a)

module _ (sodium : Sodium) where
  pub root_of_node :
      (f : ℕ) (nodes : List Bytes)
      → 2 ≤ length nodes
      → root_of sodium (suc f) nodes
        ≡ node_hash sodium
            (root_of sodium f (take (largest_power_of_two_below (length nodes)) nodes))
            (root_of sodium f (drop (largest_power_of_two_below (length nodes)) nodes))
  unfolding root_of
  root_of_node f nodes two = ground arith

  -- More fuel than the number of leaves changes nothing.
  pub root_of_fuel :
      (f g : ℕ) (nodes : List Bytes)
      → 1 ≤ length nodes
      → length nodes ≤ f
      → length nodes ≤ g
      → root_of sodium f nodes ≡ root_of sodium g nodes
  unfolding root_of
  root_of_fuel zero g nodes a b c = absurd (omega arith)
  root_of_fuel (suc f) zero nodes a b c = absurd (omega arith)
  root_of_fuel (suc f) (suc g) nodes a b c = elim (Bool-cases (length nodes == 1)) [
    | inl one ↦ rw one
    | inr more ↦
        let n = length nodes in
        let k = largest_power_of_two_below n in
        let two : 2 ≤ n = ground arith in
        let (low, high) = split_bounds n two in
        rw more (
          ap₂ (node_hash sodium)
            (root_of_fuel f g (take k nodes) (omega (arith, length-take k nodes))
              (omega (arith, length-take k nodes)) (omega (arith, length-take k nodes)))
            (root_of_fuel f g (drop k nodes) (omega (arith, length-drop k nodes))
              (omega (arith, length-drop k nodes)) (omega (arith, length-drop k nodes))))
  ]

  -- The source's recursion equation, with the fuel that `merkle_root` gives: at two leaves or more
  -- the root is the hash of the roots of the two parts.
  pub root_of-split :
      (nodes : List Bytes)
      → 2 ≤ length nodes
      → let n = length nodes in
        let k = largest_power_of_two_below n in
        root_of sodium n nodes
        ≡ node_hash sodium (root_of sodium k (take k nodes)) (root_of sodium (n - k) (drop k nodes))
  root_of-split nodes h =
      let n = length nodes in
      let k = largest_power_of_two_below n in
      let (low, high) = split_bounds n h in
      root_of_fuel n (suc n) nodes (omega arith) (omega arith) (omega arith)
      ∙ step
      ∙ ap₂ (node_hash sodium)
          (root_of_fuel n k (take k nodes) (omega (arith, length-take k nodes))
            (omega (arith, length-take k nodes)) (omega (arith, length-take k nodes)))
          (root_of_fuel n (n - k) (drop k nodes) (omega (arith, length-drop k nodes))
            (omega (arith, length-drop k nodes)) (omega (arith, length-drop k nodes)))
    where
      step :
          root_of sodium (suc (length nodes)) nodes
          ≡ node_hash sodium
              (root_of sodium
                (length nodes)
                (take (largest_power_of_two_below (length nodes)) nodes))
              (root_of sodium
                (length nodes)
                (drop (largest_power_of_two_below (length nodes)) nodes))
      step = unfold root_of in ground arith
