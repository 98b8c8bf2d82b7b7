-- ===== src/Centre/Prng/Shuffle.antt =====
-- packages/centre/src/prng.ts: `shuffle` rearranges its input.
use zero_window.Prelude.{
  ℕ, zero, suc, ◌+◌, ◌-◌, ◌≡◌, refl, sym, ap, subst, some, List, [], ◌∷◌, length, get_elem?, set,
  ok-injective, err-injective, ok, err, and_then, arith, Option-cases, Result-cases, inl, inr,
}
use mathlib.Core.List.{Perm}
use mathlib.Core.List.Perm
use zero_window.Crypto.Sodium.{Sodium}
use zero_window.Centre.Prng.{
  Stream, exchange, next_below, shuffle_from, shuffle, PrngError, no_draw,
}
use zero_window.Centre.Prng.Draws.{next_below_error}

module _ {ℓ} {A : Type ℓ} where
  -- Writing at a place moves the old element out and the new one in.
  set-perm :
      (xs : List A) (i : ℕ) (v a : A) → get_elem? xs i ≡ some a → Perm (v ∷ xs) (a ∷ set xs i v)
  set-perm [] i v a h = cc
  set-perm (x ∷ xs) zero v a h =
      let e : x ≡ a = cc in subst (λ y. Perm (v ∷ y ∷ xs) (a ∷ v ∷ xs)) (sym e) (Perm.swap a v xs)
  set-perm (x ∷ xs) (suc i) v a h =
      Perm.trans (Perm.swap x v xs)
        (Perm.trans (Perm.cons x (set-perm xs i v a h)) (Perm.swap a x (set xs i v)))

  get_elem?-set :
      (xs : List A) (i j : ℕ) (b : A) → get_elem? xs j ≡ some b → get_elem? (set xs i b) j ≡ some b
  get_elem?-set [] i j b h = h
  get_elem?-set (x ∷ xs) zero zero b h = refl
  get_elem?-set (x ∷ xs) zero (suc j) b h = h
  get_elem?-set (x ∷ xs) (suc i) zero b h = h
  get_elem?-set (x ∷ xs) (suc i) (suc j) b h = get_elem?-set xs i j b h

  exchange-perm : (i j : ℕ) (xs : List A) → Perm (exchange i j xs) xs
  unfolding exchange
  exchange-perm i j xs = elim (Option-cases (get_elem? xs i)) [
    | inl out ↦ rw (out, exchange) (Perm.refl xs)
    | inr (a, at_i) ↦ elim (Option-cases (get_elem? xs j)) [
      | inl out ↦ rw (at_i, out, exchange) (Perm.refl xs)
      | inr (b, at_j) ↦
          rw (at_i, at_j, exchange)
            (Perm.cons_inv (
              Perm.symm (
                Perm.trans (set-perm xs i b a at_i)
                  (set-perm (set xs i b) j a b (get_elem?-set xs i j b at_j)))))
    ]
  ]

module _ (sodium : Sodium) {A : Type 0} where
  shuffle_from-perm :
      (f i : ℕ) (out : List A) (s : Stream) {r : List A} {s' : Stream}
      → shuffle_from sodium f i out s ≡ ok (r, s')
      → Perm r out
  unfolding shuffle_from
  shuffle_from-perm f zero out s {r} {s'} h =
      let e : out ≡ r = ap (λ t. t.0) (ok-injective h) in subst (λ t. Perm t out) e (Perm.refl out)
  shuffle_from-perm f (suc i) out s h = elim (Result-cases (next_below sodium f (suc i + 1) s)) [
    | inr (error, failed) ↦ absurd (ground arith)
    | inl (d, drawn) ↦
        Perm.trans (shuffle_from-perm f i (exchange (suc i) d.0 out) d.1 (rw drawn at h))
          (exchange-perm (suc i) d.0 out)
  ]

  -- Whatever the stream, a list that `shuffle` returns is a rearrangement of its input.
  pub shuffle-perm :
      (f : ℕ) (items : List A) (s : Stream) {r : List A} {s' : Stream}
      → shuffle sodium f items s ≡ ok (r, s')
      → Perm r items
  unfolding shuffle
  shuffle-perm f items s h = shuffle_from-perm f (length items - 1) items s h

  shuffle_from_error :
      (f i : ℕ) (out : List A) (s : Stream) {e : PrngError}
      → shuffle_from sodium f i out s ≡ err e
      → e ≡ no_draw
  unfolding shuffle_from
  shuffle_from_error f zero out s h = absurd cc
  shuffle_from_error f (suc i) out s {e} h =
      elim (Result-cases (next_below sodium f (suc i + 1) s)) [
        | inr (error, failed) ↦
            let same : error ≡ e = err-injective (rw (failed, and_then) at h) in
            subst (λ t. t ≡ no_draw) same
              (next_below_error sodium f (suc i + 1) s (omega arith) failed)
        | inl (d, drawn) ↦ shuffle_from_error f i (exchange (suc i) d.0 out) d.1 (rw drawn at h)
      ]

  -- Drawing an index is all that can fail in `shuffle`.
  pub shuffle_error :
      (f : ℕ) (items : List A) (s : Stream) {e : PrngError}
      → shuffle sodium f items s ≡ err e
      → e ≡ no_draw
  unfolding shuffle
  shuffle_error f items s h = shuffle_from_error f (length items - 1) items s h
