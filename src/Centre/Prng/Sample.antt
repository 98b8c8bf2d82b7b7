-- ===== src/Centre/Prng/Sample.antt =====
-- packages/centre/src/prng.ts: `sample` takes items out of its input, each place at most once.
use zero_window.Prelude.{
  ℕ, zero, suc, ◌≤◌, ◌<◌, ◌≡◌, refl, sym, ap, subst, ◌∙◌, some, List, [], ◌∷◌, ◌++◌, length,
  get_elem?, get_elem?-some, ok-injective, err-injective, false, ok, err, and_then, arith,
  Option-cases, Result-cases, Bool-cases, inl, inr, ltb,
}
use mathlib.Core.List.{Permᴰ}
use mathlib.Core.List.Permᴰ
use zero_window.Crypto.Sodium.{Sodium}
use zero_window.Centre.Prng.{Stream, remove_at, next_below, sample_from, sample, no_draw, PrngError}
use zero_window.Centre.Prng.Draws.{next_below_lt, next_below_error}

module _ {ℓ} {A : Type ℓ} where
  remove_at-perm :
      (xs : List A) (i : ℕ) (a : A) → get_elem? xs i ≡ some a → Permᴰ (a ∷ remove_at i xs) xs
  unfolding remove_at
  remove_at-perm [] i a h = cc
  remove_at-perm (x ∷ xs) zero a h =
      let e : x ≡ a = cc in subst (λ y. Permᴰ (y ∷ xs) (x ∷ xs)) e (Permᴰ.refl (x ∷ xs))
  remove_at-perm (x ∷ xs) (suc i) a h =
      Permᴰ.trans (Permᴰ.swap {l = remove_at i xs} refl refl)
        (Permᴰ.cons refl (remove_at-perm xs i a h))

  length-remove_at :
      (xs : List A) (j : ℕ) → j < length xs → suc (length (remove_at j xs)) ≡ length xs
  unfolding remove_at
  length-remove_at [] j h = omega arith
  length-remove_at (x ∷ xs) zero h = refl
  length-remove_at (x ∷ xs) (suc j) h = ap suc (length-remove_at xs j (omega arith))

module _ (sodium : Sodium) {A : Type 0} where
  sample_from-perm :
      (f k : ℕ) (pool : List A) (s : Stream) {r : List A} {s' : Stream}
      → sample_from sodium f k pool s ≡ ok (r, s')
      → (length r ≡ k) × (rest : List A) × Permᴰ (r ++ rest) pool
  unfolding sample_from
  sample_from-perm f zero pool s {r} {s'} h =
      let e : [] ≡ r = ap (λ t. t.0) (ok-injective h) in
      (sym (ap length e), pool, subst (λ t. Permᴰ (t ++ pool) pool) e (Permᴰ.refl pool))
  sample_from-perm f (suc k) pool s {r} {s'} h =
      elim (Result-cases (next_below sodium f (length pool) s)) [
        | inr (error, failed) ↦ absurd (ground arith)
        | inl ((j, s1), drawn) ↦ elim (Option-cases (get_elem? pool j)) [
          | inl out ↦ absurd (ground arith)
          | inr (x, found) ↦ elim (Result-cases (sample_from sodium f k (remove_at j pool) s1)) [
            | inr (error, failed) ↦ absurd (ground arith)
            | inl ((r1, s2), more) ↦
                let (size, rest, all) = sample_from-perm f k (remove_at j pool) s1 more in
                let e : x ∷ r1 ≡ r =
                  ap (λ t. t.0) (ok-injective (rw (drawn, and_then, found, more) at h)) in
                (
                  sym (ap length e) ∙ ap suc size,
                  rest,
                  subst (λ t. Permᴰ (t ++ rest) pool) e
                      (Permᴰ.trans (Permᴰ.cons refl all) (remove_at-perm pool j x found)),
                )
          ]
        ]
      ]

  -- Whatever the stream, a list that `sample` returns holds the number of items asked for, and
  -- with some rest it is a rearrangement of the pool: no place of the pool is drawn twice.
  pub sample-perm :
      (f : ℕ) (pool : List A) (k : ℕ) (s : Stream) {r : List A} {s' : Stream}
      → sample sodium f pool k s ≡ ok (r, s')
      → (length r ≡ k) × (rest : List A) × Permᴰ (r ++ rest) pool
  unfolding sample
  sample-perm f pool k s h = elim (Bool-cases (ltb (length pool) k)) [
    | inl over ↦ absurd (ground arith)
    | inr fits ↦ sample_from-perm f k pool s (rw fits at h)
  ]

  sample_from_error :
      (f k : ℕ) (pool : List A) (s : Stream) {e : PrngError}
      → k ≤ length pool
      → sample_from sodium f k pool s ≡ err e
      → e ≡ no_draw
  unfolding sample_from
  sample_from_error f zero pool s fits h = absurd cc
  sample_from_error f (suc k) pool s {e} fits h =
      elim (Result-cases (next_below sodium f (length pool) s)) [
        | inr (error, failed) ↦
            let same : error ≡ e = err-injective (rw failed at h) in
            subst (λ t. t ≡ no_draw) same
              (next_below_error sodium f (length pool) s (omega arith) failed)
        | inl ((j, s1), drawn) ↦
            let below : j < length pool = next_below_lt sodium f (length pool) s drawn in
            let (x, found) = get_elem?-some pool j below in
            elim (Result-cases (sample_from sodium f k (remove_at j pool) s1)) [
              | inr (error, failed) ↦
                  let size = length-remove_at pool j below in
                  let same : error ≡ e = err-injective (rw (drawn, and_then, found, failed) at h) in
                  subst (λ t. t ≡ no_draw) same
                    (sample_from_error f k (remove_at j pool) s1 (omega (arith, size)) failed)
              | inl ((r1, s2), more) ↦ absurd (ground arith)
            ]
      ]

  -- When the pool is large enough, drawing an index is all that can fail in `sample`.
  pub sample_error :
      (f : ℕ) (pool : List A) (k : ℕ) (s : Stream) {e : PrngError}
      → k ≤ length pool
      → sample sodium f pool k s ≡ err e
      → e ≡ no_draw
  unfolding sample
  sample_error f pool k s fits h =
      let enough : ltb (length pool) k ≡ false = ground arith in
      sample_from_error f k pool s fits (rw enough at h)
