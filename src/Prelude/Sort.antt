-- ===== src/Prelude/Sort.antt =====
-- The order of texts by code units (`<` on strings), and the stable sort by a text key
-- (`Array.prototype.sort` with a comparator on the keys).
use mathlib.Core.Path.{◌≡◌, refl, sym, ap, ap₂, subst, ◌∙◌}
use mathlib.Core.Logic.{◌≢◌, inl, inr}
use mathlib.Core.Bool.{Bool, true, false, ◌&&◌, ◌||◌}
use mathlib.Core.List.{List, [], ◌∷◌, Permᴰ}
use mathlib.Core.List.Permᴰ
use native.Mathlib.Omega.{arith}
use zero_window.Prelude.Tests.{Text, ltb, ◌==◌, if◌then◌else◌, Bool-cases}

unfoldable pub precedes : Text → Text → Bool
precedes [] [] = false
precedes [] (b ∷ t) = true
precedes (a ∷ s) [] = false
precedes (a ∷ s) (b ∷ t) = ltb a b || (a == b && precedes s t)

pub precedes_asym : (s t : Text) → precedes s t ≡ true → precedes t s ≡ false
unfolding precedes
precedes_asym [] [] h = refl
precedes_asym [] (b ∷ t) h = refl
precedes_asym (a ∷ s) [] h = cc
precedes_asym (a ∷ s) (b ∷ t) h = ground (arith, precedes_asym s t)

pub precedes_trans :
    (s t u : Text) → precedes s t ≡ true → precedes t u ≡ true → precedes s u ≡ true
unfolding precedes
precedes_trans [] [] u h k = cc
precedes_trans [] (b ∷ t) [] h k = cc
precedes_trans [] (b ∷ t) (c ∷ u) h k = refl
precedes_trans (a ∷ s) [] u h k = cc
precedes_trans (a ∷ s) (b ∷ t) [] h k = cc
precedes_trans (a ∷ s) (b ∷ t) (c ∷ u) h k = ground (arith, precedes_trans s t u)

pub precedes_total : (s t : Text) → precedes s t ≡ false → precedes t s ≡ false → s ≡ t
unfolding precedes
precedes_total [] [] h k = refl
precedes_total [] (b ∷ t) h k = cc
precedes_total (a ∷ s) [] h k = cc
precedes_total (a ∷ s) (b ∷ t) h k = ground (arith, precedes_total s t)

module _ {ℓ} {A : Type ℓ} (key : A → Text) where
  unfoldable pub insert_sorted : A → List A → List A
  insert_sorted x [] = x ∷ []
  insert_sorted x (y ∷ ys) = if precedes (key y) (key x) then y ∷ insert_sorted x ys else x ∷ y ∷ ys

  unfoldable pub sort_by : List A → List A
  unfolding insert_sorted
  sort_by [] = []
  sort_by (x ∷ xs) = insert_sorted x (sort_by xs)

  -- No key occurs twice.
  abbrev pub IsFresh : Text → List A → Type 0
  IsFresh k [] = Unit
  IsFresh k (x ∷ xs) = (k ≢ key x) × IsFresh k xs

  abbrev pub HasDistinctKeys : List A → Type 0
  HasDistinctKeys [] = Unit
  HasDistinctKeys (x ∷ xs) = IsFresh (key x) xs × HasDistinctKeys xs

  pub insert_sorted_comm :
      (a b : A) (l : List A)
      → key a ≢ key b
      → insert_sorted a (insert_sorted b l) ≡ insert_sorted b (insert_sorted a l)
  unfolding insert_sorted
  insert_sorted_comm a b [] ne = ground (
    arith,
    precedes_asym (key a) (key b),
    precedes_asym (key b) (key a),
    precedes_total (key a) (key b),
  )
  insert_sorted_comm a b (y ∷ ys) ne = ground (
    arith,
    insert_sorted_comm a b ys ne,
    precedes_asym (key a) (key b),
    precedes_total (key a) (key b),
    precedes_trans (key y) (key a) (key b),
    precedes_trans (key y) (key b) (key a),
    precedes_trans (key a) (key y) (key b),
    precedes_trans (key b) (key y) (key a),
    precedes_total (key y) (key a),
    precedes_total (key y) (key b),
    precedes_asym (key y) (key a),
    precedes_asym (key y) (key b),
  )

  IsFresh-perm : {xs ys : List A} (k : Text) → Permᴰ xs ys → IsFresh k xs → IsFresh k ys
  IsFresh-perm k Permᴰ.nil h = h
  IsFresh-perm k (Permᴰ.cons e p) h = ((λ q. h.0 (q ∙ ap key (sym e))), IsFresh-perm k p h.1)
  IsFresh-perm k (Permᴰ.swap e e') h =
      ((λ q. h.1.0 (q ∙ ap key (sym e'))), ((λ q. h.0 (q ∙ ap key (sym e))), h.1.1))
  IsFresh-perm k (Permᴰ.trans p q) h = IsFresh-perm k q (IsFresh-perm k p h)

  pub HasDistinctKeys-perm :
      {xs ys : List A} → Permᴰ xs ys → HasDistinctKeys xs → HasDistinctKeys ys
  HasDistinctKeys-perm Permᴰ.nil h = h
  HasDistinctKeys-perm (Permᴰ.cons {l₁ = m} e p) h =
      (IsFresh-perm _ p (subst (λ x. IsFresh (key x) m) e h.0), HasDistinctKeys-perm p h.1)
  HasDistinctKeys-perm (Permᴰ.swap {l = l} e e') h = (
    ((λ q. h.0.0 (ap key e ∙ sym q ∙ ap key (sym e'))), subst (λ x. IsFresh (key x) l) e' h.1.0),
    (subst (λ x. IsFresh (key x) l) e h.0.1, h.1.1),
  )
  HasDistinctKeys-perm (Permᴰ.trans p q) h = HasDistinctKeys-perm q (HasDistinctKeys-perm p h)

  -- The result does not depend on the order of the input, if no key occurs twice.
  pub sort_by-perm : {xs ys : List A} → Permᴰ xs ys → HasDistinctKeys xs → sort_by xs ≡ sort_by ys
  unfolding sort_by
  sort_by-perm Permᴰ.nil h = refl
  sort_by-perm (Permᴰ.cons e p) h = ap₂ insert_sorted e (sort_by-perm p h.1)
  sort_by-perm (Permᴰ.swap {a = a} {b = b} {l = l} e e') h =
      insert_sorted_comm a b (sort_by l) h.0.0
      ∙ ap₂ (λ x y. insert_sorted x (insert_sorted y (sort_by l))) e' e
  sort_by-perm (Permᴰ.trans p q) h = sort_by-perm p h ∙ sort_by-perm q (HasDistinctKeys-perm p h)

  insert_sorted-permutes : (x : A) (ys : List A) → Permᴰ (insert_sorted x ys) (x ∷ ys)
  unfolding insert_sorted
  insert_sorted-permutes x [] = Permᴰ.refl (x ∷ [])
  insert_sorted-permutes x (y ∷ ys) = elim (Bool-cases (precedes (key y) (key x))) [
    | inl before ↦
        rw before
          (Permᴰ.trans (Permᴰ.cons refl (insert_sorted-permutes x ys)) (Permᴰ.swap refl refl))
    | inr after ↦ rw after (Permᴰ.refl (x ∷ y ∷ ys))
  ]

  pub sort_by-permutes : (xs : List A) → Permᴰ (sort_by xs) xs
  unfolding sort_by
  sort_by-permutes [] = Permᴰ.nil
  sort_by-permutes (x ∷ xs) =
      Permᴰ.trans (insert_sorted-permutes x (sort_by xs)) (Permᴰ.cons refl (sort_by-permutes xs))
