-- ===== src/Prelude/Search.antt =====
-- Searching a table of rows by a text key, and adding a row at its end.
use mathlib.Core.Path.{◌≡◌, refl, sym, ap, subst, ◌∙◌}
use mathlib.Core.Logic.{◌≢◌, inl, inr}
use mathlib.Core.Bool.{Bool, true, false}
use mathlib.Core.Option.{none, some}
use mathlib.Core.List.{List, [], ◌∷◌, ◌++◌}
use native.Mathlib.Omega.{arith}
use zero_window.Prelude.Tests.{Text, equals, equals_iff, Bool-cases}
use zero_window.Prelude.Lists.{any, find, select}
use zero_window.Prelude.Sort.{IsFresh, HasDistinctKeys}

module _ {ℓ} {A : Type ℓ} where
  pub find-none : (p : A → Bool) (xs : List A) → find p xs ≡ none → any p xs ≡ false
  find-none p [] h = refl
  find-none p (x ∷ xs) h = elim (Bool-cases (p x)) [
    | inl holds ↦ absurd (ground arith)
    | inr fails ↦ rw fails (find-none p xs (rw fails at h))
  ]

  pub find-append :
      (p : A → Bool) (xs ys : List A) {a : A} → find p xs ≡ some a → find p (xs ++ ys) ≡ some a
  find-append p [] ys h = absurd cc
  find-append p (x ∷ xs) ys h = elim (Bool-cases (p x)) [
    | inl holds ↦ ground arith
    | inr fails ↦ rw fails (find-append p xs ys (rw fails at h))
  ]

  pub find-holds : (p : A → Bool) (xs : List A) {a : A} → find p xs ≡ some a → p a ≡ true
  find-holds p [] h = absurd cc
  find-holds p (x ∷ xs) {a} h = elim (Bool-cases (p x)) [
    | inl holds ↦ let e : x ≡ a = cc in subst (λ y. p y ≡ true) e holds
    | inr fails ↦ find-holds p xs (rw fails at h)
  ]

  pub find-any : (p : A → Bool) (xs : List A) {a : A} → find p xs ≡ some a → any p xs ≡ true
  find-any p [] h = absurd cc
  find-any p (x ∷ xs) h = elim (Bool-cases (p x)) [
    | inl holds ↦ rw holds refl
    | inr fails ↦ rw fails (find-any p xs (rw fails at h))
  ]

  pub select-append :
      (p : A → Bool) (xs ys : List A) → select p (xs ++ ys) ≡ select p xs ++ select p ys
  select-append p [] ys = refl
  select-append p (x ∷ xs) ys = elim (Bool-cases (p x)) [
    | inl holds ↦ rw holds (ap (λ t. x ∷ t) (select-append p xs ys))
    | inr fails ↦ rw fails (select-append p xs ys)
  ]

module _ {ℓ} {A : Type ℓ} (key : A → Text) where
  -- The row with a key.
  abbrev pub has_key : Text → A → Bool
  has_key k x = equals (key x) k

  IsFresh-snoc :
      (k : Text) (xs : List A) (x : A) → k ≢ key x → IsFresh key k xs → IsFresh key k (xs ++ x ∷ [])
  IsFresh-snoc k [] x ne h = (ne, tt)
  IsFresh-snoc k (y ∷ ys) x ne h = (h.0, IsFresh-snoc k ys x ne h.1)

  pub HasDistinctKeys-snoc :
      (xs : List A) (x : A)
      → any (has_key (key x)) xs ≡ false
      → HasDistinctKeys key xs
      → HasDistinctKeys key (xs ++ x ∷ [])
  HasDistinctKeys-snoc [] x h d = (tt, tt)
  HasDistinctKeys-snoc (y ∷ ys) x h d =
      let apart : key y ≢ key x = ground (arith, equals_iff (key y) (key x)) in
      let others : any (has_key (key x)) ys ≡ false = ground arith in
      (IsFresh-snoc (key y) ys x apart d.0, HasDistinctKeys-snoc ys x others d.1)

  find-fresh :
      (p : A → Bool) (k : Text) (xs : List A) {a : A}
      → find p xs ≡ some a
      → IsFresh key k xs
      → k ≢ key a
  find-fresh p k [] h f = absurd cc
  find-fresh p k (x ∷ xs) {a} h f = elim (Bool-cases (p x)) [
    | inl holds ↦ let e : x ≡ a = cc in subst (λ y. k ≢ key y) e f.0
    | inr fails ↦ find-fresh p k xs (rw fails at h) f.1
  ]

  -- Two rows that are found and have one key are one row.
  pub find_unique :
      (p q : A → Bool) (xs : List A) {a b : A}
      → HasDistinctKeys key xs
      → find p xs ≡ some a
      → find q xs ≡ some b
      → key a ≡ key b
      → a ≡ b
  find_unique p q [] d h k same = absurd cc
  find_unique p q (x ∷ xs) {a} {b} d h k same = elim (Bool-cases (p x)) [
    | inl p_holds ↦
        let e : x ≡ a = cc in
        elim (Bool-cases (q x)) [
          | inl q_holds ↦ cc
          | inr q_fails ↦ absurd (find-fresh q (key x) xs (rw q_fails at k) d.0 (ap key e ∙ same))
        ]
    | inr p_fails ↦ elim (Bool-cases (q x)) [
      | inl q_holds ↦
          let e : x ≡ b = cc in
          absurd (find-fresh p (key x) xs (rw p_fails at h) d.0 (ap key e ∙ sym same))
      | inr q_fails ↦ find_unique p q xs d.1 (rw p_fails at h) (rw q_fails at k) same
    ]
  ]
