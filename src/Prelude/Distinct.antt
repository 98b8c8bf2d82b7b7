-- ===== src/Prelude/Distinct.antt =====
-- Lists without repetitions.
use Prim.Native.Nat.{ℕ, zero, suc}
use mathlib.Core.Path.{sym}
use mathlib.Core.Logic.{◌≢◌}
use mathlib.Core.List.{List, [], ◌∷◌, ◌++◌}
use zero_window.Prelude.Lists.{take}

module _ {A : Type 0} where
  abbrev pub Apart : A → List A → Type 0
  Apart x [] = Unit
  Apart x (y ∷ ys) = (x ≢ y) × Apart x ys

  abbrev pub AreDistinct : List A → Type 0
  AreDistinct [] = Unit
  AreDistinct (x ∷ xs) = Apart x xs × AreDistinct xs

  Apart-take : (x : A) (n : ℕ) (xs : List A) → Apart x xs → Apart x (take n xs)
  Apart-take x zero xs h = tt
  Apart-take x (suc n) [] h = tt
  Apart-take x (suc n) (y ∷ xs) (ne, h) = (ne, Apart-take x n xs h)

  pub AreDistinct-take : (n : ℕ) (xs : List A) → AreDistinct xs → AreDistinct (take n xs)
  AreDistinct-take zero xs h = tt
  AreDistinct-take (suc n) [] h = tt
  AreDistinct-take (suc n) (x ∷ xs) (apart, h) = (Apart-take x n xs apart, AreDistinct-take n xs h)

  Apart-snoc :
      (y : A) (xs : List A) (x : A) (ys : List A)
      → Apart y (xs ++ x ∷ ys)
      → (y ≢ x) × Apart y (xs ++ ys)
  Apart-snoc y [] x ys (ne, apart) = (ne, apart)
  Apart-snoc y (z ∷ xs) x ys (ne, apart) =
      let rest = Apart-snoc y xs x ys apart in (rest.0, (ne, rest.1))

  -- A point of distinct points is none of the others.
  pub distinct_others :
      (before : List A) (x : A) (after : List A)
      → AreDistinct (before ++ x ∷ after)
      → Apart x (before ++ after)
  distinct_others [] x after (apart, distinct) = apart
  distinct_others (y ∷ before) x after (apart, distinct) =
      (λ e. (Apart-snoc y before x after apart).0 (sym e), distinct_others before x after distinct)
