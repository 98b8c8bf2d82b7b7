-- ===== src/Crypto/Field/Interpolation.antt =====
-- Lagrange's interpolation at null, over any field of characteristic two: packages/crypto/src/
-- shamir.ts relies on it.
use zero_window.Prelude.{
  ℕ, zero, suc, ◌≤◌, ◌≡◌, refl, sym, ap, ap₂, ◌∙◌, ◌≢◌, List, [], ◌∷◌, ◌++◌, length, arith,
}
use zero_window.Prelude.Distinct.{Apart, AreDistinct}
use zero_window.Crypto.Field.{
  TwoField, plus_left_comm, times_left_comm, null-plus, unit-times, plus_cancel, times-null,
  null-times, plus-times, plus_ne-null, times_cancel, times_ne-null, product, plus_right_cancel,
}

module _ {A : Type 0} (field : TwoField A) where
  open field use {
    null, unit, plus, times, inverse, plus_assoc, plus_comm, plus-null, plus_self, times_assoc,
    times_comm, times-unit, times-plus, times-inverse, unit_ne-null,
  }

  -- A polynomial in Newton's form: its constant term, and its factor over a centre.
  abbrev pub eval : List (A × A) → A → A
  eval [] z = null
  eval ((c, a) ∷ g) z = plus c (times (plus z a) (eval g z))

  abbrev quotient : A → List (A × A) → List (A × A)
  quotient r [] = []
  quotient r ((c, a) ∷ []) = []
  quotient r ((c, a) ∷ d ∷ g) = (eval (d ∷ g) r, a) ∷ quotient r (d ∷ g)

  length-quotient :
      (r : A) (n : ℕ) (g : List (A × A)) → length g ≤ suc n → length (quotient r g) ≤ n
  length-quotient r n [] h = omega arith
  length-quotient r n ((c, a) ∷ []) h = omega arith
  length-quotient r zero ((c, a) ∷ d ∷ g) h = absurd (omega arith)
  length-quotient r (suc n) ((c, a) ∷ d ∷ g) h =
      omega (arith, length-quotient r n (d ∷ g) (omega arith))

  quotient_step :
      (c a r z e q : A)
      → plus c (times (plus z a) (plus e (times (plus z r) q)))
        ≡ plus (plus c (times (plus r a) e)) (times (plus z r) (plus e (times (plus z a) q)))
  quotient_step c a r z e q =
      simp
        (
          times-plus,
          plus-times field,
          plus_assoc,
          plus_comm,
          plus_left_comm field,
          plus_cancel field,
          times_left_comm field,
        )
        refl

  eval_constant : (c a z : A) → eval ((c, a) ∷ []) z ≡ c
  eval_constant c a z = ap (plus c) (times-null field _) ∙ plus-null c

  eval-quotient :
      (r z : A) (g : List (A × A))
      → eval g z ≡ plus (eval g r) (times (plus z r) (eval (quotient r g) z))
  eval-quotient r z [] = simp (times-null field, plus-null) refl
  eval-quotient r z ((c, a) ∷ []) = simp (times-null field, plus-null, eval_constant c a) refl
  eval-quotient r z ((c, a) ∷ d ∷ g) =
      ap (λ t. plus c (times (plus z a) t)) (eval-quotient r z (d ∷ g))
      ∙ quotient_step c a r z (eval (d ∷ g) r) (eval (quotient r (d ∷ g)) z)

  -- The share of the point x in the value at null, with the other points.
  abbrev pub weight : List A → A → A
  weight [] x = unit
  weight (m ∷ ms) x = times (times m (inverse (plus m x))) (weight ms x)

  -- The sum over the points of a list, with the points before them.
  abbrev pub combined : List A → (A → A) → List A → A
  combined before f [] = null
  combined before f (x ∷ after) =
      plus (times (f x) (weight (before ++ after) x)) (combined (before ++ x ∷ []) f after)

  weight_first :
      (x first : A) (w : A)
      → first ≢ x
      → times (plus x first) (times (times first (inverse (plus first x))) w) ≡ times first w
  weight_first x first w ne =
      let inv = times-inverse (plus first x) (plus_ne-null field first x ne) in
      ap (λ t. times t (times (times first (inverse (plus first x))) w)) (plus_comm x first)
      ∙ simp (times_assoc, times_left_comm field _ first) refl
      ∙ ap (times first) (sym (times_assoc _ _ _) ∙ ap (λ t. times t w) inv ∙ unit-times field w)

  combined_step :
      (fx fr first s q v w once rest : A)
      → fx ≡ plus fr (times s q)
      → times s v ≡ times first w
      → plus (times fx v) (plus (times fr once) (times first rest))
        ≡ plus (times fr (plus (times unit v) once)) (times first (plus (times q w) rest))
  combined_step fx fr first s q v w once rest e ratio =
      let moved : times (times s q) v ≡ times first (times q w) =
        simp (times_comm s q, times_assoc, ratio, times_left_comm field first q) refl in
      simp
        (
          e,
          unit-times field,
          times-plus,
          plus-times field,
          moved,
          plus_assoc,
          plus_comm,
          plus_left_comm field,
        )
        refl

  combined-quotient :
      (first : A) (f q : A → A)
      → ((z : A) → f z ≡ plus (f first) (times (plus z first) (q z)))
      → (before after : List A) → Apart first after
      → combined (first ∷ before) f after
        ≡ plus
            (times (f first) (combined (first ∷ before) (λ _. unit) after))
            (times first (combined before q after))
  combined-quotient first f q h before [] apart = simp (times-null field, plus-null) refl
  combined-quotient first f q h before (x ∷ after) (ne, apart) =
      ap (plus _) (combined-quotient first f q h (before ++ x ∷ []) after apart)
      ∙ combined_step (f x) (f first) first (plus x first) (q x) _ (weight (before ++ after) x) _ _
          (h x) (weight_first x first (weight (before ++ after) x) ne)

  -- The polynomial with the given roots.
  abbrev rooted : List A → List (A × A)
  rooted [] = (unit, null) ∷ []
  rooted (m ∷ ms) = (null, m) ∷ rooted ms

  length-rooted : (ms : List A) → length (rooted ms) ≡ suc (length ms)
  length-rooted [] = refl
  length-rooted (m ∷ ms) = ap suc (length-rooted ms)

  eval-rooted : (ms : List A) → eval (rooted ms) null ≡ product field ms
  unfolding product
  eval-rooted [] = eval_constant unit null null
  eval-rooted (m ∷ ms) = simp (eval-rooted ms, null-plus field) refl

  combined-rooted :
      (f k : A → A) (before ms : List A)
      → ((x : A) → f x ≡ times (k x) (eval (rooted ms) x))
      → combined before f ms ≡ null
  combined-rooted f k before [] h = refl
  combined-rooted f k before (m ∷ ms) h =
      let here : f m ≡ null = h m ∙ simp (plus_self, null-times field, times-null field) refl in
      ap₂ plus (ap (λ t. times t (weight (before ++ ms) m)) here ∙ null-times field _) (
        combined-rooted f (λ x. times (k x) (plus x m)) (before ++ m ∷ []) ms
          (λ x. h x ∙ ap (times (k x)) (null-plus field _) ∙ sym (times_assoc _ _ _)))
      ∙ plus-null null

  eval-rooted_ne-null : (x : A) (ms : List A) → Apart x ms → eval (rooted ms) x ≢ null
  eval-rooted_ne-null x [] apart e = unit_ne-null (sym (eval_constant unit null x) ∙ e)
  eval-rooted_ne-null x (m ∷ ms) (ne, apart) e =
      times_ne-null field _ _ (plus_ne-null field x m ne) (eval-rooted_ne-null x ms apart)
        (sym (null-plus field _) ∙ e)

  weight-product :
      (x : A) (ms : List A)
      → Apart x ms
      → times (eval (rooted ms) x) (weight ms x) ≡ product field ms
  unfolding product
  weight-product x [] apart = times-unit _ ∙ eval_constant unit null x
  weight-product x (m ∷ ms) (ne, apart) =
      let rest = eval (rooted ms) x in
      let last = weight ms x in
      ap (λ t. times t (weight (m ∷ ms) x)) (null-plus field _ ∙ times_comm (plus x m) rest)
      ∙ times_assoc rest (plus x m) (weight (m ∷ ms) x)
      ∙ ap (times rest) (weight_first x m last (λ e. ne (sym e)))
      ∙ times_left_comm field rest m last
      ∙ ap (times m) (weight-product x ms apart)

  combined_split :
      (x : A) (xs : List A) (g : List (A × A))
      → Apart x xs
      → combined [] (eval g) (x ∷ xs)
        ≡ plus
            (times (eval g x) (combined [] (λ _. unit) (x ∷ xs)))
            (times x (combined [] (eval (quotient x g)) xs))
  combined_split x xs g apart =
      ap (plus (times (eval g x) (weight xs x)))
        (combined-quotient x (eval g) (eval (quotient x g)) (λ z. eval-quotient x z g) [] xs apart)
      ∙ simp (times-plus, unit-times field, plus_assoc) refl

  eval_null :
      (x : A) (g : List (A × A))
      → eval g null ≡ plus (eval g x) (times x (eval (quotient x g) null))
  eval_null x g =
      eval-quotient x null g
      ∙ ap (λ t. plus (eval g x) (times t (eval (quotient x g) null))) (null-plus field x)

  -- The weights of the points sum up to the unit, if those of all but the first interpolate.
  combined_unit :
      (x : A) (xs : List A)
      → Apart x xs
      → ((g : List (A × A)) → length g ≤ length xs → combined [] (eval g) xs ≡ eval g null)
      → combined [] (λ _. unit) (x ∷ xs) ≡ unit
  combined_unit x xs apart ih =
      let h = rooted xs in
      let q = quotient x h in
      let rest = times x (eval q null) in
      let short : length q ≤ length xs =
        length-quotient x (length xs) h (omega (arith, length-rooted xs)) in
      let whole : combined [] (eval h) (x ∷ xs) ≡ eval h null =
        ap₂ plus (weight-product x xs apart)
          (combined-rooted (eval h) (λ _. unit) (x ∷ []) xs (λ z. sym (unit-times field _)))
        ∙ plus-null _
        ∙ sym (eval-rooted xs) in
      let sum = combined [] (λ _. unit) (x ∷ xs) in
      let split : plus (times (eval h x) sum) rest ≡ plus (eval h x) rest =
        ap (λ t. plus (times (eval h x) sum) (times x t)) (sym (ih q short))
        ∙ sym (combined_split x xs h apart)
        ∙ whole
        ∙ eval_null x h in
      times_cancel field (eval h x) sum unit (eval-rooted_ne-null x xs apart)
        (plus_right_cancel field _ _ rest split ∙ sym (times-unit _))

  -- The values of a polynomial at distinct points, at least as many as it has terms, give its
  -- value at null.
  pub combined-eval :
      (xs : List A) (g : List (A × A))
      → AreDistinct xs
      → length g ≤ length xs
      → combined [] (eval g) xs ≡ eval g null
  combined-eval [] [] distinct short = refl
  combined-eval [] (d ∷ g) distinct short = absurd (omega arith)
  combined-eval (x ∷ xs) g (apart, distinct) short =
      let ih : (g : List (A × A)) → length g ≤ length xs → combined [] (eval g) xs ≡ eval g null =
        λ h fits. combined-eval xs h distinct fits in
      combined_split x xs g apart
      ∙ ap₂ (λ s t. plus (times (eval g x) s) (times x t)) (combined_unit x xs apart ih)
          (ih (quotient x g) (length-quotient x (length xs) g short))
      ∙ ap (λ t. plus t (times x (eval (quotient x g) null))) (times-unit _)
      ∙ sym (eval_null x g)
