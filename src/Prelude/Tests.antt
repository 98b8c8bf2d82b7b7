-- ===== src/Prelude/Tests.antt =====
-- Boolean tests on the native numbers and on byte strings, and the conditional.
use Prim.Native.Nat.{ℕ, ◌<◌, compare, Ordering}
use mathlib.Core.Path.{◌≡◌, refl}
use mathlib.Core.Logic.{◌↔◌, ◌⊎◌, inl, inr, ◌≢◌}
use mathlib.Core.Bool.{Bool, true, false, ◌&&◌}
use mathlib.Core.Option.{Option, none, some}
use mathlib.Core.List.{List, [], ◌∷◌}
use native.Mathlib.Omega.{arith}

abbrev pub ltb : ℕ → ℕ → Bool
ltb a b = elim (compare a b) [ Ordering.lt ↦ true | _ ↦ false ]

abbrev pub leb : ℕ → ℕ → Bool
leb a b = elim (compare a b) [ Ordering.gt ↦ false | _ ↦ true ]

infix 50 ◌==◌
abbrev pub ◌==◌ : ℕ → ℕ → Bool
a == b = elim (compare a b) [ Ordering.eq ↦ true | _ ↦ false ]

infix 1 if◌then◌else◌
abbrev pub if◌then◌else◌ {ℓ} : {A : Type ℓ} → Bool → A → A → A
if true then x else y = x
if false then x else y = y

pub ltb→lt : (a b : ℕ) → ltb a b ≡ true → a < b
ltb→lt a b h = ground arith

pub lt→ltb : (a b : ℕ) → a < b → ltb a b ≡ true
lt→ltb a b h = ground arith

pub ==_iff : (a b : ℕ) → ((a == b) ≡ true) ↔ (a ≡ b)
==_iff a b = ground arith

-- Byte strings and texts: the bytes of a buffer, the code units of a string.
abbrev pub Bytes : Type 0
Bytes = List ℕ

abbrev pub AreBytes : Bytes → Type 0
AreBytes [] = Unit
AreBytes (b ∷ bs) = (b < 256) × AreBytes bs

abbrev pub Text : Type 0
Text = List ℕ

-- `Buffer.equals`, and `===` on strings.
unfoldable pub equals : List ℕ → List ℕ → Bool
equals [] [] = true
equals [] (b ∷ bs) = false
equals (a ∷ as') [] = false
equals (a ∷ as') (b ∷ bs) = a == b && equals as' bs

pub equals_iff : (s t : List ℕ) → (equals s t ≡ true) ↔ (s ≡ t)
unfolding equals
equals_iff [] [] = ground arith
equals_iff [] (b ∷ bs) = ground arith
equals_iff (a ∷ s) [] = ground arith
equals_iff (a ∷ s) (b ∷ t) = ground (arith, equals_iff s t)

pub equals_refl : (s : List ℕ) → equals s s ≡ true
equals_refl s = (equals_iff s s).1 refl

pub equals_ne : (s t : List ℕ) → s ≢ t → equals s t ≡ false
equals_ne s t h = ground (arith, equals_iff s t)

pub Bool-cases : (b : Bool) → (b ≡ true) ⊎ (b ≡ false)
Bool-cases true = inl refl
Bool-cases false = inr refl

pub Option-cases {ℓ} : {A : Type ℓ} (o : Option A) → (o ≡ none) ⊎ ((a : A) × (o ≡ some a))
Option-cases none = inl refl
Option-cases (some a) = inr (a, refl)

-- The branch taken, where a rewrite by the test would also reach into it.
pub taken_else {ℓ} :
    {A : Type ℓ} (b : Bool) (x : A) {y z : A} → b ≡ false → (if b then x else y) ≡ z → y ≡ z
taken_else true x h e = cc
taken_else false x h e = e

-- What holds of both branches, each with its test.
pub if-cases {ℓ κ} :
    {A : Type ℓ} (P : A → Type κ) (b : Bool) (x y : A)
    → (b ≡ true → P x)
    → (b ≡ false → P y)
    → P (if b then x else y)
if-cases P true x y yes_case no_case = yes_case refl
if-cases P false x y yes_case no_case = no_case refl
