-- ===== src/Log/Fields.antt =====
-- packages/log/src/types.ts: reading a payload by its keys, apart from the code that writes it.
use zero_window.Prelude.{◌≡◌, ℕ, Text, Option, none, some, List, [], ◌∷◌, equals, if◌then◌else◌}
use zero_window.Log.Canonical.{
  Value, Items, Fields, nil, cons, string, number, integer, array, end, field,
}

abbrev pub value_of : Text → Fields → Option Value
value_of key end = none
value_of key (field k v rest) = if equals k key then some v else value_of key rest

-- The items are these texts.
abbrev pub AreTexts : List Text → Items → Type 0
AreTexts [] nil = Unit
AreTexts [] (cons v items) = ⊥
AreTexts (t ∷ ts) nil = ⊥
AreTexts (t ∷ ts) (cons v items) = (v ≡ string t) × AreTexts ts items

abbrev pub HasText : Text → Text → Fields → Type 0
HasText key t payload = value_of key payload ≡ some (string t)

abbrev pub HasNumber : Text → ℕ → Fields → Type 0
HasNumber key n payload = value_of key payload ≡ some (number (integer n))

abbrev pub HasTexts : Text → List Text → Fields → Type 0
HasTexts key ts payload =
    (items : Items) × (value_of key payload ≡ some (array items)) × AreTexts ts items
