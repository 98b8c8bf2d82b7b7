-- ===== src/Log/Canonical/Order.antt =====
-- packages/log/src/canonical.ts: the encoding does not depend on the order of properties.
use zero_window.Prelude.{
  ℕ, ◌+◌, ◌≡◌, refl, ap, ap₂, ◌∙◌, ◌≢◌, Text, List, [], ◌∷◌, ◌++◌, map_ok, and_then,
}
use zero_window.Prelude.Sort.{sort_by, insert_sorted, insert_sorted_comm}
use zero_window.Log.Canonical.{
  Value, Items, Fields, array, object, nil, cons, end, field, encode, encode_items, encode_fields,
  canonicalize, Part, part_key, property_part, is_undefined, index_path, collect_parts, join_comma,
}

-- Two values that differ only in the order of the properties of their objects, at any depth. Two
-- properties that change places have different keys, as all keys of an object have.
mutual
  pub data Reordered : Value → Value → Type 0 where
    same : {v : Value} → Reordered v v
    in_array : {vs ws : Items} → ReorderedItems vs ws → Reordered (array vs) (array ws)
    in_object : {fs gs : Fields} → ReorderedFields fs gs → Reordered (object fs) (object gs)

  pub data ReorderedItems : Items → Items → Type 0 where
    no_items : ReorderedItems nil nil
    items :
        {v w : Value} {vs ws : Items}
        → Reordered v w
        → ReorderedItems vs ws
        → ReorderedItems (cons v vs) (cons w ws)

  pub data ReorderedFields : Fields → Fields → Type 0 where
    no_fields : ReorderedFields end end
    fields :
        {k : Text} {v w : Value} {fs gs : Fields}
        → Reordered v w
        → ReorderedFields fs gs
        → ReorderedFields (field k v fs) (field k w gs)
    swap :
        {j k : Text} {v w : Value} {fs : Fields}
        → j ≢ k
        → ReorderedFields (field j v (field k w fs)) (field k w (field j v fs))
    trans :
        {fs gs hs : Fields} → ReorderedFields fs gs → ReorderedFields gs hs → ReorderedFields fs hs

Reordered-is_undefined : {v w : Value} → Reordered v w → is_undefined v ≡ is_undefined w
Reordered-is_undefined same = refl
Reordered-is_undefined (in_array r) = refl
Reordered-is_undefined (in_object r) = refl

abbrev sorted_parts : Fields → Text → List Part
sorted_parts fs path = sort_by part_key (encode_fields fs path)

mutual
  unfolding encode sort_by

  encode-Reordered : {v w : Value} → Reordered v w → (path : Text) → encode v path ≡ encode w path
  encode-Reordered same path = refl
  encode-Reordered (in_array r) path =
      ap (map_ok (λ ts. 91 ∷ join_comma ts ++ 93 ∷ [])) (encode_items-Reordered r path 0)
  encode-Reordered (in_object r) path =
      ap (λ parts. map_ok (λ ts. 123 ∷ join_comma ts ++ 125 ∷ []) (collect_parts parts))
        (sorted_parts-Reordered r path)

  encode_items-Reordered :
      {vs ws : Items}
      → ReorderedItems vs ws
      → (path : Text) (i : ℕ) → encode_items vs path i ≡ encode_items ws path i
  encode_items-Reordered no_items path i = refl
  encode_items-Reordered (items r rs) path i =
      ap₂ (λ h t. and_then h (λ text. map_ok (λ ts. text ∷ ts) t))
        (encode-Reordered r (index_path path i)) (encode_items-Reordered rs path (i + 1))

  sorted_parts-Reordered :
      {fs gs : Fields}
      → ReorderedFields fs gs
      → (path : Text) → sorted_parts fs path ≡ sorted_parts gs path
  sorted_parts-Reordered no_fields path = refl
  sorted_parts-Reordered (fields {k = k} r rs) path =
      ap₂ (insert_sorted part_key)
        (ap₂ (λ u t. property_part k u path t) (Reordered-is_undefined r)
          (encode-Reordered r (path ++ 46 ∷ k)))
        (sorted_parts-Reordered rs path)
  sorted_parts-Reordered (swap {fs = fs} ne) path =
      insert_sorted_comm part_key _ _ (sorted_parts fs path) ne
  sorted_parts-Reordered (trans r s) path =
      sorted_parts-Reordered r path ∙ sorted_parts-Reordered s path

-- Two values that differ only in the order of their objects' properties, at any depth, have one
-- canonical form, and are refused with one error.
pub canonicalize-Reordered : (v w : Value) → Reordered v w → canonicalize v ≡ canonicalize w
unfolding canonicalize
canonicalize-Reordered v w r = encode-Reordered r []
