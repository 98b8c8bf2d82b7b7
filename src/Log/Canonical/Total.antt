-- ===== src/Log/Canonical/Total.antt =====
-- packages/log/src/canonical.ts: which values are refused.
use zero_window.Prelude.{
  ℕ, ◌+◌, ◌≡◌, refl, ap, ap₂, ◌∙◌, Bool, true, false, ◌&&◌, not, Text, List, [], ◌∷◌, ◌++◌, ltb,
  Result, ok, err, map_ok, and_then, arith,
}
use zero_window.Prelude.Sort.{sort_by, insert_sorted}
use zero_window.Log.Canonical.{
  Value, Items, Fields, Number, null, undefined, bigint, callable, binary, boolean, number, string,
  array, object, nil, cons, end, field, non_finite, fraction, negative_zero, integer, negative,
  max_safe_integer, encode_number, encode, encode_items, encode_fields, canonicalize, braces, Part,
  part_key, property_part, is_undefined, CanonicalizationError, index_path, collect_parts,
}

abbrev pub is_safe : Number → Bool
is_safe non_finite = false
is_safe fraction = false
is_safe negative_zero = true
is_safe (integer n) = not (ltb max_safe_integer n)
is_safe (negative n) = not (ltb max_safe_integer (n + 1))

-- Every number is a safe integer, and nothing undefined, binary or not a JSON value occurs.
unfoldable mutual
  pub is_canonical : Value → Bool
  is_canonical null = true
  is_canonical undefined = false
  is_canonical bigint = false
  is_canonical callable = false
  is_canonical binary = false
  is_canonical (boolean b) = true
  is_canonical (number n) = is_safe n
  is_canonical (string s) = true
  is_canonical (array vs) = are_canonical vs
  is_canonical (object fs) = have_canonical fs

  pub are_canonical : Items → Bool
  are_canonical nil = true
  are_canonical (cons v vs) = is_canonical v && are_canonical vs

  pub have_canonical : Fields → Bool
  have_canonical end = true
  have_canonical (field k v fs) = is_canonical v && have_canonical fs

abbrev pub is_ok : {A : Type 0} → Result CanonicalizationError A → Bool
is_ok (ok a) = true
is_ok (err e) = false

is_ok-map_ok :
    {A B : Type 0} (f : A → B) (r : Result CanonicalizationError A) → is_ok (map_ok f r) ≡ is_ok r
is_ok-map_ok f (ok a) = refl
is_ok-map_ok f (err e) = refl

is_ok-and_then :
    {A B C : Type 0} (f : A → B → C) (r : Result CanonicalizationError A)
    (t : Result CanonicalizationError B)
    → is_ok (and_then r (λ a. map_ok (f a) t)) ≡ (is_ok r && is_ok t)
is_ok-and_then f (ok a) (ok b) = refl
is_ok-and_then f (ok a) (err e) = refl
is_ok-and_then f (err e) t = refl

all_ok : List Part → Bool
all_ok [] = true
all_ok (p ∷ ps) = is_ok p.1 && all_ok ps

all_ok-insert_sorted :
    (p : Part) (ps : List Part) → all_ok (insert_sorted part_key p ps) ≡ (is_ok p.1 && all_ok ps)
unfolding insert_sorted all_ok
all_ok-insert_sorted p [] = refl
all_ok-insert_sorted p (q ∷ qs) = ground (arith, all_ok-insert_sorted p qs)

all_ok-sort_by : (ps : List Part) → all_ok (sort_by part_key ps) ≡ all_ok ps
unfolding sort_by all_ok
all_ok-sort_by [] = refl
all_ok-sort_by (p ∷ ps) =
    all_ok-insert_sorted p (sort_by part_key ps) ∙ ap (λ b. is_ok p.1 && b) (all_ok-sort_by ps)

is_ok-collect_parts : (ps : List Part) → is_ok (collect_parts ps) ≡ all_ok ps
unfolding collect_parts all_ok
is_ok-collect_parts [] = refl
is_ok-collect_parts ((k, r) ∷ ps) =
    is_ok-and_then _ r (collect_parts ps) ∙ ap (λ b. is_ok r && b) (is_ok-collect_parts ps)

is_ok-braces : (ps : List Part) → is_ok (braces ps) ≡ all_ok ps
unfolding braces
is_ok-braces ps =
    is_ok-map_ok _ (collect_parts (sort_by part_key ps))
    ∙ is_ok-collect_parts (sort_by part_key ps)
    ∙ all_ok-sort_by ps

is_ok-encode_number : (n : Number) (path : Text) → is_ok (encode_number n path) ≡ is_safe n
unfolding encode_number
is_ok-encode_number non_finite path = refl
is_ok-encode_number fraction path = refl
is_ok-encode_number negative_zero path = refl
is_ok-encode_number (integer n) path = ground arith
is_ok-encode_number (negative n) path = ground arith

-- A property that is undefined is refused like an undefined value.
is_ok-property_part :
    (k : Text) (v : Value) (path : Text) (r : Result CanonicalizationError Text)
    → is_ok r ≡ is_canonical v
    → is_ok (property_part k (is_undefined v) path r).1 ≡ is_canonical v
unfolding is_canonical
is_ok-property_part k undefined path r h = refl
is_ok-property_part k v path r h = h

mutual
  unfolding encode is_canonical all_ok

  is_ok-encode : (v : Value) (path : Text) → is_ok (encode v path) ≡ is_canonical v
  is_ok-encode null path = refl
  is_ok-encode undefined path = refl
  is_ok-encode bigint path = refl
  is_ok-encode callable path = refl
  is_ok-encode binary path = refl
  is_ok-encode (boolean b) path = refl
  is_ok-encode (number n) path = is_ok-encode_number n path
  is_ok-encode (string s) path = refl
  is_ok-encode (array vs) path =
      is_ok-map_ok _ (encode_items vs path 0) ∙ is_ok-encode_items vs path 0
  is_ok-encode (object fs) path =
      is_ok-braces (encode_fields fs path) ∙ all_ok-encode_fields fs path

  is_ok-encode_items :
      (vs : Items) (path : Text) (i : ℕ) → is_ok (encode_items vs path i) ≡ are_canonical vs
  is_ok-encode_items nil path i = refl
  is_ok-encode_items (cons v vs) path i =
      is_ok-and_then (λ text ts. text ∷ ts) (encode v (index_path path i))
        (encode_items vs path (i + 1))
      ∙ ap₂ (λ a b. a && b) (is_ok-encode v (index_path path i))
          (is_ok-encode_items vs path (i + 1))

  all_ok-encode_fields :
      (fs : Fields) (path : Text) → all_ok (encode_fields fs path) ≡ have_canonical fs
  all_ok-encode_fields end path = refl
  all_ok-encode_fields (field k v fs) path =
      ap₂ (λ a b. a && b)
        (is_ok-property_part k v path (encode v (path ++ 46 ∷ k)) (is_ok-encode v (path ++ 46 ∷ k)))
        (all_ok-encode_fields fs path)

-- `canonicalize` returns a text for exactly the values in which every number is a safe integer
-- and nothing is undefined, a bigint, a function, a symbol or binary; it throws for all others.
pub canonicalize-is_canonical : (v : Value) → is_ok (canonicalize v) ≡ is_canonical v
unfolding canonicalize
canonicalize-is_canonical v = is_ok-encode v []
