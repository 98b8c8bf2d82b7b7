-- ===== src/Log/Canonical.antt =====
-- packages/log/src/canonical.ts: canonical JSON. A text is the list of its UTF-16 code units; the
-- source walks code points, which writes the same units, as it escapes none above 0x7f. An object
-- is the list of its properties in any order, with no key twice.
pub mod Order
pub mod Total
use zero_window.Prelude.{
  ℕ, zero, suc, ◌+◌, ◌-◌, ◌/◌, ◌%◌, ◌^◌, Bool, true, false, Text, List, [], ◌∷◌, ◌++◌, map, ltb,
  ◌==◌, if◌then◌else◌, Result, ok, err, map_ok, and_then,
}
use zero_window.Prelude.Sort.{sort_by}
use zero_window.Crypto.Hash.{codes}

-- The numbers of JavaScript as `encode` tells them apart; `negative n` is -(n + 1).
pub data Number : Type 0 where
  non_finite fraction negative_zero : Number
  integer negative : ℕ → Number

mutual
  pub data Value : Type 0 where
    null undefined bigint callable binary : Value
    boolean : Bool → Value
    number : Number → Value
    string : Text → Value
    array : Items → Value
    object : Fields → Value

  pub data Items : Type 0 where
    nil : Items
    cons : Value → Items → Items

  pub data Fields : Type 0 where
    end : Fields
    field : Text → Value → Fields → Fields

pub data Reason : Type 0 where
  non_finite_number non_integer_number unsafe_integer undefined_value bigint_value : Reason
  not_representable unencoded_binary : Reason
  undefined_property : Text → Reason

pub record CanonicalizationError : Type 0 where
  pub reason : Reason
  pub path : Text

-- The constructor roots the path at "$".
abbrev pub fail : {A : Type 0} → Reason → Text → Result CanonicalizationError A
fail reason path = err (record { reason = reason; path = 36 ∷ path })

-- `String(n)` for a natural number, with fuel for its digits.
decimal_digits : ℕ → ℕ → Text
decimal_digits zero n = []
decimal_digits (suc f) n =
    let higher = decimal_digits f (n / 10) in
    if ltb n 10 then (48 + n) ∷ [] else higher ++ (48 + n % 10) ∷ []

unfoldable pub decimal : ℕ → Text
unfolding decimal_digits
decimal n = decimal_digits (suc n) n

abbrev pub hex_digit : ℕ → ℕ
hex_digit d = if ltb d 10 then 48 + d else 87 + d

unfoldable pub escape_unit : ℕ → Text
escape_unit c =
    if c == 34
    then 92 ∷ 34 ∷ []
    else if c == 92
    then 92 ∷ 92 ∷ []
    else if c == 8
    then 92 ∷ 98 ∷ []
    else if c == 12
    then 92 ∷ 102 ∷ []
    else if c == 10
    then 92 ∷ 110 ∷ []
    else if c == 13
    then 92 ∷ 114 ∷ []
    else if c == 9
    then 92 ∷ 116 ∷ []
    else if ltb c 32
    then 92 ∷ 117 ∷ 48 ∷ 48 ∷ hex_digit (c / 16) ∷ hex_digit (c % 16) ∷ []
    else c ∷ []

escape_units : Text → Text
unfolding escape_unit
escape_units [] = 34 ∷ []
escape_units (c ∷ s) = escape_unit c ++ escape_units s

unfoldable pub escape_string : Text → Text
unfolding escape_units
escape_string s = 34 ∷ escape_units s

abbrev max_safe_integer : ℕ
max_safe_integer = 2 ^ 53 - 1

unfoldable pub encode_number : Number → Text → Result CanonicalizationError Text
unfolding decimal
encode_number non_finite path = fail non_finite_number path
encode_number fraction path = fail non_integer_number path
encode_number negative_zero path = ok (codes "0")
encode_number (integer n) path =
    if ltb max_safe_integer n then fail unsafe_integer path else ok (decimal n)
encode_number (negative n) path =
    if ltb max_safe_integer (n + 1) then fail unsafe_integer path else ok (45 ∷ decimal (n + 1))

-- `parts.join(",")`.
unfoldable pub join_comma : List Text → Text
join_comma [] = []
join_comma (p ∷ []) = p
join_comma (p ∷ q ∷ ps) = p ++ 44 ∷ join_comma (q ∷ ps)

abbrev pub Part : Type 0
Part = Text × Result CanonicalizationError Text

-- The loop over the sorted keys stops at the first value that throws.
unfoldable pub collect_parts : List Part → Result CanonicalizationError (List Text)
collect_parts [] = ok []
collect_parts ((k, r) ∷ ps) =
    and_then r (λ text. map_ok (λ ts. (escape_string k ++ 58 ∷ text) ∷ ts) (collect_parts ps))

abbrev pub part_key : Part → Text
part_key p = p.0

unfoldable pub braces : List Part → Result CanonicalizationError Text
unfolding collect_parts join_comma sort_by
braces parts =
    map_ok (λ ts. 123 ∷ join_comma ts ++ 125 ∷ []) (collect_parts (sort_by part_key parts))

abbrev pub index_path : Text → ℕ → Text
index_path path i = path ++ 91 ∷ decimal i ++ 93 ∷ []

abbrev pub is_undefined : Value → Bool
is_undefined undefined = true
is_undefined _ = false

-- A property whose value is undefined is refused at the object's own path.
abbrev pub property_part : Text → Bool → Text → Result CanonicalizationError Text → Part
property_part k undef path encoded =
    (k, (if undef then fail (undefined_property k) path else encoded))

-- The values are encoded in the order of the properties and sorted with their keys, so that the
-- recursion is on the value; `collect_parts` looks at them in the sorted order.
unfoldable mutual
  unfolding encode_number escape_string join_comma braces

  pub encode : Value → Text → Result CanonicalizationError Text
  encode null path = ok (codes "null")
  encode undefined path = fail undefined_value path
  encode bigint path = fail bigint_value path
  encode callable path = fail not_representable path
  encode binary path = fail unencoded_binary path
  encode (boolean b) path = ok (if b then codes "true" else codes "false")
  encode (number n) path = encode_number n path
  encode (string s) path = ok (escape_string s)
  encode (array vs) path = map_ok (λ ts. 91 ∷ join_comma ts ++ 93 ∷ []) (encode_items vs path 0)
  encode (object fs) path = braces (encode_fields fs path)

  pub encode_items : Items → Text → ℕ → Result CanonicalizationError (List Text)
  encode_items nil path i = ok []
  encode_items (cons v vs) path i =
      and_then (encode v (index_path path i))
        (λ text. map_ok (λ ts. text ∷ ts) (encode_items vs path (i + 1)))

  pub encode_fields : Fields → Text → List Part
  encode_fields end path = []
  encode_fields (field k v fs) path =
      property_part k (is_undefined v) path (encode v (path ++ 46 ∷ k)) ∷ encode_fields fs path

unfoldable pub canonicalize : Value → Result CanonicalizationError Text
unfolding encode
canonicalize v = encode v []
