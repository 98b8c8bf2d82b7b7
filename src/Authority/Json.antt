-- ===== src/Authority/Json.antt =====
-- packages/authority/src/bank.ts: `canonicalJson`. Its numbers are the natural numbers, as in the
-- bank, the papers and the tokens that it encodes, so the test for finite numbers holds.
use zero_window.Prelude.{
  ℕ, ◌/◌, ◌%◌, Bool, Bytes, Text, Option, none, some, List, [], ◌∷◌, ◌++◌, if◌then◌else◌, Result,
  ok, err, map_ok, and_then,
}
use zero_window.Prelude.Sort.{sort_by}
use zero_window.Encoding.{utf8, is_high, is_low}
use zero_window.Crypto.Hash.{codes}
use zero_window.Log.Canonical.{escape_unit, hex_digit, decimal, join_comma}

mutual
  pub data Json : Type 0 where
    null undefined : Json
    boolean : Bool → Json
    number : ℕ → Json
    string : Text → Json
    array : Elements → Json
    object : Members → Json

  pub data Elements : Type 0 where
    nil : Elements
    cons : Json → Elements → Elements

  pub data Members : Type 0 where
    end : Members
    member : Text → Json → Members → Members

pub data JsonError : Type 0 where
  cannot_canonicalize_undefined : JsonError

-- `JSON.stringify` of a string: as the log escapes its texts, but a surrogate without its partner
-- is written as an escape. The state is a high surrogate that waits for its partner.
abbrev escape_surrogate : ℕ → Text
escape_surrogate c =
    92
    ∷ 117
    ∷ hex_digit (c / 4096)
    ∷ hex_digit (c / 256 % 16)
    ∷ hex_digit (c / 16 % 16)
    ∷ hex_digit (c % 16)
    ∷ []

quote_unit : Option ℕ → ℕ → Text × Option ℕ
unfolding escape_unit
quote_unit none c =
    if is_high c
    then ([], some c)
    else if is_low c
    then (escape_surrogate c, none)
    else (escape_unit c, none)
quote_unit (some h) c =
    if is_low c
    then (h ∷ c ∷ [], none)
    else if is_high c
    then (escape_surrogate h, some c)
    else (escape_surrogate h ++ escape_unit c, none)

quote_from : Option ℕ → Text → Text
unfolding quote_unit
quote_from none [] = 34 ∷ []
quote_from (some h) [] = escape_surrogate h ++ 34 ∷ []
quote_from waiting (c ∷ s) = let (out, next) = quote_unit waiting c in out ++ quote_from next s

unfoldable pub quote : Text → Text
unfolding quote_from
quote s = 34 ∷ quote_from none s

abbrev Entry : Type 0
Entry = Text × Result JsonError Text

abbrev entry_key : Entry → Text
entry_key e = e.0

-- The texts of the entries in their order, or the first error.
unfoldable pub write_entries : List Entry → Result JsonError (List Text)
unfolding quote
write_entries [] = ok []
write_entries ((k, r) ∷ es) =
    and_then r (λ text. map_ok (λ ts. (quote k ++ 58 ∷ text) ∷ ts) (write_entries es))

unfoldable pub write_object : List Entry → Result JsonError Text
unfolding write_entries join_comma sort_by
write_object entries =
    map_ok (λ ts. 123 ∷ join_comma ts ++ 125 ∷ []) (write_entries (sort_by entry_key entries))

-- `.filter(([, v]) => v !== undefined)`.
abbrev add_entry : Text → Json → Result JsonError Text → List Entry → List Entry
add_entry k undefined text es = es
add_entry k _ text es = (k, text) ∷ es

unfoldable mutual
  unfolding decimal quote join_comma write_object

  pub canonical_stringify : Json → Result JsonError Text
  canonical_stringify null = ok (codes "null")
  canonical_stringify undefined = err cannot_canonicalize_undefined
  canonical_stringify (boolean b) = ok (if b then codes "true" else codes "false")
  canonical_stringify (number n) = ok (decimal n)
  canonical_stringify (string s) = ok (quote s)
  canonical_stringify (array vs) =
      map_ok (λ ts. 91 ∷ join_comma ts ++ 93 ∷ []) (stringify_elements vs)
  canonical_stringify (object ms) = write_object (stringify_members ms)

  pub stringify_elements : Elements → Result JsonError (List Text)
  stringify_elements nil = ok []
  stringify_elements (cons v vs) =
      and_then (canonical_stringify v) (λ text. map_ok (λ ts. text ∷ ts) (stringify_elements vs))

  pub stringify_members : Members → List Entry
  stringify_members end = []
  stringify_members (member k v ms) = add_entry k v (canonical_stringify v) (stringify_members ms)

unfoldable pub canonical_json : Json → Result JsonError Bytes
unfolding canonical_stringify utf8
canonical_json v = map_ok utf8 (canonical_stringify v)

-- The bytes; nothing for a value that is refused.
abbrev pub elements : List Json → Elements
elements [] = nil
elements (v ∷ vs) = cons v (elements vs)
