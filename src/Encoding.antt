-- ===== src/Encoding.antt =====
-- The conversions of Node's `Buffer` that the program calls: `toString("hex")`,
-- `Buffer.from(s, "hex")` and `Buffer.from(s, "utf8")`.
pub mod Laws
use zero_window.Prelude.{
  ℕ, zero, suc, ◌+◌, ◌-◌, ◌*◌, ◌/◌, ◌%◌, Bool, ◌&&◌, Bytes, Text, Option, none, some, List, [], ◌∷◌,
  ◌++◌, leb, ltb, if◌then◌else◌,
}

abbrev pub hex_digit : ℕ → ℕ
hex_digit d = if ltb d 10 then 48 + d else 87 + d

abbrev pub hex_value : ℕ → Option ℕ
hex_value c =
    if leb 48 c && leb c 57
    then some (c - 48)
    else if leb 97 c && leb c 102
    then some (c - 87)
    else if leb 65 c && leb c 70
    then some (c - 55)
    else none

unfoldable pub to_hex : Bytes → Text
to_hex [] = []
to_hex (b ∷ bs) = hex_digit (b / 16) ∷ hex_digit (b % 16) ∷ to_hex bs

abbrev pub byte_before : Option ℕ → Option ℕ → Bytes → Bytes
byte_before none low rest = []
byte_before (some h) none rest = []
byte_before (some h) (some l) rest = (16 * h + l) ∷ rest

-- Decoding stops at the first pair that is no byte.
unfoldable pub from_hex : Text → Bytes
from_hex [] = []
from_hex (c ∷ []) = []
from_hex (c ∷ d ∷ s) = byte_before (hex_value c) (hex_value d) (from_hex s)

abbrev pub is_high : ℕ → Bool
is_high c = leb 0xd800 c && ltb c 0xdc00

abbrev pub is_low : ℕ → Bool
is_low c = leb 0xdc00 c && ltb c 0xe000

-- The bytes of one code point.
utf8_point : ℕ → Bytes
utf8_point c =
    if ltb c 0x80
    then c ∷ []
    else if ltb c 0x800
    then (0xc0 + c / 64) ∷ (0x80 + c % 64) ∷ []
    else if ltb c 0x1_0000
    then (0xe0 + c / 4096) ∷ (0x80 + c / 64 % 64) ∷ (0x80 + c % 64) ∷ []
    else (0xf0 + c / 262144) ∷ (0x80 + c / 4096 % 64) ∷ (0x80 + c / 64 % 64) ∷ (0x80 + c % 64) ∷ []

abbrev replacement : Bytes
replacement = 0xef ∷ 0xbf ∷ 0xbd ∷ []

-- One code unit after a high surrogate that waits for its partner, or after none.
utf8_unit : Option ℕ → ℕ → Bytes × Option ℕ
unfolding utf8_point
utf8_unit none c =
    if is_high c
    then ([], some c)
    else if is_low c
    then (replacement, none)
    else (utf8_point c, none)
utf8_unit (some h) c =
    if is_low c
    then (utf8_point (0x1_0000 + (h - 0xd800) * 0x400 + (c - 0xdc00)), none)
    else if is_high c
    then (replacement, some c)
    else (replacement ++ utf8_point c, none)

utf8_from : Option ℕ → Text → Bytes
unfolding utf8_unit
utf8_from none [] = []
utf8_from (some h) [] = replacement
utf8_from waiting (c ∷ s) = let (out, next) = utf8_unit waiting c in out ++ utf8_from next s

unfoldable pub utf8 : Text → Bytes
unfolding utf8_from
utf8 s = utf8_from none s
