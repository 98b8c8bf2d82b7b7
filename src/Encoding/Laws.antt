-- ===== src/Encoding/Laws.antt =====
-- Hex decoding undoes hex encoding.
use zero_window.Prelude.{
  ℕ, ◌+◌, ◌*◌, ◌/◌, ◌%◌, ◌<◌, ◌≡◌, refl, ap, ap₂, ◌∙◌, Bytes, AreBytes, some, [], ◌∷◌, arith,
}
use zero_window.Encoding.{to_hex, from_hex, hex_digit, hex_value, byte_before}

hex_value-hex_digit : (d : ℕ) → d < 16 → hex_value (hex_digit d) ≡ some d
hex_value-hex_digit d h = ground arith

pub from_hex-to_hex : (bs : Bytes) → AreBytes bs → from_hex (to_hex bs) ≡ bs
unfolding from_hex to_hex
from_hex-to_hex [] h = refl
from_hex-to_hex (b ∷ bs) h =
    let e : 16 * (b / 16) + b % 16 ≡ b = omega arith in
    ap (λ r. byte_before (hex_value (hex_digit (b / 16))) (hex_value (hex_digit (b % 16))) r)
      (from_hex-to_hex bs h.1)
    ∙ ap₂ (λ x y. byte_before x y bs) (hex_value-hex_digit (b / 16) (omega arith))
        (hex_value-hex_digit (b % 16) (omega arith))
    ∙ ap (λ x. x ∷ bs) e
