-- ===== src/Crypto/Field.antt =====
-- The laws of a field of characteristic two, as packages/crypto/src/gf256.ts implements one on
-- bytes, and their first consequences.
pub mod Interpolation
use zero_window.Prelude.{◌≡◌, refl, sym, ap, ◌∙◌, ◌≢◌, List, [], ◌∷◌, ◌++◌, map, arith}

pub record TwoField (A : Type 0) : Type 0 where
  pub null : A
  pub unit : A
  pub plus : A → A → A
  pub times : A → A → A
  pub inverse : A → A
  pub plus_assoc : (a b c : A) → plus (plus a b) c ≡ plus a (plus b c)
  pub plus_comm : (a b : A) → plus a b ≡ plus b a
  pub plus-null : (a : A) → plus a null ≡ a
  pub plus_self : (a : A) → plus a a ≡ null
  pub times_assoc : (a b c : A) → times (times a b) c ≡ times a (times b c)
  pub times_comm : (a b : A) → times a b ≡ times b a
  pub times-unit : (a : A) → times a unit ≡ a
  pub times-plus : (a b c : A) → times a (plus b c) ≡ plus (times a b) (times a c)
  pub times-inverse : (a : A) → a ≢ null → times a (inverse a) ≡ unit
  pub unit_ne-null : unit ≢ null

module _ {A : Type 0} (field : TwoField A) where
  open field use {
    null, unit, plus, times, inverse, plus_assoc, plus_comm, plus-null, plus_self, times_assoc,
    times_comm, times-unit, times-plus, times-inverse, unit_ne-null,
  }

  pub plus_left_comm : (a b c : A) → plus a (plus b c) ≡ plus b (plus a c)
  plus_left_comm a b c =
      sym (plus_assoc a b c) ∙ ap (λ t. plus t c) (plus_comm a b) ∙ plus_assoc b a c

  pub times_left_comm : (a b c : A) → times a (times b c) ≡ times b (times a c)
  times_left_comm a b c =
      sym (times_assoc a b c) ∙ ap (λ t. times t c) (times_comm a b) ∙ times_assoc b a c

  pub null-plus : (a : A) → plus null a ≡ a
  null-plus a = plus_comm null a ∙ plus-null a

  pub unit-times : (a : A) → times unit a ≡ a
  unit-times a = times_comm unit a ∙ times-unit a

  pub plus_cancel : (a b : A) → plus a (plus a b) ≡ b
  plus_cancel a b = sym (plus_assoc a a b) ∙ ap (λ t. plus t b) (plus_self a) ∙ null-plus b

  pub times-null : (a : A) → times a null ≡ null
  times-null a =
      sym (plus_cancel (times a null) (times a null))
      ∙ ap (plus (times a null)) (sym (times-plus a null null) ∙ ap (times a) (plus-null null))
      ∙ plus_self (times a null)

  pub null-times : (a : A) → times null a ≡ null
  null-times a = times_comm null a ∙ times-null a

  pub plus-times : (a b c : A) → times (plus a b) c ≡ plus (times a c) (times b c)
  plus-times a b c = simp (times_comm _ c, times-plus) refl

  -- A sum is null only for equal terms.
  pub plus_ne-null : (a b : A) → a ≢ b → plus a b ≢ null
  plus_ne-null a b ne e = ne (sym (plus-null a) ∙ ap (plus a) (sym e) ∙ plus_cancel a b)

  pub plus_right_cancel : (a b c : A) → plus a c ≡ plus b c → a ≡ b
  plus_right_cancel a b c e = sym (undo a) ∙ ap (λ t. plus t c) e ∙ undo b
    where
      undo : (d : A) → plus (plus d c) c ≡ d
      undo d = plus_assoc d c c ∙ ap (plus d) (plus_self c) ∙ plus-null d

  pub times_cancel : (a b c : A) → a ≢ null → times a b ≡ times a c → b ≡ c
  times_cancel a b c ne e = sym (undo b) ∙ ap (times (inverse a)) e ∙ undo c
    where
      undo : (d : A) → times (inverse a) (times a d) ≡ d
      undo d =
          sym (times_assoc (inverse a) a d)
          ∙ ap (λ t. times t d) (times_comm (inverse a) a ∙ times-inverse a ne)
          ∙ unit-times d

  pub times_ne-null : (a b : A) → a ≢ null → b ≢ null → times a b ≢ null
  times_ne-null a b na nb e = nb (times_cancel a b null na (e ∙ sym (times-null a)))

  unfoldable pub product : List A → A
  product [] = unit
  product (x ∷ xs) = times x (product xs)
