-- ===== src/Crypto/KekEngine/Destroyed.antt =====
-- packages/crypto/src/kek-engine.ts: the `finally` of splitAndDestroy.
use zero_window.Prelude.{
  ℕ, ◌<◌, ◌≡◌, ◌≢◌, ◌⊎◌, inl, inr, refl, sym, ◌∙◌, false, Bytes, Text, none, List, [], ◌∷◌, length,
  ltb, ltb→lt, equals, equals_iff, equals_ne, Result, err, Result-cases, Bool-cases,
}
use zero_window.Crypto.Sodium.{Sodium}
use zero_window.Crypto.Box.{Boxes}
use zero_window.Crypto.KekEngine.{
  KekEngine, KekError, get_kek, delete_kek, held, destroy, share_invalid,
}
use zero_window.Crypto.KekEngine.Custody.{CustodianRecipient, EncryptedShare, split_and_destroy}

pub get_kek-delete_kek :
    (keks : List (Text × Bytes)) (id : Text) → get_kek (delete_kek keks id) id ≡ none
unfolding get_kek delete_kek
get_kek-delete_kek [] id = refl
get_kek-delete_kek ((k, kek) ∷ keks) id = elim (Bool-cases (equals k id)) [
  | inl same ↦ rw same (get_kek-delete_kek keks id)
  | inr other ↦ rw (other, other) (get_kek-delete_kek keks id)
]

pub get_kek-delete_kek_other :
    (keks : List (Text × Bytes)) (id other : Text)
    → other ≢ id
    → get_kek (delete_kek keks id) other ≡ get_kek keks other
unfolding get_kek delete_kek
get_kek-delete_kek_other [] id other ne = refl
get_kek-delete_kek_other ((k, kek) ∷ keks) id other ne = elim (Bool-cases (equals k id)) [
  | inl same ↦
      let e = (equals_iff k id).0 same in
      let differs : equals k other ≡ false = equals_ne k other (λ h. ne (sym h ∙ e)) in
      rw (same, differs) (get_kek-delete_kek_other keks id other ne)
  | inr kept ↦ elim (Bool-cases (equals k other)) [
    | inl found ↦ rw (kept, found) refl
    | inr next ↦ rw (kept, next) (get_kek-delete_kek_other keks id other ne)
  ]
]

-- A refusal before the split, with the engine as it was.
abbrev pub IsRefused : Result KekError (List EncryptedShare) × KekEngine → KekEngine → Type 0
IsRefused (result, after) engine = ((e : KekError) × (result ≡ err e)) × (after ≡ engine)

-- Whatever split_and_destroy returns, either it refused because the engine does not hold the key
-- or there are fewer custodians than the threshold, and the engine is as it was, or the engine no
-- longer holds the key and what it holds under any other name is as before.
pub split_and_destroy_finally :
    (sodium : Sodium) (boxes : Boxes) (ephemeral : ℕ → Bytes) (fill : ℕ → ℕ → Bytes)
    (id other : Text)
    → other ≢ id
    → (threshold : ℕ) (custodians : List CustodianRecipient) (engine : KekEngine)
    → (((e : KekError) × (held id engine ≡ err e)) ⊎ (length custodians < threshold))
        × IsRefused
            (split_and_destroy sodium boxes ephemeral fill id threshold custodians engine)
            engine
      ⊎ (get_kek
            (split_and_destroy sodium boxes ephemeral fill id threshold custodians engine).1.keks
            id
          ≡ none)
        × (get_kek
              (split_and_destroy sodium boxes ephemeral fill id threshold custodians engine).1.keks
              other
            ≡ get_kek engine.keks other)
unfolding destroy split_and_destroy get_kek
split_and_destroy_finally sodium boxes ephemeral fill id other ne threshold custodians engine =
    elim (Result-cases (held id engine)) [
      | inr (e, missing) ↦ rw (missing, split_and_destroy) (inl (inl (e, refl), ((e, refl), refl)))
      | inl (kek, found) ↦ elim (Bool-cases (ltb (length custodians) threshold)) [
        | inl few ↦
            rw (found, few, split_and_destroy)
              (inl (inr (ltb→lt _ _ few), ((share_invalid, refl), refl)))
        | inr enough ↦
            rw (found, enough, split_and_destroy)
              (inr (
                get_kek-delete_kek engine.keks id,
                get_kek-delete_kek_other engine.keks id other ne,
              ))
      ]
    ]
