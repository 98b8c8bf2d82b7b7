-- ===== src/Tests/Shamir.antt =====
-- A key of three bytes, and one of the length of a key, split, combined and sent to recipients.
use zero_window.Prelude.{
  ℕ, ◌≡◌, ◌⊎◌, ◌<◌, false, refl, Bytes, Text, none, some, List, [], ◌∷◌, map, Result, ok, err,
  arith, equals,
}
use zero_window.Prelude.Distinct.{AreDistinct}
use zero_window.Crypto.Hash.{codes, domain_hash, blake2b_with}
use zero_window.Crypto.Share.{ShamirShare, serialize_share, share_check}
use zero_window.Crypto.Box.{seal, seal_open}
use zero_window.Crypto.Gf256.{gf_mul, gf_add, exp_at, log_at, gf_poly_eval}
use zero_window.Crypto.Gf256.Reference.{reference_mul, gf_mul-reference_mul}
use zero_window.Crypto.Shamir.{shamir_split, shamir_combine, shares_from, share_at, coefficients}
use zero_window.Crypto.Shamir.Checks.{x_of}
use zero_window.Crypto.Shamir.RoundTrip.{shamir_combine-shamir_split}
use zero_window.Crypto.KekEngine.{
  KekEngine, KekError, Outcome, get_kek, held, destroy, fingerprint_of,
}
use zero_window.Crypto.KekEngine.Custody.{
  EncryptedShare, ReleaseResult, seal_share, split_and_destroy, reconstruct_wrap_release,
}
use zero_window.Crypto.KekEngine.Destroyed.{IsRefused, split_and_destroy_finally}
use zero_window.Crypto.KekEngine.Envelopes.{
  KeyHolders, custodian_of, recipient_of, open_shares, open_wrapped,
}
use zero_window.Crypto.KekEngine.Release.{reconstruct_wrap_release-split_and_destroy}
use zero_window.Tests.Toy.{
  toy, toy_laws, toy_boxes, toy-BoxLaws, toy_fill, toy_fills, fit, fit-AreBytes,
}

gf_mul-reference_mul_example : gf_mul 87 131 ≡ reference_mul 8 87 131
gf_mul-reference_mul_example = gf_mul-reference_mul 87 131 (omega arith) (omega arith)

abbrev secret : Bytes
secret = 42 ∷ 7 ∷ 200 ∷ []

abbrev shares : List ShamirShare
shares = shares_from (toy_fill 0 8) 2 (coefficients toy_fill 2 1 secret) 0 3

abbrev given : List ShamirShare
given =
    share_at (toy_fill 0 8) 2 (coefficients toy_fill 2 1 secret) 3
    ∷ share_at (toy_fill 0 8) 2 (coefficients toy_fill 2 1 secret) 1
    ∷ []

shamir_split-run : shamir_split toy_fill secret 2 3 ≡ ok shares
unfolding shamir_split
shamir_split-run = refl

given-AreDistinct : AreDistinct (map x_of given)
given-AreDistinct = (((λ e. absurd (omega arith)), tt), (tt, tt))

shamir_combine-shamir_split_example : shamir_combine given (some 3) ≡ ok secret
shamir_combine-shamir_split_example =
    shamir_combine-shamir_split toy_fill toy_fills secret
      (omega arith, (omega arith, (omega arith, tt))) 2 3 shares shamir_split-run given
      ((2, refl), ((0, refl), tt)) given-AreDistinct (omega arith) (some 3) refl

-- Names the definitions that a run of the provider computes with.
unfoldable pub run_keys : Unit {0}
unfolding held get_kek destroy shamir_split split_and_destroy seal_share serialize_share share_check
    blake2b_with domain_hash seal seal_open gf_poly_eval gf_add gf_mul exp_at log_at equals
run_keys = tt

abbrev pub no_randomness : ℕ → Bytes
no_randomness i = []

abbrev pub kek : Bytes
kek = fit 32 (11 ∷ 22 ∷ 33 ∷ 44 ∷ [])

abbrev pub kek_id : Text
kek_id = codes "k"

abbrev engine : KekEngine
engine = record { keks = (codes "other", 5 ∷ []) ∷ (kek_id, kek) ∷ []; closed = false }

abbrev empty_engine : KekEngine
empty_engine = record { keks = []; closed = false }

abbrev pub holders : KeyHolders
holders = (codes "A", 1 ∷ []) ∷ (codes "B", 2 ∷ []) ∷ (codes "C", 3 ∷ []) ∷ []

abbrev centres : KeyHolders
centres = (codes "X", 7 ∷ []) ∷ (codes "Y", 8 ∷ []) ∷ []

abbrev pub issued_from : Result KekError (List EncryptedShare) → List EncryptedShare
issued_from (ok shares) = shares
issued_from (err e) = []

abbrev issued : Outcome (List EncryptedShare)
issued =
    split_and_destroy toy toy_boxes no_randomness toy_fill kek_id 2
      (map (custodian_of toy_boxes) holders) engine

held-run : held kek_id engine ≡ ok kek
unfolding run_keys
held-run = refl

issued-run : issued.0 ≡ ok (issued_from (issued.0))
unfolding run_keys
issued-run = refl

reconstruct_wrap_release-split_and_destroy_example :
    (blobs : List Bytes) × (result : ReleaseResult) × (open_shares toy_boxes holders
        (issued_from (issued.0))
        (2 ∷ 0 ∷ [])
      ≡ ok blobs)
    × (reconstruct_wrap_release toy toy_boxes no_randomness blobs
          (map (recipient_of toy_boxes) centres)
          (fingerprint_of toy kek)
          empty_engine
        ≡ ok result)
    × (open_wrapped toy_boxes centres result.wrapped ≡ ok (map (λ r. kek) centres))
reconstruct_wrap_release-split_and_destroy_example =
    reconstruct_wrap_release-split_and_destroy toy toy_laws toy_boxes toy-BoxLaws no_randomness
      no_randomness toy_fill toy_fills kek_id kek engine held-run
      (fit-AreBytes 32 (11 ∷ 22 ∷ 33 ∷ 44 ∷ [])) refl 2 holders (issued_from (issued.0)) issued-run
      (2 ∷ 0 ∷ []) (omega arith, (omega arith, tt)) (((λ e. absurd (omega arith)), tt), (tt, tt))
      (omega arith) empty_engine refl centres

split_and_destroy_finally_example :
    (((e : KekError) × (held kek_id engine ≡ err e)) ⊎ (3 < 2)) × IsRefused issued engine
    ⊎ (get_kek (issued.1.keks) kek_id ≡ none)
      × (get_kek (issued.1.keks) (codes "other") ≡ get_kek engine.keks (codes "other"))
split_and_destroy_finally_example =
    split_and_destroy_finally toy toy_boxes no_randomness toy_fill kek_id (codes "other") (λ e. cc)
      2 (map (custodian_of toy_boxes) holders) engine
