-- ===== src/Centre/Prng.antt =====
-- packages/centre/src/prng.ts: the deterministic stream, uniform draws by rejection, Fisher–Yates and
-- sampling without replacement. The loop of `nextBelow` has no bound in the source: it takes the
-- number of tries as fuel, and `no_draw` means that the fuel ran out.
pub mod Draws
pub mod Shuffle
pub mod Sample
use zero_window.Prelude.{
  ℕ, zero, suc, ◌+◌, ◌-◌, ◌*◌, ◌/◌, ◌%◌, ◌^◌, Bool, Bytes, Option, none, some, List, [], ◌∷◌,
  length, get_elem?, get_or, set, ltb, leb, ◌==◌, if◌then◌else◌, Result, ok, err, map_ok, and_then,
}
use zero_window.Crypto.Sodium.{Sodium}
use zero_window.Crypto.Hash.{blake2b_with}

pub record Stream : Type 0 where
  pub seed : Bytes
  pub counter : ℕ
  pub pool : Bytes
  pub offset : ℕ

pub data PrngError : Type 0 where
  bad_seed not_positive sample_too_large no_item no_draw : PrngError

-- `new DeterministicStream(seed)`.
unfoldable pub open_stream : Bytes → Result PrngError Stream
open_stream seed =
    if length seed == 32
    then ok (record { seed = seed; counter = 0; pool = []; offset = 0 })
    else err bad_seed

-- The last `n` bytes of a number, the highest first.
abbrev pub big_endian : ℕ → ℕ → Bytes
big_endian zero c = []
big_endian (suc n) c = c / 256 ^ n % 256 ∷ big_endian n c

module _ {ℓ} {A : Type ℓ} where
  -- `[out[i], out[j]] = [out[j], out[i]]`.
  unfoldable pub exchange : ℕ → ℕ → List A → List A
  exchange i j xs = elim (get_elem? xs i) [
    | none ↦ xs
    | some a ↦ elim (get_elem? xs j) [ none ↦ xs | some b ↦ set (set xs i b) j a ]
  ]

  -- `pool.splice(j, 1)`.
  unfoldable pub remove_at : ℕ → List A → List A
  remove_at j [] = []
  remove_at zero (x ∷ xs) = xs
  remove_at (suc j) (x ∷ xs) = x ∷ remove_at j xs

abbrev pub take_byte : Stream → ℕ × Stream
take_byte s = (get_or s.pool s.offset 0, record s { offset = s.offset + 1 })

-- `(v << 8) | byte` on a value of 32 bits: the low eight bits are free, so the bytes add up.
abbrev pub shift_in : ℕ → ℕ → ℕ
shift_in v b = (v * 256 + b) % 2 ^ 32

-- `Math.floor(0x1_0000_0000 / n) * n`.
abbrev pub limit_for : ℕ → ℕ
limit_for n = 0x1_0000_0000 / n * n

module _ (sodium : Sodium) where
  unfoldable pub refill : Stream → Stream
  refill s = record s {
    counter = s.counter + 1;
    pool = blake2b_with sodium (big_endian 8 s.counter ∷ []) (some s.seed) 64;
    offset = 0;
  }

  unfoldable pub next_byte : Stream → ℕ × Stream
  unfolding refill
  next_byte s = take_byte (if leb (length s.pool) s.offset then refill s else s)

  unfoldable pub next_uint32 : Stream → ℕ × Stream
  unfolding next_byte
  next_uint32 s =
      let (a, s1) = next_byte s in
      let (b, s2) = next_byte s1 in
      let (c, s3) = next_byte s2 in
      let (d, s4) = next_byte s3 in (shift_in (shift_in (shift_in (shift_in 0 a) b) c) d, s4)

  unfoldable pub draw_below : ℕ → ℕ → ℕ → Stream → Result PrngError (ℕ × Stream)
  unfolding next_uint32
  draw_below zero n limit s = err no_draw
  draw_below (suc f) n limit s =
      let (v, s') = next_uint32 s in
      let again = draw_below f n limit s' in if ltb v limit then ok (v % n, s') else again

  unfoldable pub next_below : ℕ → ℕ → Stream → Result PrngError (ℕ × Stream)
  unfolding draw_below
  next_below f n s =
      if n == 0
      then err not_positive
      else if n == 1
      then ok (0, s)
      else draw_below f n (limit_for n) s

  module _ {A : Type 0} where
    unfoldable pub shuffle_from : ℕ → ℕ → List A → Stream → Result PrngError (List A × Stream)
    unfolding next_below exchange
    shuffle_from f zero out s = ok (out, s)
    shuffle_from f (suc i) out s =
        and_then (next_below f (suc i + 1) s) (λ d. shuffle_from f i (exchange (suc i) d.0 out) d.1)

    unfoldable pub shuffle : ℕ → List A → Stream → Result PrngError (List A × Stream)
    unfolding shuffle_from
    shuffle f items s = shuffle_from f (length items - 1) items s

    -- One round draws an index, moves the item there to the output and goes on.
    unfoldable pub sample_from : ℕ → ℕ → List A → Stream → Result PrngError (List A × Stream)
    unfolding next_below remove_at
    sample_from f zero pool s = ok ([], s)
    sample_from f (suc k) pool s = and_then (next_below f (length pool) s) (λ d.
        elim (get_elem? pool d.0) [
          | none ↦ err no_item
          | some x ↦ map_ok (λ r. (x ∷ r.0, r.1)) (sample_from f k (remove_at d.0 pool) d.1)
        ])

    unfoldable pub sample : ℕ → List A → ℕ → Stream → Result PrngError (List A × Stream)
    unfolding sample_from
    sample f items k s =
        if ltb (length items) k then err sample_too_large else sample_from f k items s
