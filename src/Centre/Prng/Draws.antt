-- ===== src/Centre/Prng/Draws.antt =====
-- packages/centre/src/prng.ts: the draws of `nextBelow`.
use zero_window.Prelude.{
  ℕ, zero, suc, ◌+◌, ◌*◌, ◌/◌, ◌%◌, ◌^◌, ◌≤◌, ◌<◌, ◌≡◌, inl, inr, true, false, refl, sym, ap, ap₂,
  ok-injective, ◌↔◌, ◌∙◌, ltb, ◌==◌, ok, err, arith, Bool-cases,
}
use native.Mathlib.Nat.{
  mod-lt, div-add-mod', le-div_iff_mul-le, div-lt_iff_lt-mul, mul-add-mod_self_right, mod-eq_of_lt,
  mul-add-div_right, div-eq_of_lt, mul-le-mul_right,
}
use zero_window.Crypto.Sodium.{Sodium}
use zero_window.Centre.Prng.{
  Stream, PrngError, no_draw, next_uint32, limit_for, draw_below, next_below,
}

module _ (sodium : Sodium) where
  draw_below_lt :
      (f n limit : ℕ) (s : Stream) {v : ℕ} {s' : Stream}
      → 0 < n
      → draw_below sodium f n limit s ≡ ok (v, s')
      → v < n
  unfolding draw_below
  draw_below_lt zero n limit s p h = cc
  draw_below_lt (suc f) n limit s p h = elim (Bool-cases (ltb (next_uint32 sodium s).0 limit)) [
    | inl hit ↦ ground (arith, mod-lt (next_uint32 sodium s).0 {m = n})
    | inr miss ↦ draw_below_lt f n limit (next_uint32 sodium s).1 p (rw miss at h)
  ]

  -- Whatever the stream, an integer that `nextBelow(n)` returns is below n.
  pub next_below_lt :
      (f n : ℕ) (s : Stream) {v : ℕ} {s' : Stream} → next_below sodium f n s ≡ ok (v, s') → v < n
  unfolding next_below
  next_below_lt f n s h = elim (Bool-cases (n == 0)) [
    | inl zero_n ↦ absurd (ground arith)
    | inr pos_n ↦ elim (Bool-cases (n == 1)) [
      | inl one ↦ ground arith
      | inr more ↦ draw_below_lt f n (limit_for n) s (ground arith) (rw (pos_n, more) at h)
    ]
  ]

  -- The numbers that `nextUint32` returns one after the other.
  abbrev pub uint32_at : ℕ → Stream → ℕ
  uint32_at zero s = (next_uint32 sodium s).0
  uint32_at (suc k) s = uint32_at k (next_uint32 sodium s).1

  -- The stream after k of them.
  abbrev pub stream_after : ℕ → Stream → Stream
  stream_after zero s = s
  stream_after (suc k) s = stream_after k (next_uint32 sodium s).1

  -- The number k is the first below the limit.
  abbrev pub IsFirstHit : ℕ → ℕ → Stream → Type 0
  IsFirstHit limit k s = ((j : ℕ) → j < k → limit ≤ uint32_at j s) × (uint32_at k s < limit)

  -- What the loop returns: the remainder of the first number below the limit, and the rest.
  abbrev pub IsDrawn : ℕ → ℕ → ℕ → Stream → ℕ → Stream → Type 0
  IsDrawn f n limit s v s' =
      (k : ℕ) × (k < f)
      × IsFirstHit limit k s
      × (v ≡ uint32_at k s % n)
      × (s' ≡ stream_after (suc k) s)

  draw_below-IsDrawn :
      (f n limit : ℕ) (s : Stream) {v : ℕ} {s' : Stream}
      → draw_below sodium f n limit s ≡ ok (v, s')
      → IsDrawn f n limit s v s'
  unfolding draw_below
  draw_below-IsDrawn zero n limit s h = cc
  draw_below-IsDrawn (suc f) n limit s {v} {s'} h =
      let drawn = next_uint32 sodium s in
      elim (Bool-cases (ltb drawn.0 limit)) [
        | inl hit ↦
            let e : ◌≡◌ {A = ℕ × Stream} (drawn.0 % n, drawn.1) (v, s') =
              ok-injective (rw hit at h) in
            (
              0,
              omega arith,
              ((λ j below. absurd (omega arith)), ground arith),
              sym (ap (λ (r : ℕ × Stream). r.0) e),
              sym (ap (λ (r : ℕ × Stream). r.1) e),
            )
        | inr miss ↦
            let (k, below, (missed, hit), value, rest) =
              draw_below-IsDrawn f n limit drawn.1 (rw miss at h) in
            (suc k, omega arith, (before_missed limit k s (ground arith) missed, hit), value, rest)
      ]
    where
      before_missed :
          (limit k : ℕ) (s : Stream)
          → limit ≤ (next_uint32 sodium s).0
          → ((j : ℕ) → j < k → limit ≤ uint32_at j (next_uint32 sodium s).1)
          → (j : ℕ) → j < suc k
          → limit ≤ uint32_at j s
      before_missed limit k s first later zero below = first
      before_missed limit k s first later (suc j) below = later j (omega arith)

  draw_below_first :
      (f n limit k : ℕ) (s : Stream)
      → k < f
      → IsFirstHit limit k s
      → draw_below sodium f n limit s ≡ ok (uint32_at k s % n, stream_after (suc k) s)
  unfolding draw_below
  draw_below_first zero n limit k s below first = absurd (omega arith)
  draw_below_first (suc f) n limit zero s below (missed, hit) =
      let now : ltb (next_uint32 sodium s).0 limit ≡ true = ground arith in rw now refl
  draw_below_first (suc f) n limit (suc k) s below (missed, hit) =
      let high : limit ≤ (next_uint32 sodium s).0 = missed 0 (omega arith) in
      let later : ltb (next_uint32 sodium s).0 limit ≡ false = ground arith in
      rw later (
        draw_below_first f n limit k (next_uint32 sodium s).1 (omega arith)
          ((λ j lt. missed (suc j) (omega arith)), hit))

  -- For n of at least 2, `nextBelow` with f tries returns a value and a stream if and only if one of
  -- the first f numbers of the stream is below the greatest multiple of n up to 2 ^ 32, the value is
  -- the remainder by n of the first such number, all before it being rejected, and the stream is the
  -- one just after it.
  pub next_below_iff :
      (f n : ℕ) (s : Stream) (v : ℕ) (s' : Stream)
      → 2 ≤ n
      → (next_below sodium f n s ≡ ok (v, s')) ↔ IsDrawn f n (2 ^ 32 / n * n) s v s'
  unfolding next_below
  next_below_iff f n s v s' large =
      let not_zero : (n == 0) ≡ false = ground arith in
      let not_one : (n == 1) ≡ false = ground arith in
      (
        (λ h. draw_below-IsDrawn f n (limit_for n) s (rw (not_zero, not_one) at h)),
        (λ (k, below, first, value, rest).
            rw (not_zero, not_one)
              (draw_below_first f n (limit_for n) k s below first
                ∙ ap₂ (λ a b. ok (a, b)) (sym value) (sym rest))),
      )

  draw_below_error :
      (f n limit : ℕ) (s : Stream) {e : PrngError}
      → draw_below sodium f n limit s ≡ err e
      → e ≡ no_draw
  unfolding draw_below
  draw_below_error zero n limit s h = cc
  draw_below_error (suc f) n limit s h = elim (Bool-cases (ltb (next_uint32 sodium s).0 limit)) [
    | inl hit ↦ absurd (ground arith)
    | inr miss ↦ draw_below_error f n limit (next_uint32 sodium s).1 (rw miss at h)
  ]

  -- For a positive n, only running out of tries makes `nextBelow` fail.
  pub next_below_error :
      (f n : ℕ) (s : Stream) {e : PrngError} → 0 < n → next_below sodium f n s ≡ err e → e ≡ no_draw
  unfolding next_below
  next_below_error f n s p h = elim (Bool-cases (n == 1)) [
    | inl one ↦ absurd (ground arith)
    | inr more ↦
        let nonzero : (n == 0) ≡ false = ground arith in
        draw_below_error f n (limit_for n) s (rw (nonzero, more) at h)
  ]

-- More than half of the 32-bit numbers pass the test, and the modulus spreads those evenly: for a
-- positive n up to 2^32 the limit lies between 2^31 and 2^32, and every number below it is, for
-- exactly one residue r below n and one j below 2^32 / n, the number j * n + r; all those lie
-- below the limit.
pub limit_for_uniform :
    (n : ℕ)
    → 0 < n
    → n ≤ 2 ^ 32
    → (2 ^ 31 < limit_for n)
      × (limit_for n ≤ 2 ^ 32)
      × ((v : ℕ) → v < limit_for n → (v / n < 2 ^ 32 / n) × (v / n * n + v % n ≡ v) × (v % n < n))
      × ((j r : ℕ)
          → j < 2 ^ 32 / n
          → r < n
          → (j * n + r < limit_for n) × ((j * n + r) % n ≡ r) × ((j * n + r) / n ≡ j))
limit_for_uniform n p q =
    let whole : 0x1_0000_0000 / n * n + 0x1_0000_0000 % n ≡ 0x1_0000_0000 =
      div-add-mod' 0x1_0000_0000 n in
    let rest : 0x1_0000_0000 % n < n = mod-lt 0x1_0000_0000 p in
    let one : 1 ≤ 0x1_0000_0000 / n = (le-div_iff_mul-le p).1 (omega arith) in
    (
      grind arith,
      omega arith,
      (λ v h. ((div-lt_iff_lt-mul p).1 h, div-add-mod' v n, mod-lt v p)),
      (λ j r hj hr.
          let last : suc j * n ≤ 0x1_0000_0000 / n * n = mul-le-mul_right n hj in
          (
            omega (arith, last),
            mul-add-mod_self_right j n r ∙ mod-eq_of_lt hr,
            mul-add-div_right p j r ∙ ap (λ (t : ℕ). j + t) (div-eq_of_lt hr) ∙ omega arith,
          )),
    )
