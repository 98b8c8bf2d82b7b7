-- ===== src/Crypto/Gf256.antt =====
-- packages/crypto/src/gf256.ts: the field of 256 elements by tables of powers and logarithms of
-- the generator 3. Indexes of the tables are below 512 and 256 wherever the code reads them.
pub mod Powers
pub mod Laws
pub mod Linear
pub mod ByteField
pub mod Reference
use Prim.Native.Nat.{bit_xor, bit_and}
use zero_window.Prelude.{
  ℕ, zero, suc, ◌+◌, ◌-◌, ◌*◌, ◌/◌, ◌%◌, ◌≤◌, ◌<◌, ◌≡◌, refl, Bool, true, false, ◌&&◌, ◌||◌, Bytes,
  Result, ok, err, List, [], ◌∷◌, ◌++◌, set, get_or, ltb, ◌==◌, if◌then◌else◌, arith,
}

-- The two tables as bytes that the loops at module load write.
pub record Tables : Type 0 where
  pub exp : Bytes
  pub log : Bytes

abbrev blank : ℕ → Bytes
blank zero = []
blank (suc n) = 0 ∷ blank n

-- Multiplies by the generator.
abbrev pub next_power : ℕ → ℕ
next_power x =
    let x2 = bit_xor (x * 2) (if bit_and x 128 == 0 then 0 else 283) in bit_and (bit_xor x2 x) 255

abbrev fill_powers : ℕ → ℕ → ℕ → Tables → Tables
fill_powers zero i x t = t
fill_powers (suc n) i x t =
    fill_powers n (suc i) (next_power x) (record { exp = set t.exp i x; log = set t.log x i })

abbrev repeat_powers : ℕ → ℕ → Bytes → Bytes
repeat_powers zero i exp = exp
repeat_powers (suc n) i exp = repeat_powers n (suc i) (set exp i (get_or exp (i - 255) 0))

unfoldable pub build_tables : Tables
build_tables =
    let t = fill_powers 255 0 1 (record { exp = blank 512; log = blank 256 }) in
    record t { exp = repeat_powers 257 255 t.exp }

-- The entries `EXP[i]` and `LOG[x]`.
unfoldable pub exp_at : ℕ → ℕ
unfolding build_tables
exp_at i = get_or build_tables.exp i 0

unfoldable pub log_at : ℕ → ℕ
unfolding build_tables
log_at x = get_or build_tables.log x 0

pub data GfError : Type 0 where
  inverse_of_zero division_by_zero : GfError

unfoldable pub gf_mul : ℕ → ℕ → ℕ
gf_mul a b = if a == 0 || b == 0 then 0 else exp_at (log_at a + log_at b)

unfoldable pub gf_inv : ℕ → Result GfError ℕ
gf_inv a = if a == 0 then err inverse_of_zero else ok (exp_at (255 - log_at a))

unfoldable pub gf_div : ℕ → ℕ → Result GfError ℕ
gf_div a b =
    if b == 0
    then err division_by_zero
    else if a == 0
    then ok 0
    else ok (exp_at ((log_at a + 255 - log_at b) % 255))

unfoldable pub gf_add : ℕ → ℕ → ℕ
gf_add a b = bit_and (bit_xor a b) 255

-- From the highest coefficient down.
unfoldable pub gf_poly_eval : Bytes → ℕ → ℕ
gf_poly_eval [] x = 0
gf_poly_eval (c ∷ cs) x = gf_add (gf_mul (gf_poly_eval cs x) x) c
