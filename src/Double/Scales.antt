-- ===== src/Double/Scales.antt =====
-- The scale of a double, and the error of rounding.
use open_key_server.Base.{ℕ, zero, suc, ◌+◌, ◌*◌, ◌^◌, ◌≤◌, ◌<◌, ◌≡◌, refl, arith}
use open_key_server.Double.{scale_of, round_half_even}

scale_of-suc :
    (fuel p q : ℕ) → 2 * p < 2 ^ 53 * q → scale_of (suc fuel) p q ≡ suc (scale_of fuel (2 * p) q)
unfolding scale_of
scale_of-suc fuel p q h = ground arith

pub scale_of-stop : (fuel p q : ℕ) → 2 ^ 53 * q ≤ 2 * p → scale_of fuel p q ≡ 0
unfolding scale_of
scale_of-stop zero p q h = refl
scale_of-stop (suc fuel) p q h = ground arith

pow-suc : (k : ℕ) → 2 ^ suc k ≡ 2 * 2 ^ k
pow-suc k = omega arith

one-le-pow : (k : ℕ) → 1 ≤ 2 ^ k
one-le-pow zero = omega arith
one-le-pow (suc k) = omega (arith, pow-suc k, one-le-pow k)

le-mul_pow : (n k : ℕ) → n ≤ n * 2 ^ k
le-mul_pow n k = grind (arith, one-le-pow k)

-- While the value stays below 2 ^ 53, doubling goes on.
pub scale_of-add :
    (k fuel p q : ℕ)
    → p * 2 ^ k < 2 ^ 53 * q
    → scale_of (k + fuel) p q ≡ k + scale_of fuel (p * 2 ^ k) q
scale_of-add zero fuel p q h =
    let f : 0 + fuel ≡ fuel = omega arith in
    let m : p * 2 ^ 0 ≡ p = omega arith in rw (f, m) (omega arith)
scale_of-add (suc k) fuel p q h =
    let f : suc k + fuel ≡ suc (k + fuel) = omega arith in
    let m : p * 2 ^ suc k ≡ 2 * p * 2 ^ k = grind (arith, pow-suc k) in
    let low : 2 * p < 2 ^ 53 * q = omega (arith, le-mul_pow (2 * p) k, m, h) in
    let ih = scale_of-add k fuel (2 * p) q (rw (← m) h) in
    rw (f, scale_of-suc (k + fuel) p q low, ih, m) (omega arith)

-- Rounding is off by half at most.
pub round_half_even-near :
    (p q : ℕ)
    → 0 < q
    → (2 * p ≤ 2 * (round_half_even p q * q) + q) × (2 * (round_half_even p q * q) ≤ 2 * p + q)
unfolding round_half_even
round_half_even-near p q h = grind arith
