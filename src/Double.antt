-- ===== src/Double.antt =====
-- The floating-point arithmetic behind timestamps: doubles that are not negative and below 2^53, rounded
-- to nearest, ties to even.
pub mod Scales
use open_key_server.Base.{ℕ, zero, suc, ◌+◌, ◌*◌, ◌/◌, ◌%◌, ◌^◌, leb, ltb, if◌then◌else◌}

-- `mantissa` / 2 ^ `scale`
pub record Double : Type 0 where
  pub mantissa : ℕ
  pub scale : ℕ

-- p / q to the nearest whole number, ties to even.
unfoldable pub round_half_even : ℕ → ℕ → ℕ
round_half_even p q =
    let n = p / q in
    let r = 2 * (p % q) in if ltb r q then n else if ltb q r then n + 1 else n + n % 2

-- The largest `s` up to the fuel with p / q * 2 ^ s below 2 ^ 53.
unfoldable pub scale_of : ℕ → ℕ → ℕ → ℕ
scale_of zero p q = 0
scale_of (suc fuel) p q =
    let more = suc (scale_of fuel (2 * p) q) in if leb (2 ^ 53 * q) (2 * p) then 0 else more

-- The double nearest to p / q: a mantissa of 53 bits, and no scale beyond that of the least double.
unfoldable pub nearest : ℕ → ℕ → Double
nearest p q =
    let s = scale_of 1074 p q in record { mantissa = round_half_even (p * 2 ^ s) q; scale = s }

-- `d * k`, for a whole number that is a double: exact where the product is a double.
unfoldable pub times : Double → ℕ → Double
times d k =
    let p = d.mantissa * k in
    if ltb p (2 ^ 53) then record { mantissa = p; scale = d.scale } else nearest p (2 ^ d.scale)

-- `int(d)`
unfoldable pub floor : Double → ℕ
floor d = d.mantissa / 2 ^ d.scale

-- The fractional part of `math.modf(d)`.
unfoldable pub fraction : Double → Double
fraction d = record { mantissa = d.mantissa % 2 ^ d.scale; scale = d.scale }

-- `round(d)`
unfoldable pub round : Double → ℕ
round d = round_half_even d.mantissa (2 ^ d.scale)
