-- ===== src/Api/Sync/Cursor/Exact.antt =====
-- Cursors of the years 2005 to 2038 lose nothing to floating point.
use open_key_server.Base.{
  ℕ, ◌+◌, ◌*◌, ◌/◌, ◌%◌, ◌^◌, ◌≤◌, ◌<◌, ◌≡◌, refl, some, true, false, ltb, ◌==◌, nat_eq, ap, ◌∙◌,
  arith,
}
use open_key_server.Double.{nearest, times, floor, fraction, round, round_half_even, scale_of}
use open_key_server.Double.Scales.{scale_of-add, scale_of-stop, round_half_even-near}
use open_key_server.Orm.Session.{ok}
use open_key_server.Api.Sync.Cursor.{since_to_datetime, datetime_to_revision, from_timestamp}

-- From 22 October 2005 to January 2038.
pub record IsRepresentable (n : ℕ) : Type 0 where
  pub from : 1130000000000000 ≤ n
  pub until : n < 2147483648000000

module _ (n : ℕ) (r : IsRepresentable n) where
  -- The seconds of such a time are a double of scale 22.
  seconds_scale : scale_of 1074 n 1000000 ≡ 22
  seconds_scale =
      scale_of-add 22 1052 n 1000000 (omega (arith, r.until))
      ∙ ap (λ k. 22 + k) (scale_of-stop 1052 (n * 2 ^ 22) 1000000 (omega (arith, r.from)))

  abbrev mantissa : ℕ
  mantissa = round_half_even (n * 2 ^ 22) 1000000

  nearest_lem : nearest n 1000000 ≡ record { mantissa = mantissa; scale = 22 }
  unfolding nearest
  nearest_lem = rw seconds_scale refl

  near :
      (2 * (n * 2 ^ 22) ≤ 2 * (mantissa * 1000000) + 1000000)
      × (2 * (mantissa * 1000000) ≤ 2 * (n * 2 ^ 22) + 1000000)
  near = round_half_even-near (n * 2 ^ 22) 1000000 (omega arith)

  product_scale : scale_of 1074 (mantissa * 1000000) (2 ^ 22) ≡ 2
  product_scale =
      scale_of-add 2 1072 (mantissa * 1000000) (2 ^ 22) (omega (arith, near, r.until))
      ∙ ap (λ k. 2 + k)
          (scale_of-stop 1072 (mantissa * 1000000 * 2 ^ 2) (2 ^ 22) (omega (arith, near, r.from)))

  product_lem :
      times (record { mantissa = mantissa; scale = 22 }) 1000000
      ≡ record { mantissa = round_half_even (mantissa * 1000000 * 2 ^ 2) (2 ^ 22); scale = 2 }
  unfolding times nearest
  product_lem =
      let big : ltb (mantissa * 1000000) (2 ^ 53) ≡ false = ground (arith, near, r.from) in
      rw (big, product_scale) refl

  revision_lem : datetime_to_revision (some n) ≡ n
  unfolding datetime_to_revision floor
  revision_lem =
      let rounded = round_half_even-near (mantissa * 1000000 * 2 ^ 2) (2 ^ 22) (omega arith) in
      rw (nearest_lem, product_lem) (omega (arith, near, rounded))

  micros_lem :
      times (record { mantissa = mantissa % 2 ^ 22; scale = 22 }) 1000000
      ≡ record { mantissa = mantissa % 2 ^ 22 * 1000000; scale = 22 }
  unfolding times
  micros_lem =
      let small : ltb (mantissa % 2 ^ 22 * 1000000) (2 ^ 53) ≡ true = ground arith in rw small refl

  since_lem : since_to_datetime n ≡ ok n
  unfolding since_to_datetime from_timestamp floor fraction round
  since_lem =
      let rounded = round_half_even-near (mantissa % 2 ^ 22 * 1000000) (2 ^ 22) (omega arith) in
      let positive : (n == 0) ≡ false = ground (arith, r.from) in
      let us = round_half_even (mantissa % 2 ^ 22 * 1000000) (2 ^ 22) in
      let whole : mantissa / 2 ^ 22 * 1000000 + us ≡ n = omega (arith, near, rounded) in
      let early : mantissa / 2 ^ 22 + 1 < 253402300800 = omega (arith, near, r.until) in
      rw (positive, nearest_lem, micros_lem) (ground arith)

-- From 22 October 2005 (1130000000 seconds after 1970) to January 2038 the cursor that a time
-- turns into is exactly that time in microseconds, and a pull with that cursor reads the same
-- time off it: nothing is lost to the floating-point seconds in between.
pub since_to_datetime-datetime_to_revision :
    (n : ℕ)
    → IsRepresentable n
    → (datetime_to_revision (some n) ≡ n)
      × (since_to_datetime (datetime_to_revision (some n)) ≡ ok n)
since_to_datetime-datetime_to_revision n r =
    (revision_lem n r, ap since_to_datetime (revision_lem n r) ∙ since_lem n r)
