-- ===== src/RateLimit/Keys.antt =====
-- The keys of the buckets in app/rate_limit.py.
use open_key_server.Base.{
  ℕ, ◌+◌, ◌<◌, String, Bool, ◌≡◌, refl, true, false, List, [], ◌∷◌, ◌++◌, arith, inl, inr,
  Bool-cases, leb, ◌==◌, string_eq, length, filter, All, if◌then◌else◌,
}
use open_key_server.RateLimit.{Hits, is_nonempty, bucket_of, put_bucket, drop_old, sweep, check}

-- Every bucket holds a hit.
abbrev pub IsFilled : Hits → Type 0
IsFilled = All λ e. is_nonempty e.1 ≡ true

sweep-eq_self : (hits : Hits) → IsFilled hits → filter (λ e. is_nonempty e.1) hits ≡ hits
unfolding filter
sweep-eq_self [] h = refl
sweep-eq_self (e ∷ hits) h = rw (h.0, sweep-eq_self hits h.1) refl

pub sweep_filled : (hits : Hits) → IsFilled hits → sweep hits ≡ hits
unfolding sweep
sweep_filled hits h = rw (sweep-eq_self hits h) (ground arith)

pub put-IsFilled :
    (key : String) (b : List ℕ) (hits : Hits)
    → is_nonempty b ≡ true
    → IsFilled hits
    → IsFilled (put_bucket key b hits)
unfolding put_bucket
put-IsFilled key b [] n h = (n, tt)
put-IsFilled key b ((k, q) ∷ hits) n h = elim (Bool-cases (k == key)) [
  | inl same ↦ rw same (n, h.1)
  | inr other ↦ rw other (h.0, put-IsFilled key b hits n h.1)
]

pub nonempty-append : (b : List ℕ) (n : ℕ) → is_nonempty (b ++ n ∷ []) ≡ true
nonempty-append [] n = refl
nonempty-append (t ∷ ts) n = refl

pub nonempty_of_full :
    (b : List ℕ) (limit : ℕ) → 0 < limit → leb limit (length b) ≡ true → is_nonempty b ≡ true
nonempty_of_full [] limit p h = ground arith
nonempty_of_full (t ∷ ts) limit p h = refl

abbrev pub has_key : String → Hits → Bool
has_key key [] = false
has_key key ((k, q) ∷ hits) = if k == key then true else has_key key hits

length-put_bucket :
    (key : String) (b : List ℕ) (hits : Hits)
    → length (put_bucket key b hits) ≡ (if has_key key hits then length hits else length hits + 1)
unfolding put_bucket
length-put_bucket key b [] = omega arith
length-put_bucket key b ((k, q) ∷ hits) = ground (arith, length-put_bucket key b hits)

module _ (now limit window : ℕ) (key : String) (hits : Hits) (some_limit : 0 < limit) where
  pub check-IsFilled : IsFilled hits → IsFilled (check now key limit window hits).1
  unfolding check
  check-IsFilled h =
      let b = drop_old now window (bucket_of key hits) in
      elim (Bool-cases (leb limit (length b))) [
        | inl full ↦ rw full (put-IsFilled key b hits (nonempty_of_full b limit some_limit full) h)
        | inr room ↦
            let filled = put-IsFilled key (b ++ now ∷ []) hits (nonempty-append b now) h in
            rw (room, sweep_filled (put_bucket key (b ++ now ∷ []) hits) filled) filled
      ]

  -- With a positive limit no bucket is empty after a check, so the sweep for stale keys deletes
  -- nothing: a check of a key that was not there adds one key, however many there are already.
  pub check_grows :
      IsFilled hits
      → IsFilled (check now key limit window hits).1
        × (length (check now key limit window hits).1
            ≡ (if has_key key hits then length hits else length hits + 1))
  unfolding check
  check_grows h = (
    check-IsFilled h,
    let b = drop_old now window (bucket_of key hits) in
        elim (Bool-cases (leb limit (length b))) [
          | inl full ↦ rw full (length-put_bucket key b hits)
          | inr room ↦
              let filled = put-IsFilled key (b ++ now ∷ []) hits (nonempty-append b now) h in
              rw (room, sweep_filled (put_bucket key (b ++ now ∷ []) hits) filled)
                (length-put_bucket key (b ++ now ∷ []) hits)
        ],
  )
