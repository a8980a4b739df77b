-- ===== src/RateLimit/Window.antt =====
-- The buckets of app/rate_limit.py against the requests that have passed.
use open_key_server.Base.{
  ℕ, ◌+◌, ◌≤◌, String, Bool, ◌≡◌, refl, ap, true, List, [], ◌∷◌, ◌++◌, arith, inl, inr, Bool-cases,
  ltb, ◌==◌, eq_iff, nat_eq, string_eq, length, length-append, All, if◌then◌else◌,
}
use open_key_server.RateLimit.{Hits, is_nonempty, bucket_of, put_bucket, drop_old}
use open_key_server.RateLimit.Keys.{IsFilled, put-IsFilled, nonempty-append}

-- The times at which requests of a key have passed, newest first.
abbrev pub Past : Type 0
Past = String → List ℕ

abbrev pub admit : String → ℕ → Past → Past
admit key now past j = if key == j then now ∷ past j else past j

-- How many of them lie in the window that ends now.
unfoldable pub recent : ℕ → ℕ → List ℕ → ℕ
recent window now [] = 0
recent window now (t ∷ ts) = (if ltb (t + window) now then 0 else 1) + recent window now ts

bucket_of-put_bucket :
    (k j : String) (b : List ℕ) (hits : Hits)
    → bucket_of j (put_bucket k b hits) ≡ (if k == j then b else bucket_of j hits)
unfolding bucket_of put_bucket
bucket_of-put_bucket k j b [] = refl
bucket_of-put_bucket k j b ((i, q) ∷ hits) =
    ground (arith, bucket_of-put_bucket k j b hits, eq_iff k j, eq_iff i k, eq_iff i j)

drop_old-drop_old :
    (w now now' : ℕ) (b : List ℕ)
    → now ≤ now'
    → drop_old now' w (drop_old now w b) ≡ drop_old now' w b
unfolding drop_old
drop_old-drop_old w now now' [] h = refl
drop_old-drop_old w now now' (t ∷ ts) h = ground (arith, drop_old-drop_old w now now' ts h)

length-drop_old-append :
    (w now now' : ℕ) (b : List ℕ)
    → All (λ t. t ≤ now) b
    → length (drop_old now' w (b ++ now ∷ []))
      ≡ (if ltb (now + w) now' then 0 else 1) + length (drop_old now' w b)
unfolding drop_old
length-drop_old-append w now now' [] h = ground arith
length-drop_old-append w now now' (t ∷ ts) h =
    ground (arith, length-drop_old-append w now now' ts h.1, length-append ts (now ∷ []))

All-drop_old : (w n now : ℕ) (b : List ℕ) → All (λ t. t ≤ n) b → All (λ t. t ≤ n) (drop_old now w b)
unfolding drop_old
All-drop_old w n now [] h = tt
All-drop_old w n now (t ∷ ts) h = ground (arith, All-drop_old w n now ts h.1)

All-later : (n m : ℕ) (b : List ℕ) → n ≤ m → All (λ t. t ≤ n) b → All (λ t. t ≤ m) b
All-later n m [] h a = tt
All-later n m (t ∷ ts) h a = (omega arith, All-later n m ts h a.1)

All-snoc : (n : ℕ) (b : List ℕ) → All (λ t. t ≤ n) b → All (λ t. t ≤ n) (b ++ n ∷ [])
All-snoc n [] h = (omega arith, tt)
All-snoc n (t ∷ ts) h = (h.0, All-snoc n ts h.1)

-- At time `t` the buckets count what has passed, for every window that ends at `t` or later.
pub record Tracks (w t : ℕ) (hits : Hits) (past : Past) : Type 0 where
  pub filled : IsFilled hits
  pub before : (j : String) → All (λ s. s ≤ t) (bucket_of j hits)
  pub counts :
      (j : String) (now : ℕ)
      → t ≤ now
      → length (drop_old now w (bucket_of j hits)) ≡ recent w now (past j)

abbrev pub passes : (limit window now : ℕ) → String → Past → Bool
passes limit window now key past = ltb (recent window now (past key)) limit

module _ (w : ℕ) where
  -- A bucket with the old hits dropped counts as before.
  pub put_old-Tracks :
      (t now : ℕ) (key : String) (hits : Hits) (past : Past)
      → t ≤ now
      → is_nonempty (drop_old now w (bucket_of key hits)) ≡ true
      → Tracks w t hits past
      → Tracks w now (put_bucket key (drop_old now w (bucket_of key hits)) hits) past
  put_old-Tracks t now key hits past le n h = record {
    filled = put-IsFilled key _ hits n h.filled;
    before = λ j. elim (Bool-cases (key == j)) [
      | inl same ↦
          rw (bucket_of-put_bucket key j (drop_old now w (bucket_of key hits)) hits, same)
            (All-drop_old w now now _ (All-later t now _ le (h.before key)))
      | inr other ↦
          rw (bucket_of-put_bucket key j (drop_old now w (bucket_of key hits)) hits, other)
            (All-later t now _ le (h.before j))
    ];
    counts = λ j now' le'. elim (Bool-cases (key == j)) [
      | inl same ↦
          rw
            (
              bucket_of-put_bucket key j (drop_old now w (bucket_of key hits)) hits,
              same,
              drop_old-drop_old w now now' (bucket_of key hits) le',
            )
            (rw (← (eq_iff key j).0 same) (h.counts key now' (omega arith)))
      | inr other ↦
          rw (bucket_of-put_bucket key j (drop_old now w (bucket_of key hits)) hits, other)
            (h.counts j now' (omega arith))
    ];
  }

  pub put_new-Tracks :
      (t now : ℕ) (key : String) (hits : Hits) (past : Past)
      → t ≤ now
      → Tracks w t hits past
      → Tracks w now
          (put_bucket key (drop_old now w (bucket_of key hits) ++ now ∷ []) hits)
          (admit key now past)
  unfolding recent
  put_new-Tracks t now key hits past le h =
      let b = drop_old now w (bucket_of key hits) in
      let b-before = All-drop_old w now now _ (All-later t now _ le (h.before key)) in
      record {
        filled = put-IsFilled key _ hits (nonempty-append b now) h.filled;
        before = λ j. elim (Bool-cases (key == j)) [
          | inl same ↦
              rw (bucket_of-put_bucket key j (b ++ now ∷ []) hits, same) (All-snoc now b b-before)
          | inr other ↦
              rw (bucket_of-put_bucket key j (b ++ now ∷ []) hits, other)
                (All-later t now _ le (h.before j))
        ];
        counts = λ j now' le'. elim (Bool-cases (key == j)) [
          | inl same ↦
              rw
                (
                  bucket_of-put_bucket key j (b ++ now ∷ []) hits,
                  same,
                  length-drop_old-append w now now' b b-before,
                  drop_old-drop_old w now now' (bucket_of key hits) le',
                )
                (rw (← (eq_iff key j).0 same) (
                  ap (λ n. (if ltb (now + w) now' then 0 else 1) + n)
                    (h.counts key now' (omega arith))))
          | inr other ↦
              rw (bucket_of-put_bucket key j (b ++ now ∷ []) hits, other)
                (h.counts j now' (omega arith))
        ];
      }
