-- ===== src/RateLimit/Promise.antt =====
-- The limiter of app/rate_limit.py over any sequence of requests.
use open_key_server.Base.{
  ℕ, ◌≤◌, ◌<◌, String, Bool, ◌≡◌, refl, true, false, List, [], ◌∷◌, ◌++◌, arith, inl, inr,
  Bool-cases, leb, nat_eq, string_eq, length, if◌then◌else◌,
}
use open_key_server.RateLimit.{Hits, bucket_of, put_bucket, drop_old, check}
use open_key_server.RateLimit.Keys.{put-IsFilled, sweep_filled, nonempty-append, nonempty_of_full}
use open_key_server.RateLimit.Window.{
  Past, admit, recent, Tracks, passes, put_old-Tracks, put_new-Tracks,
}

-- The clock is monotonic.
abbrev pub IsTimed : ℕ → List (ℕ × String) → Type 0
IsTimed t [] = Unit
IsTimed t ((now, key) ∷ rs) = (t ≤ now) × IsTimed now rs

module _ (limit w : ℕ) where
  abbrev pub after : ℕ → String → Past → Past
  after now key past = if passes limit w now key past then admit key now past else past

  -- The decisions of the program over a list of timed requests, and those that are promised.
  unfoldable pub decide_all : List (ℕ × String) → Hits → List Bool
  decide_all [] hits = []
  decide_all ((now, key) ∷ rs) hits =
      let (b, hits') = check now key limit w hits in b ∷ decide_all rs hits'

  unfoldable pub promised : List (ℕ × String) → Past → List Bool
  promised [] past = []
  promised ((now, key) ∷ rs) past = passes limit w now key past ∷ promised rs (after now key past)

module _ (limit w : ℕ) (some_limit : 0 < limit) where
  abbrev Agrees : ℕ → String → Past → Bool × Hits → Type 0
  Agrees now key past (b, hits) =
      (b ≡ passes limit w now key past) × Tracks w now hits (after limit w now key past)

  check-Agrees :
      (t now : ℕ) (key : String) (hits : Hits) (past : Past)
      → t ≤ now
      → Tracks w t hits past
      → Agrees now key past (check now key limit w hits)
  unfolding check
  check-Agrees t now key hits past le h =
      let b = drop_old now w (bucket_of key hits) in
      let c = h.counts key now le in
      elim (Bool-cases (leb limit (length b))) [
        | inl full ↦
            let no : passes limit w now key past ≡ false = ground (arith, c) in
            rw (full, no)
              (
                refl,
                put_old-Tracks w t now key hits past le (nonempty_of_full b limit some_limit full)
                    h,
              )
        | inr room ↦
            let yes_now : passes limit w now key past ≡ true = ground (arith, c) in
            rw
              (
                room,
                yes_now,
                sweep_filled (put_bucket key (b ++ now ∷ []) hits)
                    (put-IsFilled key _ hits (nonempty-append b now) h.filled),
              )
              (refl, put_new-Tracks w t now key hits past le h)
      ]

  decide_all-promised :
      (t : ℕ) (rs : List (ℕ × String)) (hits : Hits) (past : Past)
      → IsTimed t rs
      → Tracks w t hits past
      → decide_all limit w rs hits ≡ promised limit w rs past
  unfolding decide_all promised
  decide_all-promised t [] hits past h k = refl
  decide_all-promised t ((now, key) ∷ rs) hits past h k =
      let a = check-Agrees t now key hits past h.0 k in
      rw
        (
          a.0,
          decide_all-promised now rs (check now key limit w hits).1 (after limit w now key past) h.1
              a.1,
        )
        refl

  fresh : Tracks w 0 [] (λ _. [])
  unfolding drop_old bucket_of recent
  fresh = record { filled = tt; before = λ _. tt; counts = λ _ _ _. refl }

  -- From a fresh start, with a positive limit and a clock that does not go back, the limiter lets
  -- a request pass exactly if fewer than the limit of requests of its key have passed in the
  -- window before it, whatever the other keys did.
  pub decide_all_lem :
      (rs : List (ℕ × String))
      → IsTimed 0 rs
      → decide_all limit w rs [] ≡ promised limit w rs (λ _. [])
  decide_all_lem rs h = decide_all-promised 0 rs [] (λ _. []) h fresh
