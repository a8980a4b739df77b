-- ===== src/Api/Sync/Push/Refines.antt =====
-- A push against its specification: at each uuid of the user's, what its items make of the row, in order.
use open_key_server.Base.{
  ℕ, suc, ◌==◌, nat_eq, string_eq, ==_refl, eq_of_==, String, true, false, Option, none, some, List,
  [], ◌∷◌, any, filter, if◌then◌else◌, ◌≡◌, refl, sym, ap, ◌∙◌, subst, inl, inr, Bool-cases, arith,
  All, All-mono,
}
use open_key_server.Models.{Db}
use open_key_server.Orm.Session.{
  Session, M, Result, Error, ok, err, pure, lift, for_each, ◌>>◌, bind-ok, bind-err, Result-cases,
}
use open_key_server.Orm.Tables.{Table, select_all}
use open_key_server.Orm.Integrity.{HasKeys}
use open_key_server.Orm.Effects.{Keyed, row_at}
use open_key_server.Api.Sync.Push.{
  Tracked, Pushed, Pushing, get, row_of, in_push, push_items, push, flush_row, winners, read_held,
  echo,
}
use open_key_server.Api.Sync.Push.Held.{fold_items, upsert_in, All-get}
use open_key_server.Api.Sync.Push.Loop.{IsSound, IsLawful, IsComplete, push_items-Loops}
use open_key_server.Api.Sync.Push.Flush.{KeyedBy, fails, fills, flushed_at, flush-Flushes, old_of}
use open_key_server.Api.Sync.Push.Prefetch.{
  is_named, prefetched, get-prefetched, prefetched-IsSound, prefetched-IsDistinct, find-own,
}

module _ {R Item : Type 0} (p : Pushing R Item) (u : String) where
  -- Items of other uuids do nothing to the row.
  fold_items-absent :
      (k : ℕ) (items : List Item) (old : Option R)
      → in_push p items u ≡ false
      → fold_items p u k items old ≡ old
  unfolding fold_items any
  fold_items-absent k [] old h = refl
  fold_items-absent k (item ∷ items) old h =
      let other : (p.item_uuid item == u) ≡ false = ground (arith, h) in
      rw other (fold_items-absent (suc k) items old (ground (arith, h)))

  upsert_in-some :
      (k : ℕ) (item : Item) (r : R) → (r' : R) × (upsert_in p k item (some r) ≡ some r')
  upsert_in-some k item r =
      elim (p.upsert k (some r) item)
        as (λ o.
          (r' : R) × (elim o as (λ _. Option R) [ err e ↦ some r | ok u ↦ some u.row ] ≡ some r')) [
            | err e ↦ (r, refl)
            | ok up ↦ (up.row, refl)
          ]

  -- A row that is there stays there.
  pub fold_items-some :
      (k : ℕ) (items : List Item) (r : R) → (r' : R) × (fold_items p u k items (some r) ≡ some r')
  unfolding fold_items
  fold_items-some k [] r = (r, refl)
  fold_items-some k (item ∷ items) r = elim (Bool-cases (p.item_uuid item == u)) [
    | inr other ↦ rw other (fold_items-some (suc k) items r)
    | inl this ↦
        let (r₁, e) = upsert_in-some k item r in
        let (r₂, f) = fold_items-some (suc k) items r₁ in
        (r₂, rw this (ap (fold_items p u (suc k) items) e ∙ f))
  ]

  fold_items-none :
      (k : ℕ) (items : List Item) (old : Option R) → fold_items p u k items old ≡ none → old ≡ none
  fold_items-none k items none e = refl
  fold_items-none k items (some r) e = let (r', f) = fold_items-some k items r in cc

module _ {R Item : Type 0} (p : Pushing R Item) where
  All-echo :
      (P : R → Type 0) (o : Option (Tracked R)) (rows : List R)
      → ((x : Tracked R) → o ≡ some x → P x.row)
      → All P rows
      → All P (echo p o rows)
  All-echo P none rows h a = a
  All-echo P (some x) rows h a = (h x refl, a)

  abbrev held_or : Option (Tracked R) → Option R → Option R
  held_or o old = elim o [ none ↦ old | some x ↦ some x.row ]

  held_or-read :
      (o : Option (Tracked R)) (old v : Option R)
      → row_of p o ≡ v
      → (v ≡ none → old ≡ v)
      → held_or o old ≡ v
  held_or-read none old v e h = h (sym e)
  held_or-read (some x) old v e h = e

  held_or-none : (o : Option (Tracked R)) (old : Option R) → row_of p o ≡ none → held_or o old ≡ old
  held_or-none none old e = refl
  held_or-none (some x) old e = cc

module _ {R Item : Type 0} {t : Table R} (k : Keyed t (ℕ × String)) (p : Pushing R Item)
    (user_id : ℕ) where
  -- The row at a key after a push: the user's rows are folded over, the others are as they were.
  abbrev pub pushed_at : ℕ → List Item → ℕ × String → Option R → Option R
  pushed_at n items j old = if user_id == j.0 then fold_items p j.1 n items old else old

  pub data Pushes (n : ℕ) (items : List Item) (s : Session) (o : Result (Pushed R) × Session)
      : Type 0 where
    push_fails :
        (e : Error) (s' : Session)
        → o ≡ (err e, s')
        → s'.committed ≡ s.committed
        → Pushes n items s o
    push_fills :
        (held : Pushed R) (d : Db)
        → o ≡ (ok held, record s { current = d })
        → ((j : ℕ × String) → row_at k j d ≡ pushed_at n items j (row_at k j s.current))
        → d ≡ t.with_rows (t.rows d) s.current
        → HasKeys t d
        → All (λ r. row_at k (user_id, p.uuid r) d ≡ some r) (winners p held.tracked held.conflicts)
        → Pushes n items s o

  module _ (keyed : KeyedBy k p user_id) (lawful : IsLawful ⦃t = t⦄ p user_id) (items : List Item)
      (n : ℕ) where
    asked : (xs : List Item) → All (λ item. in_push p xs (p.item_uuid item) ≡ true) xs
    unfolding any
    asked [] = tt
    asked (item ∷ xs) = (
      rw (==_refl (p.item_uuid item)) refl,
      All-mono _ _ xs (λ x h. ground (arith, h)) (asked xs),
    )

    module _ (d : Db) where
      prefetched-IsComplete :
          IsComplete ⦃t = t⦄ p user_id
            (old_of k p user_id d)
            (prefetched k p user_id keyed items (t.rows d))
            items
      prefetched-IsComplete =
          All-mono _ _ items
            (λ item h absent.
              sym (get-prefetched k p user_id keyed items (p.item_uuid item) (t.rows d) ∙ rw h refl)
              ∙ ap (row_of p) absent)
            (asked items)

    -- The flush writes what the items make of the rows.
    filled-at :
        (d : Db) (held : Pushed R)
        → ((u : String)
            → row_of p (get p u held.tracked)
              ≡ fold_items p u n items
                  (row_of p (get p u (prefetched k p user_id keyed items (t.rows d)))))
        → (j : ℕ × String)
        → flushed_at k p user_id held.tracked j (row_at k j d) ≡ pushed_at n items j (row_at k j d)
    filled-at d held f (i, u) = elim (Bool-cases (user_id == i)) [
      | inr other ↦ rw other refl
      | inl mine ↦
          let e : user_id ≡ i = eq_of_== user_id i mine in
          let old = row_at k (user_id, u) d in
          let read = get-prefetched k p user_id keyed items u (t.rows d) in
          let at_home : held_or p (get p u held.tracked) old ≡ fold_items p u n items old =
            elim (Bool-cases (in_push p items u)) [
              | inl named ↦
                  held_or-read p (get p u held.tracked) old (fold_items p u n items old)
                    (f u ∙ ap (fold_items p u n items) (read ∙ rw named refl))
                    (λ gone. fold_items-none p u n items old gone ∙ sym gone)
              | inr absent ↦
                  held_or-none p (get p u held.tracked) old (
                    f u
                    ∙ ap (fold_items p u n items) (read ∙ rw absent refl)
                    ∙ fold_items-absent p u n items none absent)
                  ∙ sym (fold_items-absent p u n items old absent)
            ] in
          subst
            (λ v.
              flushed_at k p user_id held.tracked (v, u) (row_at k (v, u) d)
              ≡ pushed_at n items (v, u) (row_at k (v, u) d))
            e (rw (==_refl user_id) at_home)
    ]

    -- What is echoed is what is stored.
    winners-stored :
        (xs : List (Tracked R)) (d₀ d : Db)
        → All (IsSound ⦃t = t⦄ p user_id (old_of k p user_id d₀)) xs
        → ((j : ℕ × String) → row_at k j d ≡ flushed_at k p user_id xs j (row_at k j d₀))
        → (us : List String) → All (λ r. row_at k (user_id, p.uuid r) d ≡ some r) (winners p xs us)
    unfolding winners
    winners-stored xs d₀ d a at [] = tt
    winners-stored xs d₀ d a at (u ∷ us) =
        All-echo p (λ r. row_at k (user_id, p.uuid r) d ≡ some r) (get p u xs) (winners p xs us)
          (λ x e.
            let (_, same) =
              All-get p (IsSound ⦃t = t⦄ p user_id (old_of k p user_id d₀)) u xs x a e in
            at (user_id, p.uuid x.row) ∙ rw (==_refl user_id, same, e) refl)
          (winners-stored xs d₀ d a at us)

    pub push-Pushes :
        (s : Session)
        → HasKeys t s.current
        → HasKeys t s.committed
        → Pushes n items s (push ⦃t = t⦄ p user_id n items s)
    unfolding push select_all
    push-Pushes s h c =
        let rows = t.rows s.current in
        let start = read_held p (filter (is_named k p user_id keyed items) rows) in
        let looped : M (Pushed R) = lift (push_items p n items start) in
        let body : Pushed R → M (Pushed R) =
          λ held. for_each (flush_row ⦃t = t⦄ p) held.tracked >> pure held in
        let sound =
          prefetched-IsSound k p user_id keyed items (old_of k p user_id s.current) rows
            (find-own k p user_id keyed rows h) in
        let distinct = prefetched-IsDistinct k p user_id keyed items rows h in
        elim (Result-cases (push_items p n items start)) [
          | inl (e, failed) ↦ push_fails e s (bind-err looped body (ap (λ r. (r, s)) failed)) refl
          | inr (held, done) ↦
              let loops = λ (u : String).
                push_items-Loops ⦃t = t⦄ p user_id (old_of k p user_id s.current) lawful u n items
                  start held sound distinct (prefetched-IsComplete s.current) done in
              let sound' = (loops "").sound in
              let entered = bind-ok looped body (ap (λ r. (r, s)) done) in
              let flushed : M (Unit {0}) = for_each (flush_row ⦃t = t⦄ p) held.tracked in
              elim (flush-Flushes k p user_id keyed held.tracked s h c sound' (loops "").distinct) [
                | fails e s' o same ↦
                    push_fails e s' (entered ∙ bind-err flushed (λ _. pure held) o) same
                | fills d o at rest keys ↦
                    push_fills held d (entered ∙ bind-ok flushed (λ _. pure held) o)
                      (λ j. at j ∙ filled-at s.current held (λ u. (loops u).folded) j) rest keys
                      (winners-stored held.tracked s.current d sound' at held.conflicts)
              ]
        ]
