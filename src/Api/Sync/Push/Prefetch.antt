-- ===== src/Api/Sync/Push/Prefetch.antt =====
-- The rows that a push reads before its loop: those of the user that the items name, each as it is stored.
use open_key_server.Base.{
  ℕ, ◌==◌, nat_eq, string_eq, ==_refl, eq_of_==, String, Bool, true, false, ◌&&◌, Option, none,
  some, List, [], ◌∷◌, any, find, filter, map, if◌then◌else◌, ◌≡◌, refl, sym, ◌∙◌, subst, inl, inr,
  Bool-cases, arith, All,
}
use open_key_server.Orm.Tables.{Table}
use open_key_server.Orm.Rows.{IsKeyed}
use open_key_server.Orm.Effects.{Keyed}
use open_key_server.Api.Sync.Response.{IsDistinct, is_seen}
use open_key_server.Api.Sync.Push.{Tracked, as_read, Pushing, get, row_of, in_push}
use open_key_server.Api.Sync.Push.Held.{uuid_in}
use open_key_server.Api.Sync.Push.Loop.{IsSound}
use open_key_server.Api.Sync.Push.Flush.{KeyedBy}

All-without :
    {A : Type 0} (q : A → Bool) (P P' : A → Type 0) (xs : List A)
    → any q xs ≡ false
    → ((x : A) → q x ≡ false → P x → P' x)
    → All P xs
    → All P' xs
unfolding any
All-without q P P' [] h f a = tt
All-without q P P' (x ∷ xs) h f a =
    (f x (ground (arith, h)) a.0, All-without q P P' xs (ground (arith, h)) f a.1)

module _ {R Item : Type 0} (p : Pushing R Item) where
  is_seen-as_read :
      (u : String) (rows : List R)
      → is_seen (uuid_in p) u (map as_read rows) ≡ is_seen p.uuid u rows
  unfolding any
  is_seen-as_read u [] = refl
  is_seen-as_read u (x ∷ rows) = rw (is_seen-as_read u rows) refl

  as_read-IsDistinct :
      (rows : List R) → IsDistinct p.uuid rows → IsDistinct (uuid_in p) (map as_read rows)
  as_read-IsDistinct [] d = tt
  as_read-IsDistinct (x ∷ rows) d =
      (is_seen-as_read (p.uuid x) rows ∙ d.0, as_read-IsDistinct rows d.1)

module _ {R Item : Type 0} {t : Table R} (k : Keyed t (ℕ × String)) (p : Pushing R Item)
    (user_id : ℕ) (keyed : KeyedBy k p user_id) where
  own_hit : (r : R) → p.user_of r ≡ user_id → k.hits (user_id, p.uuid r) r ≡ true
  own_hit r own = keyed (user_id, p.uuid r) r ∙ rw (own, ==_refl user_id, ==_refl (p.uuid r)) refl

  -- In a table that meets its constraints a row of the user's is what its uuid finds.
  abbrev pub IsFound : List R → R → Type 0
  IsFound rows r = p.user_of r ≡ user_id → find (k.hits (user_id, p.uuid r)) rows ≡ some r

  pub find-own : (rows : List R) → IsKeyed t.id t.clash rows → All (IsFound rows) rows
  unfolding find
  find-own [] h = tt
  find-own (x ∷ rows) h = (
    λ own. rw (own_hit x own) refl,
    All-without (t.clash x) (IsFound rows) (IsFound (x ∷ rows)) rows h.0
        (λ r apart found own.
          ground (arith, found own, own_hit r own, k.clash_of_hits (user_id, p.uuid r) x r))
        (find-own rows h.1),
  )

  -- The user's rows that a query selects have different uuids.
  module _ (q : R → Bool) (owned : (r : R) → q r ≡ true → p.user_of r ≡ user_id) where
    filter-fresh :
        (x : R) (rows : List R)
        → p.user_of x ≡ user_id
        → any (t.clash x) rows ≡ false
        → is_seen p.uuid (p.uuid x) (filter q rows) ≡ false
    unfolding filter any
    filter-fresh x [] own h = refl
    filter-fresh x (r ∷ rows) own h = elim (Bool-cases (q r)) [
      | inr other ↦ rw other (filter-fresh x rows own (ground (arith, h)))
      | inl chosen ↦
          let mine = owned r chosen in
          rw chosen (
            ground (
              arith,
              h,
              filter-fresh x rows own,
              k.clash_of_hits (user_id, p.uuid x) x r,
              own_hit x own,
              keyed (user_id, p.uuid x) r,
              ==_refl user_id,
            ))
    ]

    pub filter-IsDistinct :
        (rows : List R) → IsKeyed t.id t.clash rows → IsDistinct p.uuid (filter q rows)
    unfolding filter
    filter-IsDistinct [] h = tt
    filter-IsDistinct (x ∷ rows) h = elim (Bool-cases (q x)) [
      | inr other ↦ rw other (filter-IsDistinct rows h.1)
      | inl chosen ↦
          rw chosen (filter-fresh x rows (owned x chosen) h.0, filter-IsDistinct rows h.1)
    ]

  module _ (items : List Item) where
    abbrev pub is_named : R → Bool
    is_named r = p.user_of r == user_id && in_push p items (p.uuid r)

    abbrev pub prefetched : List R → List (Tracked R)
    prefetched rows = map as_read (filter is_named rows)

    pub get-prefetched :
        (u : String) (rows : List R)
        → row_of p (get p u (prefetched rows))
          ≡ (if in_push p items u then find (k.hits (user_id, u)) rows else none)
    unfolding find filter
    get-prefetched u [] = ground arith
    get-prefetched u (x ∷ rows) = elim (Bool-cases (is_named x)) [
      | inl named ↦ elim (Bool-cases (p.uuid x == u)) [
        | inr other ↦
            let miss : k.hits (user_id, u) x ≡ false =
              keyed (user_id, u) x ∙ ground (arith, other) in
            rw (named, other, miss) (get-prefetched u rows)
        | inl same ↦
            let e : p.uuid x ≡ u = eq_of_== (p.uuid x) u same in
            let hit : k.hits (user_id, u) x ≡ true =
              keyed (user_id, u) x ∙ ground (arith, named, same) in
            let asked : in_push p items u ≡ true =
              subst (λ v. in_push p items v ≡ true) e (ground (arith, named)) in
            rw (named, same, hit, asked) refl
      ]
      | inr unnamed ↦ elim (Bool-cases (k.hits (user_id, u) x)) [
        | inr miss ↦ rw (unnamed, miss) (get-prefetched u rows)
        | inl hit ↦
            let both = sym (keyed (user_id, u) x) ∙ hit in
            let e : p.uuid x ≡ u = eq_of_== (p.uuid x) u (ground (arith, both)) in
            let absent : in_push p items u ≡ false =
              subst (λ v. in_push p items v ≡ false) e (ground (arith, unnamed, both)) in
            rw (unnamed, absent) (get-prefetched u rows ∙ rw absent refl)
      ]
    ]

    pub prefetched-IsSound :
        (old : String → Option R) (rows : List R)
        → All (λ r. p.user_of r ≡ user_id → old (p.uuid r) ≡ some r) rows
        → All (IsSound ⦃t = t⦄ p user_id old) (prefetched rows)
    unfolding filter
    prefetched-IsSound old [] a = tt
    prefetched-IsSound old (x ∷ rows) a = elim (Bool-cases (is_named x)) [
      | inr other ↦ rw other (prefetched-IsSound old rows a.1)
      | inl named ↦
          let own : p.user_of x ≡ user_id = ground arith in
          rw named ((own, (x, a.0 own, refl, λ _. refl)), prefetched-IsSound old rows a.1)
    ]

    pub prefetched-IsDistinct :
        (rows : List R) → IsKeyed t.id t.clash rows → IsDistinct (uuid_in p) (prefetched rows)
    prefetched-IsDistinct rows h =
        as_read-IsDistinct p (filter is_named rows)
          (filter-IsDistinct is_named (λ r named. ground (arith, named)) rows h)
