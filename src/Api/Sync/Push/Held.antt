-- ===== src/Api/Sync/Push/Held.antt =====
-- The rows that the session holds, by uuid, and one round of the loop over them.
use open_key_server.Base.{
  ℕ, suc, ◌==◌, nat_eq, string_eq, eq_of_==, eq_iff, String, true, false, Option, some, List, [],
  ◌∷◌, any, find, if◌then◌else◌, ◌≡◌, refl, ap, subst, inl, inr, Bool-cases, arith, All,
}
use open_key_server.Orm.Session.{Result, Error, ok, err}
use open_key_server.Api.Sync.{Upserted}
use open_key_server.Api.Sync.Response.{IsDistinct, is_seen}
use open_key_server.Api.Sync.Push.{Tracked, Pushed, Pushing, put, get, row_of, take_in, push_items}

module _ {R Item : Type 0} (p : Pushing R Item) where
  abbrev pub uuid_in : Tracked R → String
  uuid_in t = p.uuid t.row

  -- What the items of one uuid make of its row, in order, each by its upsert.
  abbrev pub upsert_in : ℕ → Item → Option R → Option R
  upsert_in k item old = elim (p.upsert k old item) [ err e ↦ old | ok u ↦ some u.row ]

  unfoldable pub fold_items : String → ℕ → List Item → Option R → Option R
  fold_items u k [] old = old
  fold_items u k (item ∷ items) old =
      fold_items u (suc k) items (if p.item_uuid item == u then upsert_in k item old else old)

  abbrev pub row_or : Option R → Result (Upserted R) → Option R
  row_or old r = elim r [ err e ↦ old | ok u ↦ some u.row ]

  pub upsert_in-ok :
      (k : ℕ) (item : Item) (old : Option R) (u : Upserted R)
      → p.upsert k old item ≡ ok u
      → upsert_in k item old ≡ some u.row
  upsert_in-ok k item old u e = ap (row_or old) e

  -- One round of the loop, given what its upsert does.
  module _ (k : ℕ) (item : Item) (items : List Item) (held : Pushed R) where
    abbrev pub go_on : Result (Upserted R) → Result (Pushed R)
    go_on r = elim r [ err e ↦ err e | ok u ↦ push_items p (suc k) items (take_in p item held u) ]

    pub push_items-ok :
        {u : Upserted R}
        → p.upsert k (row_of p (get p (p.item_uuid item) held.tracked)) item ≡ ok u
        → push_items p k (item ∷ items) held ≡ push_items p (suc k) items (take_in p item held u)
    unfolding push_items
    push_items-ok e = ap go_on e

    pub push_items-err :
        {x : Error}
        → p.upsert k (row_of p (get p (p.item_uuid item) held.tracked)) item ≡ err x
        → push_items p k (item ∷ items) held ≡ err x
    unfolding push_items
    push_items-err e = ap go_on e

  module _ (t : Tracked R) where
    pub get-put :
        (u : String) (xs : List (Tracked R))
        → get p u (put p t xs) ≡ (if p.uuid t.row == u then some t else get p u xs)
    unfolding put find
    get-put u [] = refl
    get-put u (x ∷ xs) = ground (
      arith,
      get-put u xs,
      eq_iff (p.uuid x.row) (p.uuid t.row),
      eq_iff (p.uuid x.row) u,
      eq_iff (p.uuid t.row) u,
    )

  pub is_seen-put :
      (t : Tracked R) (u : String) (xs : List (Tracked R))
      → is_seen uuid_in u (put p t xs) ≡ (if p.uuid t.row == u then true else is_seen uuid_in u xs)
  unfolding put any
  is_seen-put t u [] = ground arith
  is_seen-put t u (x ∷ xs) = ground (
    arith,
    is_seen-put t u xs,
    eq_iff (p.uuid x.row) (p.uuid t.row),
    eq_iff (p.uuid x.row) u,
    eq_iff (p.uuid t.row) u,
  )

  pub put-IsDistinct :
      (t : Tracked R) (xs : List (Tracked R))
      → IsDistinct uuid_in xs
      → IsDistinct uuid_in (put p t xs)
  unfolding put any
  put-IsDistinct t [] d = (refl, tt)
  put-IsDistinct t (x ∷ xs) d = elim (Bool-cases (p.uuid x.row == p.uuid t.row)) [
    | inl same ↦ rw same (
      subst (λ u. is_seen uuid_in u xs ≡ false) (eq_of_== (p.uuid x.row) (p.uuid t.row) same) d.0,
      d.1,
    )
    | inr other ↦ rw other (
      ground (
        arith,
        is_seen-put t (p.uuid x.row) xs,
        eq_iff (p.uuid x.row) (p.uuid t.row),
        eq_iff (p.uuid t.row) (p.uuid x.row),
        d.0,
      ),
      put-IsDistinct t xs d.1,
    )
  ]

  pub All-put :
      (P : Tracked R → Type 0) (t : Tracked R) (xs : List (Tracked R))
      → P t
      → All P xs
      → All P (put p t xs)
  unfolding put
  All-put P t [] h a = (h, tt)
  All-put P t (x ∷ xs) h a = elim (Bool-cases (p.uuid x.row == p.uuid t.row)) [
    | inl same ↦ rw same (h, a.1)
    | inr other ↦ rw other (a.0, All-put P t xs h a.1)
  ]

  pub All-get :
      (P : Tracked R → Type 0) (u : String) (xs : List (Tracked R)) (t : Tracked R)
      → All P xs
      → get p u xs ≡ some t
      → P t × (p.uuid t.row ≡ u)
  unfolding find
  All-get P u [] t a e = cc
  All-get P u (x ∷ xs) t a e = elim (Bool-cases (p.uuid x.row == u)) [
    | inl same ↦
        let is_x : x ≡ t = ground arith in
        subst (λ y. P y × (p.uuid y.row ≡ u)) is_x (a.0, eq_of_== (p.uuid x.row) u same)
    | inr other ↦ All-get P u xs t a.1 (ground arith)
  ]
