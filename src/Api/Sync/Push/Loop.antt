-- ===== src/Api/Sync/Push/Loop.antt =====
-- The loop over pushed items: what becomes of the row of one uuid.
use open_key_server.Base.{
  ℕ, suc, ◌==◌, nat_eq, string_eq, eq_of_==, String, Bool, true, false, ◌||◌, Option, none, some,
  List, [], ◌∷◌, if◌then◌else◌, ◌≡◌, refl, sym, ap, ◌∙◌, subst, inl, inr, Bool-cases, Option-cases,
  arith, All,
}
use open_key_server.Orm.Session.{ok, Result-cases}
use open_key_server.Orm.Tables.{Table}
use open_key_server.Api.Sync.{Upserted}
use open_key_server.Api.Sync.Response.{IsDistinct}
use open_key_server.Api.Sync.Push.{
  Tracked, Pushed, Pushing, put, get, row_of, track, take_in, push_items,
}
use open_key_server.Api.Sync.Push.Held.{
  All-get, All-put, fold_items, get-put, push_items-err, push_items-ok, put-IsDistinct, upsert_in,
  upsert_in-ok, uuid_in,
}

module _ {R Item : Type 0} ⦃t : Table R⦄ (p : Pushing R Item) (user_id : ℕ) where
  -- A row that an item is upserted into.
  abbrev pub Fits : Option R → Item → Type 0
  Fits none item = Unit
  Fits (some r) item = (p.uuid r ≡ p.item_uuid item) × (p.user_of r ≡ user_id)

  -- A row that was not assigned to is as it was.
  abbrev pub KeepsKey : Option R → Upserted R → Type 0
  KeepsKey none u = u.is_new ≡ true
  KeepsKey (some r) u =
      (u.is_new ≡ false) × (t.id r ≡ t.id u.row) × (u.is_changed ≡ false → u.row ≡ r)

  -- An upsert leaves a row of the user's under the item's uuid, with its key; it is new exactly if
  -- nothing was there.
  pub record IsLawful : Type 0 where
    pub kept :
        (k : ℕ) (old : Option R) (item : Item) (u : Upserted R)
        → Fits old item
        → p.upsert k old item ≡ ok u
        → (p.uuid u.row ≡ p.item_uuid item) × (p.user_of u.row ≡ user_id) × KeepsKey old u

  module _ (old : String → Option R) where
    -- What the session holds of a row agrees with the database as it was.
    abbrev pub Was : Bool → Bool → R → Type 0
    Was true dirty r = old (p.uuid r) ≡ none
    Was false dirty r =
        (x : R) × (old (p.uuid r) ≡ some x) × (t.id x ≡ t.id r) × (dirty ≡ false → r ≡ x)

    abbrev pub IsSound : Tracked R → Type 0
    IsSound x = (p.user_of x.row ≡ user_id) × Was x.is_new x.is_dirty x.row

    -- Where the session holds no row of an item yet, the database had none.
    abbrev pub IsComplete : List (Tracked R) → List Item → Type 0
    IsComplete xs = All (λ item. get p (p.item_uuid item) xs ≡ none → old (p.item_uuid item) ≡ none)

    IsComplete-put :
        (x : Tracked R) (xs : List (Tracked R)) (items : List Item)
        → IsComplete xs items
        → IsComplete (put p x xs) items
    IsComplete-put x xs [] c = tt
    IsComplete-put x xs (item ∷ items) c = (
      λ absent. c.0 (ground (arith, absent, get-put p x (p.item_uuid item) xs)),
      IsComplete-put x xs items c.1,
    )

    held-Fits :
        (item : Item) (xs : List (Tracked R))
        → All IsSound xs
        → Fits (row_of p (get p (p.item_uuid item) xs)) item
    held-Fits item xs a = elim (Option-cases (get p (p.item_uuid item) xs)) [
      | inl e ↦ rw e tt
      | inr (x, e) ↦
          let (s, same) = All-get p IsSound (p.item_uuid item) xs x a e in rw e (same, s.0)
    ]

    Was-step :
        (n d c : Bool) (r r' : R)
        → Was n d r
        → p.uuid r' ≡ p.uuid r
        → t.id r ≡ t.id r'
        → (c ≡ false → r' ≡ r)
        → Was n (d || c) r'
    Was-step true d c r r' w e i same = ap old e ∙ w
    Was-step false d c r r' (x, found, is_x, clean) e i same =
        (x, ap old e ∙ found, is_x ∙ i, λ h. same (ground arith) ∙ clean (ground arith))

    track-IsSound :
        (o : Option (Tracked R)) (item : Item) (u : Upserted R)
        → ((x : Tracked R) → o ≡ some x → IsSound x × (p.uuid x.row ≡ p.item_uuid item))
        → (o ≡ none → old (p.item_uuid item) ≡ none)
        → p.uuid u.row ≡ p.item_uuid item
        → p.user_of u.row ≡ user_id
        → KeepsKey (row_of p o) u
        → IsSound (track p o u)
    track-IsSound none item u a c e own key = (own, rw key (ap old e ∙ c refl))
    track-IsSound (some x) item u a c e own key =
        let (s, same) = a x refl in
        (own, Was-step x.is_new x.is_dirty u.is_changed x.row u.row s.1 (e ∙ sym same) key.1 key.2)

    row_of-track : (o : Option (Tracked R)) (u : Upserted R) → (track p o u).row ≡ u.row
    row_of-track none u = refl
    row_of-track (some x) u = refl

    row_of-get-put :
        (u : String) (x : Tracked R) (xs : List (Tracked R))
        → row_of p (get p u (put p x xs))
          ≡ (if p.uuid x.row == u then some x.row else row_of p (get p u xs))
    row_of-get-put u x xs = elim (Bool-cases (p.uuid x.row == u)) [
      | inl same ↦ rw (get-put p x u xs, same) refl
      | inr other ↦ rw (get-put p x u xs, other) refl
    ]

    -- One round changes the row of the item's uuid only.
    step :
        (k : ℕ) (u : String) (item : Item) (xs : List (Tracked R)) (up : Upserted R)
        → p.upsert k (row_of p (get p (p.item_uuid item) xs)) item ≡ ok up
        → p.uuid up.row ≡ p.item_uuid item
        → row_of p (get p u (put p (track p (get p (p.item_uuid item) xs) up) xs)) ≡ (
            if p.item_uuid item == u
            then upsert_in p k item (row_of p (get p u xs))
            else row_of p (get p u xs))
    step k u item xs up done e =
        let o = get p (p.item_uuid item) xs in
        let named : p.uuid (track p o up).row ≡ p.item_uuid item =
          ap p.uuid (row_of-track o up) ∙ e in
        row_of-get-put u (track p o up) xs
        ∙ rw (named, row_of-track o up)
            (elim (Bool-cases (p.item_uuid item == u)) [
              | inr other ↦ rw other refl
              | inl this ↦
                  let at : p.item_uuid item ≡ u = eq_of_== (p.item_uuid item) u this in
                  rw (this, ← at) (sym (upsert_in-ok p k item (row_of p o) up done))
            ])

    -- What the loop leaves: sound rows, one for each uuid, and for each uuid what its items make of its row.
    pub record Loops (u : String) (k : ℕ) (items : List Item) (held held' : Pushed R) : Type 0 where
      pub sound : All IsSound held'.tracked
      pub distinct : IsDistinct (uuid_in p) held'.tracked
      pub folded :
          row_of p (get p u held'.tracked)
          ≡ fold_items p u k items (row_of p (get p u held.tracked))

    module _ (lawful : IsLawful) (u : String) where
      pub push_items-Loops :
          (k : ℕ) (items : List Item) (held held' : Pushed R)
          → All IsSound held.tracked
          → IsDistinct (uuid_in p) held.tracked
          → IsComplete held.tracked items
          → push_items p k items held ≡ ok held'
          → Loops u k items held held'
      unfolding push_items fold_items
      push_items-Loops k [] held held' a d c e =
          let same : held ≡ held' = cc in
          subst (λ h. Loops u k [] held h) same (record { sound = a; distinct = d; folded = refl })
      push_items-Loops k (item ∷ items) held held' a d c e =
          let o = get p (p.item_uuid item) held.tracked in
          elim (Result-cases (p.upsert k (row_of p o) item)) [
            | inl (x, failed) ↦ let bad = sym (push_items-err p k item items held failed) ∙ e in cc
            | inr (up, done) ↦
                let (same, own, key) =
                  lawful.kept k (row_of p o) item up (held-Fits item held.tracked a) done in
                let sound =
                  track-IsSound o item up
                    (λ x f. All-get p IsSound (p.item_uuid item) held.tracked x a f) c.0 same own
                    key in
                let next = take_in p item held up in
                let rest =
                  push_items-Loops (suc k) items next held'
                    (All-put p IsSound (track p o up) held.tracked sound a)
                    (put-IsDistinct p (track p o up) held.tracked d)
                    (IsComplete-put (track p o up) held.tracked items c.1)
                    (sym (push_items-ok p k item items held done) ∙ e) in
                record {
                  sound = rest.sound;
                  distinct = rest.distinct;
                  folded =
                      rest.folded
                      ∙ ap (fold_items p u (suc k) items) (step k u item held.tracked up done same);
                }
          ]

module _ {R Item : Type 0} ⦃t : Table R⦄ (p : Pushing R Item) (user_id : ℕ)
    (old old' : String → Option R) where
  -- Soundness of a row looks at what was at its uuid only.
  pub Was-cong :
      (n dirty : Bool) (r : R)
      → old (p.uuid r) ≡ old' (p.uuid r)
      → Was p user_id old n dirty r
      → Was p user_id old' n dirty r
  Was-cong true dirty r e w = sym e ∙ w
  Was-cong false dirty r e (x, found, is_x, clean) = (x, sym e ∙ found, is_x, clean)
