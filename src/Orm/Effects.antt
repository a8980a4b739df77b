-- ===== src/Orm/Effects.antt =====
-- A table as a finite map from a unique key, and what a flush does to it: it puts one row, or is
-- refused and changes nothing.
use open_key_server.Base.{
  ◌≡◌, refl, sym, ap, subst, ◌∙◌, ◌⊎◌, Bool, true, Option, some, List, [], ◌∷◌, ◌++◌, inl, inr,
  Bool-cases, if◌then◌else◌, any, find,
}
use open_key_server.Models.{Db}
use open_key_server.Orm.Rows.{replace, clash_other}
use open_key_server.Orm.Lookup
use open_key_server.Orm.Session.{
  Error, Session, Result, M, ok, err, integrity_error, pure, finish, start, ◌>>◌,
}
use open_key_server.Orm.Tables.{Table, add, save}
use open_key_server.Orm.Integrity.{HasKeys}

-- A unique key of a table: two rows that a key hits cannot both be stored.
pub record Keyed {R : Type 0} (t : Table R) (K : Type 0) : Type 0 where
  pub hits : K → R → Bool
  pub clash_of_hits : (k : K) (a b : R) → hits k a ≡ true → hits k b ≡ true → t.clash a b ≡ true
  pub hits_inj : (i j : K) (r : R) → hits i r ≡ true → hits j r ≡ true → i ≡ j

module _ {R K : Type 0} {t : Table R} (k : Keyed t K) where
  abbrev pub row_at : K → Db → Option R
  row_at j d = find (k.hits j) (t.rows d)

  -- `d'` is `d` with the row `r` put at its key, and the other tables untouched.
  pub record Puts (r : R) (d d' : Db) : Type 0 where
    pub at : (j : K) → row_at j d' ≡ (if k.hits j r then some r else row_at j d)
    pub rest : d' ≡ t.with_rows (t.rows d') d

  pub data Flushed (r : R) (s : Session) (o : Result (Unit {0}) × Session) : Type 0 where
    refused : o ≡ (err integrity_error, s) → Flushed r s o
    stored :
        (d' : Db) → o ≡ (ok tt, record s { current = d' }) → Puts r s.current d' → Flushed r s o

  pub add-Flushed : (r : R) (s : Session) → HasKeys t s.current → Flushed r s (add ⦃t = t⦄ r s)
  unfolding add
  add-Flushed r s h = elim (Bool-cases (any (t.clash r) (t.rows s.current))) [
    | inl refuse ↦ refused (rw refuse refl)
    | inr free ↦ elim (Bool-cases (t.fits r)) [
      | inl fits ↦
          stored (t.with_rows (t.rows s.current ++ r ∷ []) s.current) (rw (free, fits) refl)
            (record {
              at = λ j. rw t.rows-with_rows (
                  Lookup.find-append t.id t.clash k.hits t.clash_of_id t.clash_comm k.clash_of_hits
                    j r (t.rows s.current) free);
              rest = rw t.rows-with_rows refl;
            })
      | inr large ↦ refused (rw (free, large) refl)
    ]
  ]

  pub save-Flushed :
      (p : R → Bool) (x r : R) (s : Session)
      → HasKeys t s.current
      → find p (t.rows s.current) ≡ some x
      → t.id x ≡ t.id r
      → ((j : K) → k.hits j x ≡ k.hits j r)
      → Flushed r s (save ⦃t = t⦄ r s)
  unfolding save
  save-Flushed p x r s h f i e =
      elim (Bool-cases (any (clash_other t.id t.clash r) (t.rows s.current))) [
        | inl refuse ↦ refused (rw refuse refl)
        | inr free ↦ elim (Bool-cases (t.fits r)) [
          | inl fits ↦
              stored (t.with_rows (replace t.id r (t.rows s.current)) s.current)
                (rw (free, fits) refl)
                (record {
                  at = λ j. rw t.rows-with_rows (
                      Lookup.find-replace t.id t.clash k.hits t.clash_of_id t.clash_comm
                        k.clash_of_hits j p r x (t.rows s.current) h f i (e j));
                  rest = rw t.rows-with_rows refl;
                })
          | inr large ↦ refused (rw (free, large) refl)
        ]
      ]

  -- What an endpoint that writes one row does: it raises what `Denied` allows, or because the database
  -- refuses the row, and leaves the database as it was, or it returns the row that it put at the key `j`,
  -- which `Change` relates to the row that was there.
  abbrev pub Writes :
      {A : Type 0}
      → (j : K) → (Error → Type 0)
      → (Option R → R → Type 0)
      → (R → A)
      → Db
      → Result A × Db
      → Type 0
  Writes j Denied Change value d (err e, d') = (d' ≡ d) × ((e ≡ integrity_error) ⊎ Denied e)
  Writes j Denied Change value d (ok a, d') =
      (r : R) × (a ≡ value r) × (k.hits j r ≡ true) × Change (row_at j d) r × Puts r d d'

  abbrev ends : {A : Type 0} → M A → Db → Result A × Db
  ends m d = finish (m (start d)).0 (m (start d)).1

  abbrev returned : {A : Type 0} → A → Result (Unit {0}) × Session → Result A × Db
  returned {A} a o =
      let r : Result A × Session = elim o.0 [ ok u ↦ (ok a, o.1) | err e ↦ (err e, o.1) ] in
      finish r.0 r.1

  module _ {A : Type 0} (j : K) (Denied : Error → Type 0) (Change : Option R → R → Type 0)
      (value : R → A) (r : R) (d : Db) where
    abbrev Written : Result A × Db → Type 0
    Written = Writes j Denied Change value d

    flush-Writes :
        (o : Result (Unit {0}) × Session)
        → k.hits j r ≡ true
        → Change (row_at j d) r
        → Flushed r (start d) o
        → Written (returned (value r) o)
    flush-Writes o h c (refused e) =
        subst (λ o. Written (returned (value r) o)) (sym e) (refl, inl refl)
    flush-Writes o h c (stored d' e p) =
        subst (λ o. Written (returned (value r) o)) (sym e) (r, refl, h, c, p)

    pub add-Writes :
        HasKeys t d
        → k.hits j r ≡ true
        → Change (row_at j d) r
        → Written (ends (add ⦃t = t⦄ r >> pure (value r)) d)
    add-Writes keys h c = flush-Writes (add ⦃t = t⦄ r (start d)) h c (add-Flushed r (start d) keys)

    pub save-Writes :
        (p : R → Bool) (x : R)
        → HasKeys t d
        → find p (t.rows d) ≡ some x
        → t.id x ≡ t.id r
        → ((i : K) → k.hits i x ≡ k.hits i r)
        → k.hits j r ≡ true
        → Change (some x) r
        → Written (ends (save ⦃t = t⦄ r >> pure (value r)) d)
    save-Writes p x keys f i e h c =
        let there =
          Lookup.find-hits t.id t.clash k.hits t.clash_of_id t.clash_comm k.clash_of_hits j p x
            (t.rows d) keys f (e j ∙ h) in
        flush-Writes (save ⦃t = t⦄ r (start d)) h (rw there c)
          (save-Flushed p x r (start d) keys f i e)

  -- What such an endpoint does to the row at any key.
  pub Writes-at :
      {A : Type 0} (j : K) (Denied : Error → Type 0) (Change : Option R → R → Type 0)
      (value : R → A) (d : Db) (o : Result A × Db)
      → Writes j Denied Change value d o
      → (i : K)
      → (row_at i o.1 ≡ row_at i d) ⊎ ((r : R) × Change (row_at i d) r × (row_at i o.1 ≡ some r))
  Writes-at j Denied Change value d (err e, d') w i = inl (ap (row_at i) w.0)
  Writes-at j Denied Change value d (ok a, d') (r, _, h, c, p) i = elim (Bool-cases (k.hits i r)) [
    | inr other ↦ inl (p.at i ∙ rw other refl)
    | inl same ↦
        inr
          (r, subst (λ x. Change (row_at x d) r) (k.hits_inj j i r h same) c, p.at i ∙ rw same refl)
  ]

  -- A relation between what was at a key and what is there afterwards, from the change that is made.
  pub Writes-relates :
      (S : Option R → Option R → Type 0) {A : Type 0} (j : K) (Denied : Error → Type 0)
      (Change : Option R → R → Type 0) (value : R → A) (d : Db) (o : Result A × Db)
      → Writes j Denied Change value d o
      → (i : K) → S (row_at i d) (row_at i d)
      → ((r : R) → Change (row_at i d) r → S (row_at i d) (some r))
      → S (row_at i d) (row_at i o.1)
  Writes-relates S j Denied Change value d o w i same step =
      elim (Writes-at j Denied Change value d o w i) [
        | inl e ↦ subst (λ x. S (row_at i d) x) (sym e) same
        | inr (r, c, e) ↦ subst (λ x. S (row_at i d) x) (sym e) (step r c)
      ]

  -- At every other key nothing changes.
  pub Writes-elsewhere :
      {A : Type 0} (j : K) (Denied : Error → Type 0) (Change : Option R → R → Type 0)
      (value : R → A) (d : Db) (o : Result A × Db)
      → Writes j Denied Change value d o
      → (i : K) → ¬ (i ≡ j)
      → row_at i o.1 ≡ row_at i d
  Writes-elsewhere j Denied Change value d (err e, d') w i n = ap (row_at i) w.0
  Writes-elsewhere j Denied Change value d (ok a, d') (r, _, h, c, p) i n =
      elim (Bool-cases (k.hits i r)) [
        | inr other ↦ p.at i ∙ rw other refl
        | inl same ↦ elim (n (k.hits_inj i j r same h)) [ ]
      ]

  -- A view of the database that the table does not enter stays the same.
  pub Writes-rest :
      {A X : Type 0} (j : K) (Denied : Error → Type 0) (Change : Option R → R → Type 0)
      (value : R → A) (d : Db) (o : Result A × Db)
      → Writes j Denied Change value d o
      → (view : Db → X) → ((xs : List R) → view (t.with_rows xs d) ≡ view d)
      → view o.1 ≡ view d
  Writes-rest j Denied Change value d (err e, d') w view h = ap view w.0
  Writes-rest j Denied Change value d (ok a, d') (r, _, _, _, p) view h =
      ap view p.rest ∙ h (t.rows d')
