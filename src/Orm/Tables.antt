-- ===== src/Orm/Tables.antt =====
-- The queries and writes of the ORM, over any table: `db.scalar`, `db.scalars`, `db.add` with its
-- flush, the flush of a changed row, and `session.delete`.
use open_key_server.Base.{
  ℕ, ◌≡◌, Bool, true, not, ◌||◌, Option, List, [], ◌∷◌, ◌++◌, map, any, find, filter, if◌then◌else◌,
}
use open_key_server.Models.{Db}
use open_key_server.Orm.Session.{M, Session, ok, err, integrity_error}
use open_key_server.Orm.Rows.{replace, clash_other}

-- A table: where its rows are, its primary key and unique constraints (`clash`), and the ranges of
-- its number columns (`fits`).
pub record Table (R : Type 0) : Type 0 where
  pub id : R → ℕ
  pub clash : R → R → Bool
  pub fits : R → Bool
  pub rows : Db → List R
  pub with_rows : List R → Db → Db
  pub clash_of_id : (a b : R) → id a ≡ id b → clash a b ≡ true
  pub clash_comm : (a b : R) → clash a b ≡ clash b a
  pub rows-with_rows : (xs : List R) (d : Db) → rows (with_rows xs d) ≡ xs
  pub with_rows-rows : (d : Db) → with_rows (rows d) d ≡ d
  pub with_rows-with_rows :
      (xs ys : List R) (d : Db) → with_rows xs (with_rows ys d) ≡ with_rows xs d

module _ {R : Type 0} ⦃t : Table R⦄ where
  -- The first row that a query selects. SQL leaves the order open: here it is that of insertion.
  unfoldable pub select_first : (R → Bool) → M (Option R)
  select_first p s = (ok (find p (t.rows s.current)), s)

  unfoldable pub select_all : (R → Bool) → M (List R)
  select_all p s = (ok (filter p (t.rows s.current)), s)

  abbrev refuses_add : List R → R → Bool
  refuses_add xs r = any (t.clash r) xs || not (t.fits r)

  abbrev refuses_save : List R → R → Bool
  refuses_save xs r = any (clash_other t.id t.clash r) xs || not (t.fits r)

  abbrev write : List R → Session → Session
  write xs s = record s { current = t.with_rows xs s.current }

  unfoldable pub add : R → M (Unit {0})
  add r s =
      if refuses_add (t.rows s.current) r
      then (err integrity_error, s)
      else (ok tt, write (t.rows s.current ++ r ∷ []) s)

  unfoldable pub save : R → M (Unit {0})
  save r s =
      if refuses_save (t.rows s.current) r
      then (err integrity_error, s)
      else (ok tt, write (replace t.id r (t.rows s.current)) s)

  -- Delete every row that a test picks out.
  unfoldable pub delete_where : (R → Bool) → M (Unit {0})
  delete_where p s = (ok tt, write (filter (λ r. not (p r)) (t.rows s.current)) s)

  -- `for row in rows: row.x = …` over every row that a test picks out, and the flush. The changed
  -- columns are under no constraint.
  unfoldable pub update_where : (R → Bool) → (R → R) → M (Unit {0})
  update_where p f s = (ok tt, write (map (λ r. if p r then f r else r) (t.rows s.current)) s)
