-- ===== src/Api/Sync/Endpoint/Times.antt =====
-- The latest of some times as a cursor.
use open_key_server.Base.{
  ℕ, ◌≤◌, nat_eq, Bool, false, ◌&&◌, Option, none, some, List, [], ◌∷◌, filter, ◌≡◌, refl, sym, ap,
  ◌∙◌, ◌⊎◌, subst, inl, inr, ltb, All, All-mono, max, arith, Bool-cases,
}
use open_key_server.Orm.Session.{ok}
use open_key_server.Orm.Schema.{collection_table, entry_table, attachment_table}
use open_key_server.Api.Sync.Cursor.{since_to_datetime, datetime_to_revision}
use open_key_server.Api.Sync.Cursor.Exact.{IsRepresentable, since_to_datetime-datetime_to_revision}
use open_key_server.Api.Sync.Push.{Pushing}
use open_key_server.Api.Sync.Endpoint.{latest_of, later}

-- A cursor that reads back as itself.
abbrev pub IsExact : ℕ → Type 0
IsExact n = (n ≡ 0) ⊎ IsRepresentable n

module _ {R Item : Type 0} (p : Pushing R Item) where
  -- The times of the rows, as far as they matter, are between 2005 and 2038.
  abbrev pub AreRepresentable : List R → Type 0
  AreRepresentable = All (λ r. IsRepresentable (p.updated_at r))

  -- The latest of such times is one of them, and none is later.
  pub record IsLatest (rows : List R) (n : ℕ) : Type 0 where
    pub exact : IsExact n
    pub bound : All (λ r. p.updated_at r ≤ n) rows

  abbrev IsTop : List R → Option ℕ → Type 0
  IsTop rows none = rows ≡ []
  IsTop rows (some n) = IsRepresentable n × All (λ r. p.updated_at r ≤ n) rows

  IsTop-later :
      (r : R) (rows : List R) (o : Option ℕ)
      → IsRepresentable (p.updated_at r)
      → IsTop rows o
      → IsTop (r ∷ rows) (later (p.updated_at r) o)
  IsTop-later r rows none rep top =
      (rep, (omega arith, subst (All (λ x. p.updated_at x ≤ p.updated_at r)) (sym top) tt))
  IsTop-later r rows (some m) rep (rep_m, below) = (
    record {
      from = ground (arith, rep.from, rep_m.from);
      until = ground (arith, rep.until, rep_m.until);
    },
    (
      ground arith,
      All-mono (λ x. p.updated_at x ≤ m) (λ x. p.updated_at x ≤ max (p.updated_at r) m) rows
          (λ x h. ground (arith, h)) below,
    ),
  )

  latest_of-IsTop :
      (rows : List R) → AreRepresentable rows → IsTop rows (latest_of p.updated_at rows)
  unfolding latest_of
  latest_of-IsTop [] a = refl
  latest_of-IsTop (r ∷ rows) a =
      IsTop-later r rows (latest_of p.updated_at rows) a.0 (latest_of-IsTop rows a.1)

  of_top : (rows : List R) (o : Option ℕ) → IsTop rows o → IsLatest rows (datetime_to_revision o)
  unfolding datetime_to_revision
  of_top rows none top = record {
    exact = inl refl;
    bound = subst (All (λ r. p.updated_at r ≤ 0)) (sym top) tt;
  }
  of_top rows (some n) (rep, below) =
      subst (IsLatest rows) (sym (since_to_datetime-datetime_to_revision n rep).0)
        (record { exact = inr rep; bound = below })

  pub latest_of-IsLatest :
      (rows : List R)
      → AreRepresentable rows
      → IsLatest rows (datetime_to_revision (latest_of p.updated_at rows))
  latest_of-IsLatest rows a = of_top rows (latest_of p.updated_at rows) (latest_of-IsTop rows a)

pub IsExact-max : (a b : ℕ) → IsExact a → IsExact b → IsExact (max a b)
IsExact-max a b (inl x) (inl y) = inl (ground arith)
IsExact-max a b (inl x) (inr y) =
    inr (record { from = ground (arith, y.from); until = ground (arith, y.until) })
IsExact-max a b (inr x) (inl y) =
    inr (record { from = ground (arith, x.from); until = ground (arith, x.until) })
IsExact-max a b (inr x) (inr y) =
    inr (record { from = ground (arith, x.from, y.from); until = ground (arith, x.until, y.until) })

pub since_to_datetime-IsExact : (n : ℕ) → IsExact n → since_to_datetime n ≡ ok n
unfolding since_to_datetime
since_to_datetime-IsExact n (inl zero_) = rw zero_ refl
since_to_datetime-IsExact n (inr rep) =
    let (same, back) = since_to_datetime-datetime_to_revision n rep in
    ap since_to_datetime (sym same) ∙ back

module _ {R : Type 0} where
  pub filter-none : (q : R → Bool) (rows : List R) → ((r : R) → q r ≡ false) → filter q rows ≡ []
  unfolding filter
  filter-none q [] h = refl
  filter-none q (r ∷ rows) h = rw (h r) (filter-none q rows h)

  -- Of rows that are not later than the cursor none is selected.
  pub filter-late :
      (own : R → Bool) (time : R → ℕ) (n : ℕ) (rows : List R)
      → All (λ r. time r ≤ n) (filter own rows)
      → filter (λ r. own r && ltb n (time r)) rows ≡ []
  unfolding filter
  filter-late own time n [] a = refl
  filter-late own time n (r ∷ rows) a = elim (Bool-cases (own r)) [
    | inr other ↦ rw other (filter-late own time n rows (rw other at a))
    | inl mine ↦
        let both : (time r ≤ n) × All (λ x. time x ≤ n) (filter own rows) = rw mine at a in
        let early : ltb n (time r) ≡ false = ground (arith, both) in
        rw (mine, early) (filter-late own time n rows both.1)
  ]
