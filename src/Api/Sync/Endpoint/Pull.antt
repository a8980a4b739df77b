-- ===== src/Api/Sync/Endpoint/Pull.antt =====
-- What a pull answers.
use open_key_server.Base.{
  ℕ, ◌==◌, nat_eq, string_eq, String, Bool, true, ◌&&◌, Option, some, List, [], ◌∷◌, ◌++◌, find,
  filter, ◌≡◌, sym, ap, ◌∙◌, inl, inr, Bool-cases, arith, All, All-mono, ltb,
}
use open_key_server.Models.{Db}
use open_key_server.Orm.Tables.{Table}
use open_key_server.Orm.Integrity.{HasKeys}
use open_key_server.Orm.Effects.{Keyed, row_at}
use open_key_server.Api.Sync.Response.{
  IsDistinct, is_seen, merge_by_uuid, merge_by_uuid-IsDistinct, merge_by_uuid-extends,
}
use open_key_server.Api.Sync.Push.{Pushing}
use open_key_server.Api.Sync.Push.Flush.{KeyedBy}
use open_key_server.Api.Sync.Push.Prefetch.{filter-IsDistinct, find-own}

module _ {R : Type 0} (P : R → Type 0) where
  All-append : (xs ys : List R) → All P xs → All P ys → All P (xs ++ ys)
  All-append [] ys a b = b
  All-append (x ∷ xs) ys a b = (a.0, All-append xs ys a.1 b)

  All-filter : (q : R → Bool) (xs : List R) → All (λ r. q r ≡ true → P r) xs → All P (filter q xs)
  unfolding filter
  All-filter q [] a = tt
  All-filter q (x ∷ xs) a = elim (Bool-cases (q x)) [
    | inl hit ↦ rw hit (a.0 hit, All-filter q xs a.1)
    | inr miss ↦ rw miss (All-filter q xs a.1)
  ]

  All-merge_by_uuid :
      (uuid : R → String) (out extras : List R)
      → All P out
      → All P extras
      → All P (merge_by_uuid uuid out extras)
  unfolding merge_by_uuid
  All-merge_by_uuid uuid out [] a b = a
  All-merge_by_uuid uuid out (row ∷ extras) a b = elim (Bool-cases (is_seen uuid (uuid row) out)) [
    | inl old ↦ rw old (All-merge_by_uuid uuid out extras a b.1)
    | inr new ↦ rw new (
        All-merge_by_uuid uuid (out ++ row ∷ []) extras (All-append out (row ∷ []) a (b.0, tt)) b.1)
  ]

find-append_some :
    {A : Type 0} (q : A → Bool) (xs ys : List A) (x : A)
    → find q xs ≡ some x
    → find q (xs ++ ys) ≡ some x
unfolding find
find-append_some q [] ys x h = cc
find-append_some q (y ∷ xs) ys x h = ground (arith, find-append_some q xs ys x)

module _ {R Item : Type 0} {t : Table R} (k : Keyed t (ℕ × String)) (p : Pushing R Item)
    (user_id : ℕ) (keyed : KeyedBy k p user_id) (since : ℕ) where
  abbrev pub is_changed : R → Bool
  is_changed r = p.user_of r == user_id && ltb since (p.updated_at r)

  -- The answer holds stored rows of the user's, one for each uuid, and every one that was changed after
  -- the cursor.
  pub record Answers (d : Db) (rows : List R) : Type 0 where
    pub stored : All (λ r. row_at k (user_id, p.uuid r) d ≡ some r) rows
    pub distinct : IsDistinct p.uuid rows
    pub complete :
        (u : String) (r : R)
        → row_at k (user_id, u) d ≡ some r
        → ltb since (p.updated_at r) ≡ true
        → find (λ x. p.uuid x == u) rows ≡ some r

  find-changed :
      (u : String) (r : R) (rows : List R)
      → find (k.hits (user_id, u)) rows ≡ some r
      → ltb since (p.updated_at r) ≡ true
      → find (λ x. p.uuid x == u) (filter is_changed rows) ≡ some r
  unfolding find filter
  find-changed u r [] e h = cc
  find-changed u r (x ∷ rows) e h = elim (Bool-cases (k.hits (user_id, u) x)) [
    | inl hit ↦
        let both = sym (keyed (user_id, u) x) ∙ hit in
        let same : x ≡ r = ground (arith, e, hit) in
        let changed : is_changed x ≡ true = rw same (ground (arith, h, both, same)) in
        let named : (p.uuid x == u) ≡ true = ground (arith, both) in
        rw changed (rw named (ap {B = Option R} some same))
    | inr miss ↦
        let later = find-changed u r rows (ground (arith, e, miss)) h in
        let apart = sym (keyed (user_id, u) x) ∙ miss in ground (arith, later, apart)
  ]

  pub pulled-Answers :
      (d : Db) (ws : List R)
      → HasKeys t d
      → All (λ r. row_at k (user_id, p.uuid r) d ≡ some r) ws
      → Answers d (merge_by_uuid p.uuid (filter is_changed (t.rows d)) ws)
  pulled-Answers d ws h w =
      let rows = filter is_changed (t.rows d) in
      record {
        stored =
            All-merge_by_uuid (λ r. row_at k (user_id, p.uuid r) d ≡ some r) p.uuid rows ws
              (All-filter _ is_changed (t.rows d) (
                All-mono _ _ (t.rows d) (λ r found hit. found (ground (arith, hit)))
                  (find-own k p user_id keyed (t.rows d) h)))
              w;
        distinct = merge_by_uuid-IsDistinct p.uuid rows ws (
            filter-IsDistinct k p user_id keyed is_changed (λ r hit. ground (arith, hit)) (t.rows d)
              h);
        complete = λ u r there new.
            let (rest, e) = merge_by_uuid-extends p.uuid rows ws in
            rw e (
              find-append_some (λ x. p.uuid x == u) rows rest r
                (find-changed u r (t.rows d) there new));
      }
