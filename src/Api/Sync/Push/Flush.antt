-- ===== src/Api/Sync/Push/Flush.antt =====
-- The flush of the rows that a push holds: after it the table has, at each of their uuids, that row.
use open_key_server.Base.{
  ℕ, ◌==◌, nat_eq, string_eq, ==_refl, eq_of_==, eq_iff, String, Bool, true, false, ◌&&◌, Option,
  none, some, List, [], ◌∷◌, any, find, if◌then◌else◌, ◌≡◌, refl, sym, ap, ◌∙◌, subst, inl, inr,
  Bool-cases, find-satisfies, arith, All,
}
use open_key_server.Models.{Db}
use open_key_server.Orm.Session.{
  Session, M, Result, Error, ok, err, for_each, integrity_error, bind-ok, bind-err,
}
use open_key_server.Orm.Tables.{Table, add, save}
use open_key_server.Orm.Integrity.{HasKeys, Constrains, add-Constrains, save-Constrains}
use open_key_server.Orm.Keeps.{Keeps}
use open_key_server.Orm.Effects.{
  Keyed, Puts, Flushed, refused, stored, row_at, add-Flushed, save-Flushed,
}
use open_key_server.Api.Sync.Response.{IsDistinct, is_seen}
use open_key_server.Api.Sync.Push.{Tracked, Pushing, get, flush_row}
use open_key_server.Api.Sync.Push.Held.{uuid_in}
use open_key_server.Api.Sync.Push.Loop.{IsSound, Was-cong}

find-none : {A : Type 0} (q : A → Bool) (xs : List A) → any q xs ≡ false → find q xs ≡ none
unfolding any find
find-none q [] h = refl
find-none q (x ∷ xs) h = ground (arith, find-none q xs)

own_keys : {R : Type 0} (t : Table R) → Constrains t (HasKeys t)
own_keys t = record { keys = λ d k. k; rekeyed = λ xs d h k. rw t.rows-with_rows k }

module _ {R Item : Type 0} {t : Table R} (k : Keyed t (ℕ × String)) (p : Pushing R Item)
    (user_id : ℕ) where
  abbrev pub KeyedBy : Type 0
  KeyedBy = (j : ℕ × String) (r : R) → k.hits j r ≡ (p.user_of r == j.0 && p.uuid r == j.1)

  -- The user's rows of the table.
  abbrev pub old_of : Db → String → Option R
  old_of d u = row_at k (user_id, u) d

  -- What the flush makes of the row at a key.
  abbrev pub flushed_at : List (Tracked R) → ℕ × String → Option R → Option R
  flushed_at xs j old =
      if user_id == j.0 then elim (get p j.1 xs) [ none ↦ old | some x ↦ some x.row ] else old

  -- The outcome: an exception, or the rows are where they belong and nothing else has changed.
  pub data Flushes (xs : List (Tracked R)) (s : Session) (o : Result (Unit {0}) × Session)
      : Type 0 where
    fails :
        (e : Error) (s' : Session) → o ≡ (err e, s') → s'.committed ≡ s.committed → Flushes xs s o
    fills :
        (d : Db)
        → o ≡ (ok tt, record s { current = d })
        → ((j : ℕ × String) → row_at k j d ≡ flushed_at xs j (row_at k j s.current))
        → d ≡ t.with_rows (t.rows d) s.current
        → HasKeys t d
        → Flushes xs s o

  module _ (keyed : KeyedBy) where
    nothing-at :
        (s : Session) (j : ℕ × String)
        → row_at k j s.current ≡ flushed_at [] j (row_at k j s.current)
    unfolding find
    nothing-at s j = ground arith

    put-at :
        (x : Tracked R) (d d' : Db)
        → p.user_of x.row ≡ user_id
        → Puts k x.row d d'
        → (j : ℕ × String) → row_at k j d' ≡ flushed_at (x ∷ []) j (row_at k j d)
    unfolding find
    put-at x d d' own q j = q.at j ∙ rw (keyed j x.row, own) (ground arith)

    module _ (x : Tracked R) (s : Session) (own : p.user_of x.row ≡ user_id) where
      of_Flushed :
          (m : M (Unit {0}))
          → Keeps (HasKeys t) m
          → HasKeys t s.current
          → HasKeys t s.committed
          → Flushed k x.row s (m s)
          → Flushes (x ∷ []) s (m s)
      of_Flushed m keeps h c (refused e) = fails integrity_error s e refl
      of_Flushed m keeps h c (stored d e q) =
          fills d e (put-at x s.current d own q) q.rest
            (subst (λ o. HasKeys t o.1.current) e (keeps.at s h c).0)

      -- A row that nothing was assigned to is there already.
      skip-at :
          old_of s.current (p.uuid x.row) ≡ some x.row
          → (j : ℕ × String) → row_at k j s.current ≡ flushed_at (x ∷ []) j (row_at k j s.current)
      unfolding find
      skip-at e (i, u) = elim (Bool-cases (user_id == i)) [
        | inr other ↦ rw other refl
        | inl mine ↦ elim (Bool-cases (p.uuid x.row == u)) [
          | inr other ↦ rw (mine, other) refl
          | inl same ↦
              rw (mine, same)
                (subst (λ v. row_at k (v, u) s.current ≡ some x.row) (eq_of_== user_id i mine)
                  (subst (λ v. old_of s.current v ≡ some x.row) (eq_of_== (p.uuid x.row) u same) e))
        ]
      ]

    -- A row found under the key of another one that is the user's has all keys in common with it.
    same_hits :
        (x r : R) (s : Session)
        → p.user_of r ≡ user_id
        → old_of s.current (p.uuid r) ≡ some x
        → (j : ℕ × String) → k.hits j x ≡ k.hits j r
    same_hits x r s own found j =
        let hit =
          sym (keyed (user_id, p.uuid r) x)
          ∙ find-satisfies (k.hits (user_id, p.uuid r)) (t.rows s.current) x found in
        let owner : p.user_of x ≡ user_id = ground arith in
        let name : p.uuid x ≡ p.uuid r = eq_of_== (p.uuid x) (p.uuid r) (ground arith) in
        keyed j x ∙ rw (owner, name, ← own) refl ∙ sym (keyed j r)

    row-Flushes :
        (n dirty : Bool) (r : R) (s : Session)
        → HasKeys t s.current
        → HasKeys t s.committed
        → (let x : Tracked R = record { row = r; is_new = n; is_dirty = dirty } in
            IsSound ⦃t = t⦄ p user_id (old_of s.current) x
            → Flushes (x ∷ []) s (flush_row ⦃t = t⦄ p x s))
    unfolding flush_row
    row-Flushes true dirty r s h c a =
        of_Flushed (record { row = r; is_new = true; is_dirty = dirty }) s a.0 (add ⦃t = t⦄ r)
          (add-Constrains ⦃t = t⦄ (own_keys t) r) h c (add-Flushed k r s h)
    row-Flushes false true r s h c (own, (x, found, is_x, _)) =
        of_Flushed (record { row = r; is_new = false; is_dirty = true }) s own (save ⦃t = t⦄ r)
          (save-Constrains ⦃t = t⦄ (own_keys t) r) h c
          (save-Flushed k (k.hits (user_id, p.uuid r)) x r s h found is_x
            (same_hits x r s own found))
    row-Flushes false false r s h c (own, (x, found, _, clean)) =
        let same : r ≡ x = clean refl in
        fills s.current refl
          (skip-at (record { row = r; is_new = false; is_dirty = false }) s own
            (found ∙ ap {B = Option R} some (sym same)))
          (sym (t.with_rows-rows s.current)) h

    flush_row-Flushes :
        (x : Tracked R) (s : Session)
        → HasKeys t s.current
        → HasKeys t s.committed
        → IsSound ⦃t = t⦄ p user_id (old_of s.current) x
        → Flushes (x ∷ []) s (flush_row ⦃t = t⦄ p x s)
    flush_row-Flushes x = row-Flushes x.is_new x.is_dirty x.row

    flushed_at-cons :
        (x : Tracked R) (xs : List (Tracked R)) (j : ℕ × String) (old : Option R)
        → is_seen (uuid_in p) (p.uuid x.row) xs ≡ false
        → flushed_at xs j (flushed_at (x ∷ []) j old) ≡ flushed_at (x ∷ xs) j old
    unfolding find
    flushed_at-cons x xs (i, u) old fresh = elim (Bool-cases (user_id == i)) [
      | inr other ↦ rw other refl
      | inl mine ↦ elim (Bool-cases (p.uuid x.row == u)) [
        | inr other ↦
            let head : flushed_at (x ∷ []) (i, u) old ≡ old = rw (mine, other) refl in
            let whole : flushed_at (x ∷ xs) (i, u) old ≡ flushed_at xs (i, u) old =
              rw (mine, other) refl in
            ap (flushed_at xs (i, u)) head ∙ sym whole
        | inl same ↦
            let gone : get p u xs ≡ none = find-none _ xs (
              subst (λ v. is_seen (uuid_in p) v xs ≡ false) (eq_of_== (p.uuid x.row) u same)
                fresh) in
            let tail : (o : Option R) → flushed_at xs (i, u) o ≡ o = λ o. rw (mine, gone) refl in
            let head : flushed_at (x ∷ []) (i, u) old ≡ some x.row = rw (mine, same) refl in
            let whole : flushed_at (x ∷ xs) (i, u) old ≡ some x.row = rw (mine, same) refl in
            tail (flushed_at (x ∷ []) (i, u) old) ∙ head ∙ sym whole
      ]
    ]

    -- What is put at one uuid leaves the rows at the others as sound as they were.
    module _ (x : Tracked R) (s : Session) (d : Db)
        (at : (j : ℕ × String) → row_at k j d ≡ flushed_at (x ∷ []) j (row_at k j s.current)) where
      same_old : (u : String) → (p.uuid x.row == u) ≡ false → old_of s.current u ≡ old_of d u
      unfolding find
      same_old u other = sym (at (user_id, u) ∙ rw (==_refl user_id, other) refl)

      still-IsSound :
          (ys : List (Tracked R))
          → is_seen (uuid_in p) (p.uuid x.row) ys ≡ false
          → All (IsSound ⦃t = t⦄ p user_id (old_of s.current)) ys
          → All (IsSound ⦃t = t⦄ p user_id (old_of d)) ys
      unfolding any
      still-IsSound [] fresh a = tt
      still-IsSound (y ∷ ys) fresh a = (
        (
          a.0.0,
          Was-cong ⦃t = t⦄ p user_id (old_of s.current) (old_of d) y.is_new y.is_dirty y.row
              (same_old (p.uuid y.row) (
                ground (
                  arith,
                  fresh,
                  eq_iff (p.uuid x.row) (p.uuid y.row),
                  eq_iff (p.uuid y.row) (p.uuid x.row),
                )))
              a.0.1,
        ),
        still-IsSound ys (ground (arith, fresh)) a.1,
      )

    -- All rows, one after the other.
    pub flush-Flushes :
        (xs : List (Tracked R)) (s : Session)
        → HasKeys t s.current
        → HasKeys t s.committed
        → All (IsSound ⦃t = t⦄ p user_id (old_of s.current)) xs
        → IsDistinct (uuid_in p) xs
        → Flushes xs s (for_each (flush_row ⦃t = t⦄ p) xs s)
    flush-Flushes [] s h c a d =
        fills s.current refl (nothing-at s) (sym (t.with_rows-rows s.current)) h
    flush-Flushes (x ∷ xs) s h c a d = elim (flush_row-Flushes x s h c a.0) [
      | fails e s' o same ↦
          fails e s' (bind-err (flush_row ⦃t = t⦄ p x) (λ _. for_each (flush_row ⦃t = t⦄ p) xs) o)
            same
      | fills d₁ o at rest keys ↦
          let s₁ : Session = record s { current = d₁ } in
          let go_on = bind-ok (flush_row ⦃t = t⦄ p x) (λ _. for_each (flush_row ⦃t = t⦄ p) xs) o in
          elim (flush-Flushes xs s₁ keys c (still-IsSound x s d₁ at xs d.0 a.1) d.1) [
            | fails e s' o₂ same ↦ fails e s' (go_on ∙ o₂) same
            | fills d₂ o₂ at₂ rest₂ keys₂ ↦
                fills d₂ (go_on ∙ o₂)
                  (λ j.
                    at₂ j
                    ∙ ap (flushed_at xs j) (at j)
                    ∙ flushed_at-cons x xs j (row_at k j s.current) d.0)
                  (rest₂
                    ∙ ap (t.with_rows (t.rows d₂)) rest
                    ∙ t.with_rows-with_rows (t.rows d₂) (t.rows d₁) s.current)
                  keys₂
          ]
    ]
