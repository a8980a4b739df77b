-- ===== src/Orm/Outcomes.antt =====
-- What a request comes to, read off its endpoint step by step. `W` is a property of the outcome that
-- holds if the request raises before it has written anything.
use open_key_server.Base.{
  ◌≡◌, refl, sym, ap, subst, ◌∙◌, Bool, true, false, Option, none, some, find, inl, inr,
  Option-cases, Bool-cases, any, find-satisfies, arith,
}
use open_key_server.Models.{Db}
use open_key_server.Orm.Rows
use open_key_server.Orm.Lookup
use open_key_server.Orm.Session.{
  Session, Error, Result, M, ok, err, pure, guard, or_raise, get_db, start, finish, ◌>>=◌, ◌>>◌,
  bind-ok, bind-err,
}
use open_key_server.Orm.Tables.{Table, select_first, add, save}
use open_key_server.Orm.Integrity.{HasKeys}
use open_key_server.Orm.Effects.{
  Keyed, Puts, Flushed, row_at, refused, stored, add-Flushed, save-Flushed,
}

abbrev run : {A : Type 0} → Result A × Session → Result A × Db
run o = finish o.0 o.1

pub get_db-run :
    {A : Type 0} (m : M A) (d : Db) {o : Result A × Session}
    → m (start d) ≡ o
    → get_db m d ≡ finish o.0 o.1
unfolding get_db
get_db-run m d e = ap run e

-- An action that only reads.
pub record IsReading {A : Type 0} (m : M A) : Type 0 where
  pub same : (s : Session) → (m s).1 ≡ s

module _ {A : Type 0} (W : Result A × Db → Type 0) (d : Db)
    (raises : (e : Error) → W (err e, d)) where
  pub guard-then :
      (b : Bool) (e : Error) (m : M A) → (b ≡ true → W (get_db m d)) → W (get_db (guard b e >> m) d)
  unfolding get_db
  guard-then true e m h = h refl
  guard-then false e m h = raises e

  module _ {B : Type 0} where
    pub or_raise-then :
        (o : Option B) (e : Error) (f : B → M A)
        → ((b : B) → o ≡ some b → W (get_db (f b) d))
        → W (get_db (or_raise o e >>= f) d)
    unfolding get_db
    or_raise-then none e f h = raises e
    or_raise-then (some b) e f h = h b refl

    -- An action that only reads returns or raises.
    pub reading-then :
        (m : M B) (f : B → M A) (r : Result B)
        → m (start d) ≡ (r, start d)
        → ((b : B) → r ≡ ok b → W (get_db (f b) d))
        → W (get_db (m >>= f) d)
    reading-then m f (ok b) e h =
        subst W (sym (get_db-run (m >>= f) d (bind-ok m f e)))
          (subst W (get_db-run (f b) d refl) (h b refl))
    reading-then m f (err x) e h =
        subst W (sym (get_db-run (m >>= f) d (bind-err m f e))) (raises x)

  pub select-then :
      {R : Type 0} ⦃t : Table R⦄ (p : R → Bool) (f : Option R → M A)
      → W (get_db (f (find p (t.rows d))) d)
      → W (get_db (select_first p >>= f) d)
  unfolding get_db select_first
  select-then p f h = h

abbrev failed : {A : Type 0} → Result A → Bool
failed (ok a) = false
failed (err e) = true

-- A row that was stored was new.
module _ {R K : Type 0} {t : Table R} (k : Keyed t K) where
  pub add-fresh :
      (r : R) (j : K) (s s' : Session)
      → k.hits j r ≡ true
      → add ⦃t = t⦄ r s ≡ (ok tt, s')
      → row_at k j s.current ≡ none
  unfolding add
  add-fresh r j s s' h e = elim (Option-cases (find (k.hits j) (t.rows s.current))) [
    | inl none_there ↦ none_there
    | inr (x, there) ↦ elim (Bool-cases (any (t.clash r) (t.rows s.current))) [
      | inl refuse ↦ let bad = ap (λ o. failed o.0) (rw refuse at e) in ground arith
      | inr free ↦
          let no_clash =
            Rows.any-find t.id t.clash (t.clash r) (k.hits j) (t.rows s.current) x free there in
          let clash =
            k.clash_of_hits j r x h (find-satisfies (k.hits j) (t.rows s.current) x there) in
          ground arith
    ]
  ]

  -- A relation between what was at each key and what is there afterwards, over a request that ends
  -- by writing one row.
  module _ (S : Option R → Option R → Type 0) (stays : (o : Option R) → S o o) where
    put-relates :
        (r : R) (d d' : Db)
        → ((j : K) → k.hits j r ≡ true → S (row_at k j d) (some r))
        → Puts k r d d'
        → (i : K) → S (row_at k i d) (row_at k i d')
    put-relates r d d' h p i = elim (Bool-cases (k.hits i r)) [
      | inl hit ↦ subst (λ o. S (row_at k i d) o) (sym (p.at i ∙ rw hit refl)) (h i hit)
      | inr other ↦
          subst (λ o. S (row_at k i d) o) (sym (p.at i ∙ rw other refl)) (stays (row_at k i d))
    ]

    module _ {A : Type 0} (v : A) (r : R) where
      abbrev reply : Unit {0} → M A
      reply _ = pure v

      written-relates :
          (m : M (Unit {0})) (s : Session)
          → Flushed k r s (m s)
          → ((s' : Session)
              → m s ≡ (ok tt, s')
              → (j : K) → k.hits j r ≡ true
              → S (row_at k j s.current) (some r))
          → (i : K) → (row_at k i s.committed ≡ row_at k i s.current)
          → S (row_at k i s.current) (row_at k i (run ((m >>= reply) s)).1)
      written-relates m s (refused e) h i c =
          subst (λ o. S (row_at k i s.current) (row_at k i (run o).1)) (sym (bind-err m reply e))
            (subst (λ o. S (row_at k i s.current) o) (sym c) (stays (row_at k i s.current)))
      written-relates m s (stored d₁ e p) h i c =
          subst (λ o. S (row_at k i s.current) (row_at k i (run o).1)) (sym (bind-ok m reply e))
            (put-relates r s.current d₁ (h _ e) p i)

      -- A row is added, which must be new, and the request ends.
      pub add-relates :
          (s : Session)
          → HasKeys t s.current
          → S none (some r)
          → (i : K) → row_at k i s.committed ≡ row_at k i s.current
          → S (row_at k i s.current) (row_at k i (run ((add ⦃t = t⦄ r >>= reply) s)).1)
      add-relates s keys h i c =
          written-relates (add ⦃t = t⦄ r) s (add-Flushed k r s keys)
            (λ s' e j hit. subst (λ o. S o (some r)) (sym (add-fresh r j s s' hit e)) h) i c

      -- A row is overwritten, and the request ends.
      pub save-relates :
          (p : R → Bool) (x : R) (s : Session)
          → HasKeys t s.current
          → find p (t.rows s.current) ≡ some x
          → t.id x ≡ t.id r
          → ((j : K) → k.hits j x ≡ k.hits j r)
          → S (some x) (some r)
          → (i : K) → row_at k i s.committed ≡ row_at k i s.current
          → S (row_at k i s.current) (row_at k i (run ((save ⦃t = t⦄ r >>= reply) s)).1)
      save-relates p x s keys f e h c i same =
          written-relates (save ⦃t = t⦄ r) s (save-Flushed k p x r s keys f e h)
            (λ s' _ j hit.
              subst (λ o. S o (some r))
                (sym (
                  Lookup.find-hits t.id t.clash k.hits t.clash_of_id t.clash_comm k.clash_of_hits j
                    p x (t.rows s.current) keys f (h j ∙ hit)))
                c)
            i same
