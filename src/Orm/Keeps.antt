-- ===== src/Orm/Keeps.antt =====
-- Invariants of actions, one rule for each way to build an action.
use open_key_server.Base.{
  Bool, true, false, Option, none, some, List, [], ◌∷◌, arith, if◌then◌else◌,
}
use open_key_server.Models.{Db}
use open_key_server.Orm.Session.{
  M, Session, Error, Result, ok, err, pure, raise, lift, or_raise, guard, for_each, commit, get_db,
  finish, start, rethrow, ◌>>=◌,
}
use open_key_server.Orm.Tables.{Table, select_first, select_all}

-- The action keeps `P`, of the current and of the committed state, whether it returns or raises.
pub record Keeps {A : Type 0} (P : Db → Type 0) (m : M A) : Type 0 where
  pub at : (s : Session) → P s.current → P s.committed → P (m s).1.current × P (m s).1.committed

of_finish :
    {A : Type 0} (P : Db → Type 0) (r : Result A) (s : Session)
    → P s.current × P s.committed
    → P (finish r s).1
of_finish P (ok a) s k = k.0
of_finish P (err e) s k = k.1

module _ {P : Db → Type 0} {A : Type 0} where
  pub Keeps-pure : (a : A) → Keeps P (pure a)
  Keeps-pure a = record { at = λ s h c. (h, c) }

  pub Keeps-raise : (e : Error) → Keeps P (raise {A = A} e)
  Keeps-raise e = record { at = λ s h c. (h, c) }

  pub Keeps-lift : (r : Result A) → Keeps P (lift r)
  Keeps-lift r = record { at = λ s h c. (h, c) }

  pub Keeps-or_raise : (o : Option A) (e : Error) → Keeps P (or_raise o e)
  Keeps-or_raise none e = Keeps-raise e
  Keeps-or_raise (some a) e = Keeps-pure a

  pub Keeps-if : (b : Bool) (m n : M A) → Keeps P m → Keeps P n → Keeps P (if b then m else n)
  Keeps-if true m n km kn = km
  Keeps-if false m n km kn = kn

  pub Keeps-rethrow : (f : Error → Error) (m : M A) → Keeps P m → Keeps P (rethrow f m)
  Keeps-rethrow f m k = record { at = λ s h c. ground (arith, k.at s h c) }

  -- A request keeps what its endpoint keeps.
  pub Keeps-get_db : (m : M A) (d : Db) → Keeps P m → P d → P (get_db m d).1
  unfolding get_db
  Keeps-get_db m d k h = of_finish P (m (start d)).0 (m (start d)).1 (k.at (start d) h h)

module _ {P : Db → Type 0} where
  pub Keeps-commit : Keeps P commit
  unfolding commit
  Keeps-commit = record { at = λ s h c. (h, h) }

  pub Keeps-guard : (b : Bool) (e : Error) → Keeps P (guard b e)
  Keeps-guard true e = Keeps-pure tt
  Keeps-guard false e = Keeps-raise e

module _ {P : Db → Type 0} {R : Type 0} ⦃t : Table R⦄ where
  pub Keeps-select_first : (p : R → Bool) → Keeps P (select_first p)
  unfolding select_first
  Keeps-select_first p = record { at = λ s h c. (h, c) }

  pub Keeps-select_all : (p : R → Bool) → Keeps P (select_all p)
  unfolding select_all
  Keeps-select_all p = record { at = λ s h c. (h, c) }

module _ {P : Db → Type 0} {A B : Type 0} where
  Keeps-lift-bind :
      (r : Result A) (f : A → M B) → ((a : A) → Keeps P (f a)) → Keeps P (lift r >>= f)
  Keeps-lift-bind (ok a) f kf = kf a
  Keeps-lift-bind (err e) f kf = Keeps-raise e

  pub Keeps-bind :
      (m : M A) (f : A → M B) → Keeps P m → ((a : A) → Keeps P (f a)) → Keeps P (m >>= f)
  Keeps-bind m f km kf = record {
    at =
        λ s h c. let (r, s') = m s in let k = km.at s h c in (Keeps-lift-bind r f kf).at s' k.0 k.1;
  }

  pub Keeps-option :
      (o : Option A) (m : M B) (f : A → M B)
      → Keeps P m
      → ((a : A) → Keeps P (f a))
      → Keeps P (elim o [ none ↦ m | some a ↦ f a ])
  Keeps-option none m f km kf = km
  Keeps-option (some a) m f km kf = kf a

pub Keeps-for_each :
    {P : Db → Type 0} {A : Type 0} (f : A → M (Unit {0})) (xs : List A)
    → ((a : A) → Keeps P (f a))
    → Keeps P (for_each f xs)
Keeps-for_each f [] k = Keeps-pure tt
Keeps-for_each f (x ∷ xs) k = Keeps-bind (f x) _ (k x) (λ _. Keeps-for_each f xs k)

pub ruleset keeps_rules = (
  Keeps-pure, Keeps-raise, Keeps-lift, Keeps-or_raise, Keeps-if, Keeps-rethrow, Keeps-commit,
  Keeps-guard, Keeps-select_first, Keeps-select_all, Keeps-bind, Keeps-option, Keeps-for_each,
)
