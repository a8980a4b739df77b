-- ===== src/Orm/Session.antt =====
-- app/db/session.py: a request's session. An action reads and writes the current state; what was
-- written stays written when it raises, until `get_db` rolls back to the last commit.
use open_key_server.Base.{
  ℕ, String, ◌≡◌, refl, ap, ◌∙◌, ◌⊎◌, inl, inr, Bool, true, false, Option, none, some, List, [],
  ◌∷◌,
}
use open_key_server.Models.{Db}

-- The exceptions that the program raises or turns into responses. `integrity_error` is the
-- database's refusal of a flush (a constraint, a missing value, a number out of range).
pub data Error : Type 0 where
  http : ℕ → String → Error
  value_error permission_error lookup_error invalid_token : String → Error
  integrity_error : Error

pub data Result {ℓ} (A : Type ℓ) : Type ℓ where
  ok : A → Result A
  err : Error → Result A

pub record Session : Type 0 where
  pub current : Db
  pub committed : Db

abbrev pub M : Type 0 → Type 0
M A = Session → Result A × Session

module _ {A : Type 0} where
  abbrev pub pure : A → M A
  pure a s = (ok a, s)

  abbrev pub raise : Error → M A
  raise e s = (err e, s)

  abbrev pub lift : Result A → M A
  lift r s = (r, s)

  abbrev pub or_raise : Option A → Error → M A
  or_raise none e = raise e
  or_raise (some a) e = pure a

-- `try: … except E as exc: raise HTTPException(…) from exc`, given what each exception becomes.
abbrev pub rethrow : {A : Type 0} → (Error → Error) → M A → M A
rethrow f m s = let (r, s') = m s in elim r [ ok a ↦ (ok a, s') | err e ↦ (err (f e), s') ]

infixl 5 ◌>>=◌ ◌>>◌
abbrev pub ◌>>=◌ : {A B : Type 0} → M A → (A → M B) → M B
◌>>=◌ m f s = let (r, s') = m s in elim r [ ok a ↦ f a s' | err e ↦ (err e, s') ]

abbrev pub ◌>>◌ : {A B : Type 0} → M A → M B → M B
m >> k = m >>= λ _. k

-- Raise unless the test passes.
abbrev pub guard : Bool → Error → M (Unit {0})
guard true e = pure tt
guard false e = raise e

-- `for x in xs: …`
abbrev pub for_each : {A : Type 0} → (A → M (Unit {0})) → List A → M (Unit {0})
for_each f [] = pure tt
for_each f (x ∷ xs) = f x >> for_each f xs

-- `session.commit()`
unfoldable pub commit : M (Unit {0})
commit s = (ok tt, record s { committed = s.current })

abbrev pub finish : {A : Type 0} → Result A → Session → Result A × Db
finish (ok a) s = (ok a, s.current)
finish (err e) s = (err e, s.committed)

abbrev pub start : Db → Session
start d = record { current = d; committed = d }

-- `get_db` around an endpoint: commit at the end, or roll back and raise again.
unfoldable pub get_db : {A : Type 0} → M A → Db → Result A × Db
get_db m d = finish (m (start d)).0 (m (start d)).1

-- One step of a `do` block, given what its action does.
abbrev resume : {A B : Type 0} → (A → M B) → Result A × Session → Result B × Session
resume f o = elim o.0 [ ok a ↦ f a o.1 | err e ↦ (err e, o.1) ]

module _ {A B : Type 0} (m : M A) (f : A → M B) {s s' : Session} where
  pub bind-ok : {a : A} → m s ≡ (ok a, s') → (m >>= f) s ≡ f a s'
  bind-ok e = ap (resume f) e

  pub bind-err : {e : Error} → m s ≡ (err e, s') → (m >>= f) s ≡ (err e, s')
  bind-err e = ap (resume f) e

pub Result-cases :
    {A : Type 0} (r : Result A) → ((e : Error) × (r ≡ err e)) ⊎ ((a : A) × (r ≡ ok a))
Result-cases (ok a) = inr (a, refl)
Result-cases (err e) = inl (e, refl)

abbrev settle : {A : Type 0} → (Error → Error) → Result A × Session → Result A × Db
settle {A} f o =
    let r : Result A × Session = elim o.0 [ ok a ↦ (ok a, o.1) | err e ↦ (err (f e), o.1) ] in
    finish r.0 r.1

-- A request whose action is wrapped in `try`, given what the action does.
module _ {A : Type 0} (f : Error → Error) (m : M A) (d : Db) {s : Session} where
  pub rethrow-ok : {a : A} → m (start d) ≡ (ok a, s) → get_db (rethrow f m) d ≡ (ok a, s.current)
  unfolding get_db
  rethrow-ok e = ap (settle f) e

  pub rethrow-err :
      {e : Error} → m (start d) ≡ (err e, s) → get_db (rethrow f m) d ≡ (err (f e), s.committed)
  unfolding get_db
  rethrow-err e = ap (settle f) e

abbrev settle_with : {A B : Type 0} → (Error → Error) → (A → B) → Result A × Session → Result B × Db
settle_with {A} {B} f g o =
    let r : Result B × Session = elim o.0 [ ok a ↦ (ok (g a), o.1) | err e ↦ (err (f e), o.1) ] in
    finish r.0 r.1

-- The same where the endpoint makes its response of what the action returns.
module _ {A B : Type 0} (f : Error → Error) (g : A → B) (m : M A) (d : Db) where
  abbrev respond : M B
  respond = rethrow f m >>= λ a. pure (g a)

  respond-eq : get_db respond d ≡ settle_with f g (m (start d))
  unfolding get_db
  respond-eq = split (m (start d)).0 (m (start d)).1
    where
      split :
          (r : Result A) (s : Session)
          → (let o : Result A × Session = elim r [ ok a ↦ (ok a, s) | err e ↦ (err (f e), s) ] in
              let o' : Result B × Session = elim o.0 [
                | ok a ↦ (ok (g a), o.1)
                | err e ↦ (err e, o.1)
              ] in
              finish o'.0 o'.1)
            ≡ settle_with f g (r, s)
      split (ok a) s = refl
      split (err e) s = refl

  pub respond-ok :
      {s : Session} {a : A} → m (start d) ≡ (ok a, s) → get_db respond d ≡ (ok (g a), s.current)
  respond-ok e = respond-eq ∙ ap (settle_with f g) e

  pub respond-err :
      {s : Session} {e : Error}
      → m (start d) ≡ (err e, s)
      → get_db respond d ≡ (err (f e), s.committed)
  respond-err e = respond-eq ∙ ap (settle_with f g) e
