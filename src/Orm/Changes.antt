-- ===== src/Orm/Changes.antt =====
-- The ways in which an endpoint changes the row at a key, and a field of a row.
use open_key_server.Base.{◌≡◌, refl, Option, none, some, Bool, true, false, ◌||◌, arith}
use open_key_server.Schemas.Fields.{Patch, set_required, set_nullable, is_null}

module _ {R : Type 0} where
  -- Nothing was there, and the new row is as told.
  abbrev pub Creates : (R → Type 0) → Option R → R → Type 0
  Creates IsNew old r = (old ≡ none) × IsNew r

  -- A row that passes the test was there, and the row that is there now is related to it.
  abbrev pub Updates : (R → Bool) → (R → R → Type 0) → Option R → R → Type 0
  Updates test Becomes old r = (x : R) × (old ≡ some x) × (test x ≡ true) × Becomes x r

-- A field that may be null: it holds what was sent, or it is as it was.
abbrev pub Takes : {A : Type 0} → Patch A → Option A → Option A → Type 0
Takes none old new = new ≡ old
Takes (some value) old new = new ≡ value

-- A field that may not: besides, no null was sent.
abbrev pub TakesValue : {A : Type 0} → Patch A → A → A → Type 0
TakesValue none old new = new ≡ old
TakesValue (some none) old new = false ≡ true
TakesValue (some (some value)) old new = new ≡ value

pub set_required-TakesValue :
    {A : Type 0} (sent : Patch A) (old : A)
    → is_null sent ≡ false
    → TakesValue sent old (set_required sent old)
set_required-TakesValue none old h = refl
set_required-TakesValue (some none) old h = cc
set_required-TakesValue (some (some value)) old h = refl

pub set_nullable-Takes :
    {A : Type 0} (sent : Patch A) (old : Option A) → Takes sent old (set_nullable sent old)
set_nullable-Takes none old = refl
set_nullable-Takes (some value) old = refl

pub or_left_none : (a b : Bool) → a || b ≡ false → a ≡ false
or_left_none a b h = ground arith

pub or_right_none : (a b : Bool) → a || b ≡ false → b ≡ false
or_right_none a b h = ground arith
