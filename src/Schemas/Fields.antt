-- ===== src/Schemas/Fields.antt =====
-- The checks of a body's fields, and the fields of a PATCH body.
use open_key_server.Base.{ℕ, String, Bool, true, false, ◌&&◌, Option, none, some, leb}
use open_key_server.Text.{str_len}
use open_key_server.Schemas.VaultIds.{normalize_folder_id}

-- `Field(min_length=lo, max_length=hi)`
abbrev pub length_within : ℕ → ℕ → String → Bool
length_within lo hi s = leb lo (str_len s) && leb (str_len s) hi

-- `Field(max_length=hi)` on an optional field; a check on a value that is there.
abbrev pub check_optional {ℓ} : {A : Type ℓ} → (A → Bool) → Option A → Bool
check_optional p none = true
check_optional p (some a) = p a

-- A field of a PATCH body: `none` where it was not sent, `some none` where it was sent as null.
abbrev pub Patch : Type 0 → Type 0
Patch A = Option (Option A)

abbrev pub check_patch : {A : Type 0} → (A → Bool) → Patch A → Bool
check_patch p none = true
check_patch p (some v) = check_optional p v

-- What the validator of a `FolderId` makes of a field that was sent.
abbrev pub normalize_patch : Patch String → Patch String
normalize_patch none = none
normalize_patch (some value) = some (normalize_folder_id value)

-- `setattr` for a field that was sent.
abbrev pub set_nullable : {A : Type 0} → Patch A → Option A → Option A
set_nullable none old = old
set_nullable (some value) old = value

-- The same for a NOT NULL column: the flush refuses a null (`is_null`), so none is ever stored.
abbrev pub set_required : {A : Type 0} → Patch A → A → A
set_required none old = old
set_required (some none) old = old
set_required (some (some value)) old = value

abbrev pub is_null : {A : Type 0} → Patch A → Bool
is_null none = false
is_null (some none) = true
is_null (some (some value)) = false
