-- ===== src/Api/Attachments/Effects.antt =====
-- What each request of app/api/attachments.py does to the attachments.
use open_key_server.Base.{
  ◌<◌, ◌⊎◌, ◌≢◌, none, sym, ◌&&◌, String, nat_eq, ℕ, String, ◌≡◌, refl, Option, some, Bool, true,
  false, not, ◌+◌, ◌*◌, ◌≤◌, ap, ◌∙◌, length, ◌==◌, nat_eq, inl, inr, Option-cases, Bool-cases,
  arith, find, find-satisfies, ==_refl, string_eq,
}
use open_key_server.Models.{Db}
use open_key_server.Models.Account.{User}
use open_key_server.Models.Vault.{Attachment}
use open_key_server.Orm.Session.{Error, http, Result-cases, get_db}
use open_key_server.Orm.Tables.{select_first}
use open_key_server.Orm.Integrity.{IsConsistent}
use open_key_server.Orm.Keys.{attachment_key}
use open_key_server.Orm.Changes.{Creates, Updates}
use open_key_server.Orm.Effects.{Writes, add-Writes, save-Writes}
use open_key_server.Schemas.Attachments.{max_attachment_bytes}
use open_key_server.Api.Request.{Env}
use open_key_server.Api.Attachments.Transfer.{too_large, read_upload_bounded}
use open_key_server.Api.Attachments.Uploads.{
  read_upload_bounded-refused, received, read_upload_bounded-received,
}
use open_key_server.Api.Attachments.{
  Upload, create_attachment, delete_attachment, owns, owns_live, deleted, new_attachment,
}

abbrev pub is_live : Attachment → Bool
is_live c = not c.is_deleted

owns_of_live :
    (u : ℕ) (uuid : String) (c : Attachment) → owns_live u uuid c ≡ true → owns u uuid c ≡ true
owns_of_live u uuid c h = ground arith

live_of_live :
    (u : ℕ) (uuid : String) (c : Attachment) → owns_live u uuid c ≡ true → is_live c ≡ true
live_of_live u uuid c h = ground arith

-- The row that an upload stores: what the form says, with the bytes of its file.
abbrev pub IsUploaded : Env → User → Upload → Attachment → Type 0
IsUploaded env user form a =
    (a.user_id ≡ user.id)
    × (a.uuid ≡ form.uuid)
    × (a.entry_uuid ≡ form.entry_uuid)
    × (a.filename ≡ form.filename)
    × (a.size_bytes ≡ form.size_bytes)
    × (a.encrypted_blob ≡ received form.reads)
    × (a.revision ≡ form.revision)
    × (a.is_deleted ≡ false)
    × (a.created_at ≡ env.db_now)
    × (a.updated_at ≡ env.db_now)

-- The file has as many bytes as the form announces, and 20 MiB at most.
abbrev pub CreatesUploaded : Env → User → Upload → Option Attachment → Attachment → Type 0
CreatesUploaded env user form old a =
    Creates (IsUploaded env user form) old a
    × (length (received form.reads) ≤ 20 * 1024 * 1024)
    × (form.size_bytes ≡ length (received form.reads))

-- Deleted rows stay, for the clients that have not seen the deletion yet.
abbrev pub IsTombstone : ℕ → Attachment → Attachment → Type 0
IsTombstone now old a =
    (a ≡ record old { is_deleted = true; revision = old.revision + 1; updated_at = now })

-- The user has no live attachment of that uuid: 404.
abbrev pub NotFound : ℕ → String → Db → Error → Type 0
NotFound u uuid d e =
    (e ≡ http 404 "Attachment not found")
    × (find (λ c. (c.user_id == u && c.uuid == uuid) && not c.is_deleted) d.attachments ≡ none)

-- The uuid is taken (409), or the file has more than 20 MiB (413) or not as many bytes as the form
-- announces (400).
abbrev pub DeniesUpload : ℕ → Upload → Db → Error → Type 0
DeniesUpload u form d e =
    ((e ≡ http 409 "Attachment with this uuid already exists")
      × ((c : Attachment) × (find (λ c. c.user_id == u && c.uuid == form.uuid) d.attachments
            ≡ some c)))
    ⊎ (((text : String) × (e ≡ http 413 text)) × (20 * 1024 * 1024 < length (received form.reads)))
    ⊎ ((e ≡ http 400 "size_bytes does not match uploaded file length")
        × (form.size_bytes ≢ length (received form.reads)))

module _ (env : Env) (user : User) (d : Db) (k : IsConsistent d) where
  -- An upload changes nothing and raises, only with 409 if the user has the uuid already, 413 for
  -- more than 20 MiB, 400 for another number of bytes than announced, or because the database
  -- refuses the row, or stores at the user's free uuid, and nowhere else, a live row with the
  -- form's uuid, entry, file name and revision and exactly the bytes that were uploaded, which
  -- are as many as the form announces and 20 MiB at most. The database is assumed to meet its
  -- unique constraints before the request.
  pub create_attachment-Writes :
      (form : Upload)
      → Writes attachment_key
          (user.id, form.uuid)
          (DeniesUpload user.id form d)
          (CreatesUploaded env user form)
          (λ c. c)
          d
          (get_db (create_attachment env user form) d)
  unfolding create_attachment get_db select_first
  create_attachment-Writes form =
      elim (Option-cases (find (owns user.id form.uuid) d.attachments)) [
        | inr (c, e) ↦ rw e (refl, inr (inl (refl, (c, e))))
        | inl e ↦ elim (Result-cases (read_upload_bounded max_attachment_bytes form.reads)) [
          | inl (f, r) ↦
              let over = read_upload_bounded-refused max_attachment_bytes form.reads f r in
              rw (e, r) (refl, inr (inr (inl ((too_large max_attachment_bytes, over.0), over.1))))
          | inr (blob, r) ↦ elim (Bool-cases (form.size_bytes == length blob)) [
            | inr mismatch ↦
                let took = read_upload_bounded-received max_attachment_bytes form.reads blob r in
                let other : form.size_bytes ≢ length blob = λ e. ground arith in
                rw (e, r, mismatch)
                  (refl, inr (inr (inr (refl, λ q. other (q ∙ sym (ap length took.0))))))
            | inl same ↦
                let took = read_upload_bounded-received max_attachment_bytes form.reads blob r in
                let sized : form.size_bytes ≡ length blob = ground arith in
                rw (e, r, same)
                  (add-Writes attachment_key _ (DeniesUpload user.id form d)
                    (CreatesUploaded env user form) (λ c. c) (new_attachment env user form blob) d
                    k.attachments_keys (ground (arith, ==_refl form.uuid))
                    (
                      (e, (refl, refl, refl, refl, refl, took.0, refl, refl, refl, refl)),
                      took.1,
                      sized ∙ ap length took.0,
                    ))
          ]
        ]
      ]

  module _ (uuid : String) where
    found :
        (c : Attachment)
        → find (owns_live user.id uuid) d.attachments ≡ some c
        → owns_live user.id uuid c ≡ true
    found c e = find-satisfies (owns_live user.id uuid) d.attachments c e

    -- Deleting an attachment raises and changes nothing, or marks a live attachment of the user's
    -- as deleted, with the next revision, and changes nothing else. The database is assumed to
    -- meet its unique constraints before the request.
    pub delete_attachment-Writes :
        Writes attachment_key
          (user.id, uuid)
          (NotFound user.id uuid d)
          (Updates is_live (IsTombstone env.now))
          (λ c. tt)
          d
          (get_db (delete_attachment env user uuid) d)
    unfolding delete_attachment get_db select_first
    delete_attachment-Writes = elim (Option-cases (find (owns_live user.id uuid) d.attachments)) [
      | inl e ↦ rw e (refl, inr (refl, e))
      | inr (c, e) ↦ rw e (
          save-Writes attachment_key _ (NotFound user.id uuid d)
            (Updates is_live (IsTombstone env.now)) (λ c. tt) (deleted env.now c) d
            (owns_live user.id uuid) c k.attachments_keys e refl (λ j. refl)
            (owns_of_live user.id uuid c (found c e))
            (c, refl, live_of_live user.id uuid c (found c e), refl))
    ]
