-- ===== src/Api/Attachments.antt =====
-- app/api/attachments.py: the attachments of a user's vault.
pub mod Transfer
pub mod Effects
pub mod Integrity
pub mod Uploads
pub mod Filenames
use open_key_server.Base.{
  ℕ, String, Bool, true, false, not, ◌+◌, ◌&&◌, ◌||◌, Option, none, some, List, ◌==◌, nat_eq,
  string_eq, leb, length, order_by, if◌then◌else◌,
}
use open_key_server.Models.Account.{User}
use open_key_server.Models.Vault.{Attachment}
use open_key_server.Orm.Session.{M, http, pure, lift, guard, or_raise, ◌>>=◌, ◌>>◌}
use open_key_server.Orm.Tables.{select_first, select_all, add, save}
use open_key_server.Orm.Schema.{attachment_table}
use open_key_server.Schemas.Fields.{length_within, check_optional}
use open_key_server.Schemas.Attachments.{max_attachment_bytes}
use open_key_server.Text.{is_empty}
use open_key_server.Api.Request.{Env, is_none}
use Transfer.{read_upload_bounded, iter_blob, content_disposition}

abbrev pub owns : ℕ → String → Attachment → Bool
owns user_id uuid a = a.user_id == user_id && a.uuid == uuid

abbrev pub owns_live : ℕ → String → Attachment → Bool
owns_live user_id uuid a = owns user_id uuid a && not a.is_deleted

-- The form of an upload, and what the reads of its file give.
pub record Upload : Type 0 where
  pub uuid : String
  pub entry_uuid : String
  pub filename : String
  pub size_bytes : ℕ
  pub revision : ℕ
  pub content_type : Option String
  pub file_content_type : Option String
  pub reads : List (List ℕ)

-- The checks of the form's fields.
unfoldable pub accepts_upload : Upload → Bool
accepts_upload form =
    length_within 1 64 form.uuid
    && length_within 1 64 form.entry_uuid
    && length_within 1 512 form.filename
    && leb form.size_bytes max_attachment_bytes
    && leb 1 form.revision
    && check_optional (length_within 0 255) form.content_type

unfoldable pub list_attachments : User → M (List Attachment)
list_attachments user = do
  rows ← select_all (λ a. a.user_id == user.id && not a.is_deleted)
  pure (order_by (λ a b. leb a.created_at b.created_at) rows)

-- `content_type or file.content_type`
abbrev resolved_content_type : Upload → Option String
resolved_content_type form = elim form.content_type [
  | none ↦ form.file_content_type
  | some t ↦ if is_empty t then form.file_content_type else some t
]

abbrev pub new_attachment : Env → User → Upload → List ℕ → Attachment
new_attachment env user form blob = record {
  id = env.new_id;
  user_id = user.id;
  uuid = form.uuid;
  entry_uuid = form.entry_uuid;
  filename = form.filename;
  size_bytes = form.size_bytes;
  encrypted_blob = blob;
  content_type = resolved_content_type form;
  revision = form.revision;
  is_deleted = false;
  created_at = env.db_now;
  updated_at = env.db_now;
}

unfoldable pub create_attachment : Env → User → Upload → M Attachment
create_attachment env user form = do
  existing ← select_first (owns user.id form.uuid)
  guard (is_none existing) (http 409 "Attachment with this uuid already exists")
  blob ← lift (read_upload_bounded max_attachment_bytes form.reads)
  guard (form.size_bytes == length blob) (http 400 "size_bytes does not match uploaded file length")
  add (new_attachment env user form blob)
  pure (new_attachment env user form blob)

unfoldable pub get_attachment : User → String → M Attachment
get_attachment user uuid = do
  found ← select_first (owns_live user.id uuid)
  or_raise found (http 404 "Attachment not found")

-- The streamed response: its headers and its chunks.
pub record Download : Type 0 where
  pub content_length : ℕ
  pub disposition : String
  pub size_bytes : ℕ
  pub entry_uuid : String
  pub chunks : List (List ℕ)

unfoldable pub download_attachment_content : User → String → M Download
download_attachment_content user uuid = do
  found ← select_first (owns_live user.id uuid)
  attachment ← or_raise found (http 404 "Attachment not found")
  pure (record {
    content_length = length attachment.encrypted_blob;
    disposition = content_disposition attachment.filename;
    size_bytes = attachment.size_bytes;
    entry_uuid = attachment.entry_uuid;
    chunks = iter_blob attachment.encrypted_blob;
  })

abbrev pub deleted : ℕ → Attachment → Attachment
deleted now a = record a { is_deleted = true; revision = a.revision + 1; updated_at = now }

unfoldable pub delete_attachment : Env → User → String → M (Unit {0})
delete_attachment env user uuid = do
  found ← select_first (owns_live user.id uuid)
  attachment ← or_raise found (http 404 "Attachment not found")
  save (deleted env.now attachment)
  pure tt
