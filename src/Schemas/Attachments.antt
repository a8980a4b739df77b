-- ===== src/Schemas/Attachments.antt =====
-- app/schemas/attachment.py
use open_key_server.Base.{ℕ, ◌*◌, String, Bool, Option}
use open_key_server.Base64.{b64encode}
use open_key_server.Models.Vault.{Attachment}

abbrev pub max_attachment_bytes : ℕ
max_attachment_bytes = 20 * 1024 * 1024

-- Metadata only: no ciphertext.
pub record AttachmentMetaResponse : Type 0 where
  pub uuid : String
  pub entry_uuid : String
  pub filename : String
  pub size_bytes : ℕ
  pub content_type : Option String
  pub revision : ℕ
  pub is_deleted : Bool
  pub created_at : ℕ
  pub updated_at : ℕ

-- `from_attributes`
unfoldable pub attachment_meta_response : Attachment → AttachmentMetaResponse
attachment_meta_response a = record {
  uuid = a.uuid;
  entry_uuid = a.entry_uuid;
  filename = a.filename;
  size_bytes = a.size_bytes;
  content_type = a.content_type;
  revision = a.revision;
  is_deleted = a.is_deleted;
  created_at = a.created_at;
  updated_at = a.updated_at;
}

-- The whole attachment, its ciphertext in base64.
pub record AttachmentResponse : Type 0 where
  pub uuid : String
  pub entry_uuid : String
  pub filename : String
  pub size_bytes : ℕ
  pub content_type : Option String
  pub revision : ℕ
  pub is_deleted : Bool
  pub encrypted_blob : String
  pub created_at : ℕ
  pub updated_at : ℕ

unfoldable pub from_orm_attachment : Attachment → AttachmentResponse
from_orm_attachment a = record {
  uuid = a.uuid;
  entry_uuid = a.entry_uuid;
  filename = a.filename;
  size_bytes = a.size_bytes;
  content_type = a.content_type;
  revision = a.revision;
  is_deleted = a.is_deleted;
  encrypted_blob = b64encode a.encrypted_blob;
  created_at = a.created_at;
  updated_at = a.updated_at;
}
