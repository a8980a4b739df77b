-- ===== src/Schemas/Shares.antt =====
-- app/schemas/share.py
use open_key_server.Base.{ℕ, String, Bool, true, false, not, ◌&&◌, ◌||◌, Option, none, some, leb}
use open_key_server.Models.Shares.{Share, ShareStatus}
use open_key_server.Schemas.Fields.{length_within, check_optional}
use open_key_server.Text.{str_len, strip, is_empty}

pub record ShareCreate : Type 0 where
  pub uuid : String
  pub recipient_user_id : Option ℕ
  pub recipient_email : Option String
  pub entry_uuid : Option String
  pub collection_uuid : Option String
  pub wrapped_item_key : String
  pub encrypted_payload : Option String
  pub revision : ℕ

abbrev pub is_given {ℓ} : {A : Type ℓ} → Option A → Bool
is_given none = false
is_given (some a) = true

-- `payload is None or not payload.strip()`
unfoldable pub is_blank : Option String → Bool
is_blank none = true
is_blank (some s) = is_empty (strip s)

-- A recipient, a target, and for an entry a snapshot of its payload.
unfoldable pub require_recipient_and_target : ShareCreate → Bool
unfolding is_blank
require_recipient_and_target b =
    (is_given b.recipient_user_id || is_given b.recipient_email)
    && (is_given b.entry_uuid || is_given b.collection_uuid)
    && (not (is_given b.entry_uuid) || not (is_blank b.encrypted_payload))

unfoldable pub validate_share_create : ShareCreate → Bool
unfolding require_recipient_and_target
validate_share_create b =
    length_within 1 64 b.uuid
    && check_optional (length_within 0 64) b.entry_uuid
    && check_optional (length_within 0 64) b.collection_uuid
    && leb 1 (str_len b.wrapped_item_key)
    && leb 1 b.revision
    && require_recipient_and_target b

pub record ShareResponse : Type 0 where
  pub uuid : String
  pub owner_user_id : ℕ
  pub recipient_user_id : Option ℕ
  pub recipient_email : Option String
  pub entry_uuid : Option String
  pub collection_uuid : Option String
  pub wrapped_item_key : String
  pub encrypted_payload : Option String
  pub status : ShareStatus
  pub revision : ℕ
  pub created_at : ℕ
  pub updated_at : ℕ

-- `from_attributes`
unfoldable pub share_response : Share → ShareResponse
share_response s = record {
  uuid = s.uuid;
  owner_user_id = s.owner_user_id;
  recipient_user_id = s.recipient_user_id;
  recipient_email = s.recipient_email;
  entry_uuid = s.entry_uuid;
  collection_uuid = s.collection_uuid;
  wrapped_item_key = s.wrapped_item_key;
  encrypted_payload = s.encrypted_payload;
  status = s.status;
  revision = s.revision;
  created_at = s.created_at;
  updated_at = s.updated_at;
}
