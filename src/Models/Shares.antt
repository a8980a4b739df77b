-- ===== src/Models/Shares.antt =====
-- app/models/share.py: an item shared with another user. The column `status` is text; only the
-- values below are ever written to it.
use open_key_server.Base.{ℕ, String, ◌≡◌, ◌↔◌, Bool, true, false, Option, arith, Eq}

pub data ShareStatus : Type 0 where
  pending accepted revoked : ShareStatus

abbrev pub status_beq : ShareStatus → ShareStatus → Bool
status_beq pending pending = true
status_beq accepted accepted = true
status_beq revoked revoked = true
status_beq _ _ = false

pub status_beq_iff : (a b : ShareStatus) → (status_beq a b ≡ true) ↔ (a ≡ b)
status_beq_iff a b = ground arith

instance abbrev pub status_eq : Eq ShareStatus
status_eq = record { equal = status_beq; equal_iff = status_beq_iff }

pub record Share : Type 0 where
  pub id : ℕ
  pub uuid : String
  pub owner_user_id : ℕ
  pub recipient_user_id : Option ℕ
  pub recipient_email : Option String
  pub entry_uuid : Option String
  pub collection_uuid : Option String
  pub wrapped_item_key : String
  pub encrypted_payload : Option String
  pub status : ShareStatus
  pub revision : ℕ
  pub created_at : ℕ
  pub updated_at : ℕ
