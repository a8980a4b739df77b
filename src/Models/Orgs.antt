-- ===== src/Models/Orgs.antt =====
-- app/models/org.py: organisations, their members and their shared items. The columns `role` and
-- `status` are text; only the values below are ever written to them.
use open_key_server.Base.{ℕ, String, ◌≡◌, ◌↔◌, Bool, true, false, Option, arith, Eq}

pub data Role : Type 0 where
  owner admin member : Role

pub data MemberStatus : Type 0 where
  invited active revoked : MemberStatus

abbrev pub role_beq : Role → Role → Bool
role_beq owner owner = true
role_beq admin admin = true
role_beq member member = true
role_beq _ _ = false

pub role_beq_iff : (a b : Role) → (role_beq a b ≡ true) ↔ (a ≡ b)
role_beq_iff a b = ground arith

instance abbrev pub role_eq : Eq Role
role_eq = record { equal = role_beq; equal_iff = role_beq_iff }

abbrev pub status_beq : MemberStatus → MemberStatus → Bool
status_beq invited invited = true
status_beq active active = true
status_beq revoked revoked = true
status_beq _ _ = false

pub status_beq_iff : (a b : MemberStatus) → (status_beq a b ≡ true) ↔ (a ≡ b)
status_beq_iff a b = ground arith

instance abbrev pub status_eq : Eq MemberStatus
status_eq = record { equal = status_beq; equal_iff = status_beq_iff }

pub record Org : Type 0 where
  pub id : ℕ
  pub uuid : String
  pub encrypted_name : String
  pub owner_user_id : ℕ
  pub revision : ℕ
  pub created_at : ℕ
  pub updated_at : ℕ

pub record OrgMember : Type 0 where
  pub id : ℕ
  pub org_id : ℕ
  pub user_id : Option ℕ
  pub role : Role
  pub wrapped_org_key : String
  pub status : MemberStatus
  pub invited_email : Option String
  pub revision : ℕ
  pub created_at : ℕ
  pub updated_at : ℕ

pub record OrgCollection : Type 0 where
  pub id : ℕ
  pub org_id : ℕ
  pub uuid : String
  pub encrypted_name : String
  pub revision : ℕ
  pub is_deleted : Bool
  pub created_at : ℕ
  pub updated_at : ℕ

pub record OrgEntry : Type 0 where
  pub id : ℕ
  pub org_id : ℕ
  pub uuid : String
  pub collection_uuid : Option String
  pub encrypted_payload : String
  pub revision : ℕ
  pub is_deleted : Bool
  pub created_at : ℕ
  pub updated_at : ℕ
