-- ===== src/Schemas/Orgs.antt =====
-- app/schemas/org.py
use open_key_server.Base.{ℕ, String, Bool, ◌&&◌, Option, some, none, leb, if◌then◌else◌}
use open_key_server.Models.Orgs.{OrgMember, Role, admin, member, MemberStatus}
use open_key_server.Schemas.Fields.{
  length_within, check_optional, Patch, check_patch, normalize_patch,
}
use open_key_server.Schemas.VaultIds.{normalize_folder_id}
use open_key_server.Text.{str_len}

abbrev not_empty : String → Bool
not_empty s = leb 1 (str_len s)

pub record OrgCreate : Type 0 where
  pub uuid : String
  pub encrypted_name : String
  pub wrapped_org_key : String
  pub revision : ℕ

unfoldable pub validate_org_create : OrgCreate → Bool
validate_org_create b =
    length_within 1 64 b.uuid
    && not_empty b.encrypted_name
    && not_empty b.wrapped_org_key
    && leb 1 b.revision

-- `Literal["admin", "member"]`
pub data GrantedRole : Type 0 where
  as_admin as_member : GrantedRole

abbrev pub to_role : GrantedRole → Role
to_role as_admin = admin
to_role as_member = member

pub record OrgInviteCreate : Type 0 where
  pub email : String
  pub role : GrantedRole
  pub wrapped_org_key : String

unfoldable pub validate_org_invite : (String → Bool) → OrgInviteCreate → Bool
validate_org_invite is_email b = is_email b.email && not_empty b.wrapped_org_key

unfoldable pub validate_invite_accept : Option String → Bool
validate_invite_accept wrapped_org_key = check_optional not_empty wrapped_org_key

pub record OrgResponse : Type 0 where
  pub uuid : String
  pub encrypted_name : String
  pub owner_user_id : ℕ
  pub revision : ℕ
  pub created_at : ℕ
  pub updated_at : ℕ
  pub membership : Option OrgMember

-- The listing of members leaves the wrapped key out.
pub record OrgMemberPublicResponse : Type 0 where
  pub id : ℕ
  pub org_id : ℕ
  pub user_id : Option ℕ
  pub role : Role
  pub status : MemberStatus
  pub invited_email : Option String
  pub revision : ℕ
  pub created_at : ℕ
  pub updated_at : ℕ

abbrev pub public_response : OrgMember → OrgMemberPublicResponse
public_response m = record {
  id = m.id;
  org_id = m.org_id;
  user_id = m.user_id;
  role = m.role;
  status = m.status;
  invited_email = m.invited_email;
  revision = m.revision;
  created_at = m.created_at;
  updated_at = m.updated_at;
}

pub record InviteResponse : Type 0 where
  pub org_uuid : Option String
  pub org_encrypted_name : Option String
  pub membership : OrgMember

pub record OrgCollectionCreate : Type 0 where
  pub uuid : String
  pub encrypted_name : String
  pub revision : ℕ

unfoldable pub validate_org_collection_create : OrgCollectionCreate → Bool
validate_org_collection_create b =
    length_within 1 64 b.uuid && not_empty b.encrypted_name && leb 1 b.revision

pub record OrgCollectionUpdate : Type 0 where
  pub encrypted_name : Patch String
  pub revision : Patch ℕ
  pub is_deleted : Patch Bool

unfoldable pub validate_org_collection_update : OrgCollectionUpdate → Bool
validate_org_collection_update b = check_patch (leb 1) b.revision

pub record OrgEntryCreate : Type 0 where
  pub uuid : String
  pub collection_uuid : Option String
  pub encrypted_payload : String
  pub revision : ℕ

-- Validation of a body: normalised, or refused.
unfoldable pub validate_org_entry_create : OrgEntryCreate → Option OrgEntryCreate
validate_org_entry_create b =
    let collection_uuid = normalize_folder_id b.collection_uuid in
    if length_within 1 64 b.uuid
      && check_optional (length_within 0 64) collection_uuid
      && not_empty b.encrypted_payload
      && leb 1 b.revision
    then some (record b { collection_uuid = collection_uuid })
    else none

pub record OrgEntryUpdate : Type 0 where
  pub collection_uuid : Patch String
  pub encrypted_payload : Patch String
  pub revision : Patch ℕ
  pub is_deleted : Patch Bool

unfoldable pub validate_org_entry_update : OrgEntryUpdate → Option OrgEntryUpdate
validate_org_entry_update b =
    let collection_uuid = normalize_patch b.collection_uuid in
    if check_patch (length_within 0 64) collection_uuid
      && check_patch not_empty b.encrypted_payload
      && check_patch (leb 1) b.revision
    then some (record b { collection_uuid = collection_uuid })
    else none
