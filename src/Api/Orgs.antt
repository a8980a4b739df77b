-- ===== src/Api/Orgs.antt =====
-- app/api/orgs.py: organisations. Here are the lookups and the permissions; the memberships and the
-- shared items are in the children.
pub mod Members
pub mod Items
pub mod Integrity
pub mod Lookups
pub mod Steps
pub mod Governance
use open_key_server.Base.{
  ℕ, String, Bool, ◌&&◌, ◌||◌, Option, none, some, ◌==◌, nat_eq, string_eq, option_eq,
}
use open_key_server.Models.Account.{User}
use open_key_server.Models.Orgs.{Org, OrgMember, owner, admin, active, role_eq, status_eq}
use open_key_server.Orm.Session.{M, http, pure, guard, or_raise, ◌>>=◌, ◌>>◌}
use open_key_server.Orm.Tables.{select_first}
use open_key_server.Orm.Schema.{org_table, org_member_table}
use open_key_server.Schemas.Orgs.{OrgResponse, InviteResponse}

abbrev pub org_response : Org → Option OrgMember → OrgResponse
org_response org membership = record {
  uuid = org.uuid;
  encrypted_name = org.encrypted_name;
  owner_user_id = org.owner_user_id;
  revision = org.revision;
  created_at = org.created_at;
  updated_at = org.updated_at;
  membership = membership;
}

abbrev pub invite_response : OrgMember → Option Org → InviteResponse
invite_response m none = record { org_uuid = none; org_encrypted_name = none; membership = m }
invite_response m (some org) = record {
  org_uuid = some org.uuid;
  org_encrypted_name = some org.encrypted_name;
  membership = m;
}

abbrev pub has_uuid : String → Org → Bool
has_uuid uuid o = o.uuid == uuid

unfoldable pub get_org_or_404 : String → M Org
get_org_or_404 uuid = do
  found ← select_first (has_uuid uuid)
  or_raise found (http 404 "Org not found")

-- The active membership of a user in an organisation.
abbrev pub is_active_in : ℕ → ℕ → OrgMember → Bool
is_active_in org_id user_id m =
    m.org_id == org_id && m.user_id == some user_id && m.status == active

unfoldable pub require_active_member : Org → User → M OrgMember
require_active_member org user = do
  found ← select_first (is_active_in org.id user.id)
  or_raise found (http 403 "Not an active org member")

abbrev pub is_admin : OrgMember → Bool
is_admin m = m.role == owner || m.role == admin

unfoldable pub require_admin : Org → User → M OrgMember
require_admin org user = do
  membership ← require_active_member org user
  guard (is_admin membership) (http 403 "Only org owners/admins can perform this action")
  pure membership
