-- ===== src/Api/Orgs/Members.antt =====
-- The memberships of app/api/orgs.py: organisations, invites and roles.
use open_key_server.Base.{
  ℕ, String, Bool, true, not, ◌+◌, ◌&&◌, ◌||◌, Option, none, some, List, [], ◌∷◌, map, ◌==◌, nat_eq,
  string_eq, option_eq, leb, order_by, if◌then◌else◌,
}
use open_key_server.Models.Account.{User}
use open_key_server.Models.Orgs.{
  Org, OrgMember, owner, admin, invited, active, revoked, role_eq, status_eq,
}
use open_key_server.Orm.Session.{M, http, pure, guard, or_raise, ◌>>=◌, ◌>>◌}
use open_key_server.Orm.Tables.{select_first, select_all, add, save}
use open_key_server.Orm.Schema.{org_table, org_member_table, user_table}
use open_key_server.Schemas.Orgs.{
  OrgCreate, OrgInviteCreate, GrantedRole, to_role, OrgResponse, OrgMemberPublicResponse,
  InviteResponse, public_response,
}
use open_key_server.Text.{lower}
use open_key_server.Api.Request.{Env, is_none}
use open_key_server.Api.Orgs.{
  org_response, invite_response, has_uuid, get_org_or_404, require_active_member, require_admin,
}

-- `_touch_member`
abbrev pub touch_member : Env → OrgMember → OrgMember
touch_member env m = record m { revision = m.revision + 1; updated_at = env.now }

abbrev pub new_org : Env → User → OrgCreate → Org
new_org env user body = record {
  id = env.new_id;
  uuid = body.uuid;
  encrypted_name = body.encrypted_name;
  owner_user_id = user.id;
  revision = body.revision;
  created_at = env.db_now;
  updated_at = env.db_now;
}

-- The membership of the user who creates an organisation, given its key.
abbrev pub owner_membership : Env → ℕ → User → OrgCreate → OrgMember
owner_membership env member_id user body = record {
  id = member_id;
  org_id = env.new_id;
  user_id = some user.id;
  role = owner;
  wrapped_org_key = body.wrapped_org_key;
  status = active;
  invited_email = some user.email;
  revision = 1;
  created_at = env.db_now;
  updated_at = env.db_now;
}

unfoldable pub create_org : Env → ℕ → User → OrgCreate → M OrgResponse
create_org env member_id user body = do
  existing ← select_first (has_uuid body.uuid)
  guard (is_none existing) (http 409 "Org with this uuid already exists")
  add (new_org env user body)
  add (owner_membership env member_id user body)
  pure (org_response (new_org env user body) (some (owner_membership env member_id user body)))

-- `m.org`: the foreign key sees to it that it is there.
abbrev pub org_of : List Org → ℕ → Option Org
org_of [] i = none
org_of (o ∷ orgs) i = if o.id == i then some o else org_of orgs i

abbrev prepend : {A : Type 0} → Option A → List A → List A
prepend none xs = xs
prepend (some x) xs = x ∷ xs

abbrev pub org_responses : List Org → List OrgMember → List OrgResponse
org_responses orgs [] = []
org_responses orgs (m ∷ ms) =
    let rest = org_responses orgs ms in
    elim (org_of orgs m.org_id) [ none ↦ rest | some org ↦ org_response org (some m) ∷ rest ]

unfoldable pub list_orgs : User → M (List OrgResponse)
list_orgs user = do
  memberships ← select_all {R = OrgMember} (λ m. m.user_id == some user.id && m.status == active)
  orgs ← select_all {R = Org} (λ _. true)
  pure (org_responses orgs memberships)

abbrev pub key_of : Option User → Option ℕ
key_of none = none
key_of (some u) = some u.id

-- Whether a membership is of the address, or of the user who has it.
abbrev pub is_of : String → Option User → OrgMember → Bool
is_of email none m = m.invited_email == some email
is_of email (some recipient) m = m.invited_email == some email || m.user_id == some recipient.id

abbrev pub is_known : ℕ → String → Option User → OrgMember → Bool
is_known org_id email recipient m = m.org_id == org_id && is_of email recipient m

abbrev pub reinvited : Env → String → Option User → OrgInviteCreate → OrgMember → OrgMember
reinvited env email recipient body m = touch_member env (record m {
  role = to_role body.role;
  wrapped_org_key = body.wrapped_org_key;
  status = invited;
  invited_email = some email;
  user_id = key_of recipient;
})

abbrev pub new_invite : Env → ℕ → String → Option User → OrgInviteCreate → OrgMember
new_invite env org_id email recipient body = record {
  id = env.new_id;
  org_id = org_id;
  user_id = key_of recipient;
  role = to_role body.role;
  wrapped_org_key = body.wrapped_org_key;
  status = invited;
  invited_email = some email;
  revision = 1;
  created_at = env.db_now;
  updated_at = env.db_now;
}

-- The row that an invite writes, given the membership that there was.
unfoldable pub put_invite :
    Env → Org → String → Option User → OrgInviteCreate → Option OrgMember → M InviteResponse
put_invite env org email recipient body none = do
  add (new_invite env org.id email recipient body)
  pure (invite_response (new_invite env org.id email recipient body) (some org))
put_invite env org email recipient body (some existing) = do
  guard (existing.status == revoked) (http 409 "User already invited or a member")
  save (reinvited env email recipient body existing)
  pure (invite_response (reinvited env email recipient body existing) (some org))

unfoldable pub invite_to_org : Env → User → String → OrgInviteCreate → M InviteResponse
invite_to_org env user uuid body = do
  org ← get_org_or_404 uuid
  require_admin org user
  guard (not (lower body.email == user.email)) (http 400 "Cannot invite yourself")
  recipient ← select_first {R = User} (λ u. u.email == lower body.email)
  existing ← select_first (is_known org.id (lower body.email) recipient)
  put_invite env org (lower body.email) recipient body existing

unfoldable pub list_pending_invites : User → M (List InviteResponse)
list_pending_invites user = do
  members ←
      select_all {R = OrgMember} (λ m. m.status == invited && m.invited_email == some user.email)
  orgs ← select_all {R = Org} (λ _. true)
  pure (
      map (λ m. invite_response m (org_of orgs m.org_id))
        (order_by (λ a b. leb a.created_at b.created_at) members))

abbrev pub keep_or : Option String → String → String
keep_or none old = old
keep_or (some new) old = new

abbrev pub joined : Env → User → Option String → OrgMember → OrgMember
joined env user wrapped_org_key m = touch_member env (record m {
  user_id = some user.id;
  status = active;
  wrapped_org_key = keep_or wrapped_org_key m.wrapped_org_key;
})

unfoldable pub accept_invite : Env → User → ℕ → Option String → M InviteResponse
accept_invite env user invite_id wrapped_org_key = do
  found ← select_first {R = OrgMember} (λ m. m.id == invite_id)
  membership ← or_raise found (http 404 "Invite not found")
  guard (membership.status == invited) (http 400 "Invite is not pending")
  guard (membership.invited_email == some user.email) (http 403 "Invite is not for this user")
  org ← select_first {R = Org} (λ o. o.id == membership.org_id)
  save (joined env user wrapped_org_key membership)
  pure (invite_response (joined env user wrapped_org_key membership) org)

unfoldable pub list_members : User → String → M (List OrgMemberPublicResponse)
list_members user uuid = do
  org ← get_org_or_404 uuid
  require_active_member org user
  rows ←
      select_all {R = OrgMember}
        (λ m. m.org_id == org.id && (m.status == active || m.status == invited))
  pure (map public_response (order_by (λ a b. leb a.created_at b.created_at) rows))

abbrev pub is_member : ℕ → ℕ → OrgMember → Bool
is_member org_id member_id m = m.id == member_id && m.org_id == org_id

-- The owner, by role or by the organisation's record.
abbrev pub is_owner : Org → OrgMember → Bool
is_owner org m = m.role == owner || m.user_id == some org.owner_user_id

abbrev pub with_role : Env → GrantedRole → OrgMember → OrgMember
with_role env role m = touch_member env (record m { role = to_role role })

unfoldable pub update_member_role :
    Env → User → String → ℕ → GrantedRole → M OrgMemberPublicResponse
update_member_role env user uuid member_id role = do
  org ← get_org_or_404 uuid
  actor ← require_admin org user
  found ← select_first (is_member org.id member_id)
  m ← or_raise found (http 404 "Member not found")
  guard (not (m.status == revoked)) (http 404 "Member not found")
  guard (m.status == active || m.status == invited)
      (http 400 "Cannot change role for this membership")
  guard (not (is_owner org m)) (http 400 "Cannot change the org owner's role")
  guard (not (m.id == actor.id)) (http 400 "Cannot change your own role")
  guard (not (actor.role == admin && m.role == admin))
      (http 403 "Admins cannot change other admins")
  guard (not (actor.role == admin && to_role role == admin))
      (http 403 "Only the owner can promote admins")
  save (with_role env role m)
  pure (public_response (with_role env role m))

abbrev pub dismissed : Env → OrgMember → OrgMember
dismissed env m = touch_member env (record m { status = revoked })

unfoldable pub remove_member : Env → User → String → ℕ → M (Unit {0})
remove_member env user uuid member_id = do
  org ← get_org_or_404 uuid
  actor ← require_admin org user
  found ← select_first (is_member org.id member_id)
  m ← or_raise found (http 404 "Member not found")
  guard (not (m.status == revoked)) (http 404 "Member not found")
  guard (not (is_owner org m)) (http 400 "Cannot remove the org owner")
  guard (not (m.id == actor.id)) (http 400 "Use leave to remove yourself")
  guard (not (actor.role == admin && m.role == admin))
      (http 403 "Admins cannot remove other admins")
  save (dismissed env m)
  pure tt

unfoldable pub revoke_invite : Env → User → String → ℕ → M InviteResponse
revoke_invite env user uuid invite_id = do
  org ← get_org_or_404 uuid
  require_admin org user
  found ← select_first (is_member org.id invite_id)
  membership ← or_raise found (http 404 "Invite not found")
  guard (membership.status == invited) (http 400 "Invite is not pending")
  save (dismissed env membership)
  pure (invite_response (dismissed env membership) (some org))

unfoldable pub leave_org : Env → User → String → M (Unit {0})
leave_org env user uuid = do
  org ← get_org_or_404 uuid
  membership ← require_active_member org user
  guard (not (membership.role == owner || user.id == org.owner_user_id))
      (http 400 "Owner cannot leave the organization")
  save (dismissed env membership)
  pure tt
