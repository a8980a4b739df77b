-- ===== src/Api/Orgs/Integrity.antt =====
-- The endpoints of app/api/orgs.py and the constraints of the database.
use open_key_server.Base.{ℕ, String, Option, none, some}
use open_key_server.Models.Account.{User}
use open_key_server.Models.Orgs.{Org, OrgMember, OrgCollection, OrgEntry}
use open_key_server.Orm.Integrity.{IsConsistent, write_rules}
use open_key_server.Orm.Keeps.{Keeps, keeps_rules}
use open_key_server.Schemas.Fields.{Patch}
use open_key_server.Schemas.Orgs.{
  OrgCreate, OrgInviteCreate, GrantedRole, OrgCollectionCreate, OrgCollectionUpdate, OrgEntryCreate,
  OrgEntryUpdate,
}
use open_key_server.Api.Request.{Env}
use open_key_server.Api.Orgs.{get_org_or_404, require_active_member, require_admin}
use open_key_server.Api.Orgs.Members.{
  create_org, list_orgs, invite_to_org, put_invite, list_pending_invites, accept_invite,
  list_members, update_member_role, remove_member, revoke_invite, leave_org,
}
use open_key_server.Api.Orgs.Items.{
  list_org_collections, create_org_collection, put_collection, update_org_collection,
  delete_org_collection, list_org_entries, create_org_entry, put_entry, update_org_entry,
  delete_org_entry, require_collection, require_named_collection, require_patched_collection,
}

get_org-Keeps : (uuid : String) → Keeps IsConsistent (get_org_or_404 uuid)
unfolding get_org_or_404
get_org-Keeps uuid = search (keeps_rules, write_rules) depth 12

active-Keeps : (org : Org) (user : User) → Keeps IsConsistent (require_active_member org user)
unfolding require_active_member
active-Keeps org user = search (keeps_rules, write_rules) depth 12

admin-Keeps : (org : Org) (user : User) → Keeps IsConsistent (require_admin org user)
unfolding require_admin
admin-Keeps org user = search (keeps_rules, write_rules, active-Keeps) depth 12

ruleset rules = (keeps_rules, write_rules, get_org-Keeps, active-Keeps, admin-Keeps)

pub list_orgs-Keeps : (user : User) → Keeps IsConsistent (list_orgs user)
unfolding list_orgs
list_orgs-Keeps user = search rules depth 16

pub list_pending-Keeps : (user : User) → Keeps IsConsistent (list_pending_invites user)
unfolding list_pending_invites
list_pending-Keeps user = search rules depth 16

pub list_members-Keeps : (user : User) (uuid : String) → Keeps IsConsistent (list_members user uuid)
unfolding list_members
list_members-Keeps user uuid = search rules depth 16

pub list_org_collections-Keeps :
    (user : User) (uuid : String) → Keeps IsConsistent (list_org_collections user uuid)
unfolding list_org_collections
list_org_collections-Keeps user uuid = search rules depth 16

pub list_org_entries-Keeps :
    (user : User) (uuid : String) → Keeps IsConsistent (list_org_entries user uuid)
unfolding list_org_entries
list_org_entries-Keeps user uuid = search rules depth 16

module _ (env : Env) (user : User) where
  pub create_org-Keeps :
      (i : ℕ) (body : OrgCreate) → Keeps IsConsistent (create_org env i user body)
  unfolding create_org
  create_org-Keeps i body = search rules depth 16

  put_invite-Keeps :
      (org : Org) (email : String) (r : Option User) (body : OrgInviteCreate) (m : Option OrgMember)
      → Keeps IsConsistent (put_invite env org email r body m)
  unfolding put_invite
  put_invite-Keeps org email r body none = search rules depth 16
  put_invite-Keeps org email r body (some m) = search rules depth 16

  pub invite-Keeps :
      (uuid : String) (body : OrgInviteCreate)
      → Keeps IsConsistent (invite_to_org env user uuid body)
  unfolding invite_to_org
  invite-Keeps uuid body = search (rules, put_invite-Keeps) depth 24

  pub accept_invite-Keeps :
      (i : ℕ) (key : Option String) → Keeps IsConsistent (accept_invite env user i key)
  unfolding accept_invite
  accept_invite-Keeps i key = search rules depth 24

  pub update_role-Keeps :
      (uuid : String) (i : ℕ) (role : GrantedRole)
      → Keeps IsConsistent (update_member_role env user uuid i role)
  unfolding update_member_role
  update_role-Keeps uuid i role = search rules depth 32

  pub remove-Keeps : (uuid : String) (i : ℕ) → Keeps IsConsistent (remove_member env user uuid i)
  unfolding remove_member
  remove-Keeps uuid i = search rules depth 32

  pub revoke_invite-Keeps :
      (uuid : String) (i : ℕ) → Keeps IsConsistent (revoke_invite env user uuid i)
  unfolding revoke_invite
  revoke_invite-Keeps uuid i = search rules depth 24

  pub leave-Keeps : (uuid : String) → Keeps IsConsistent (leave_org env user uuid)
  unfolding leave_org
  leave-Keeps uuid = search rules depth 24

  put_collection-Keeps :
      (i : ℕ) (body : OrgCollectionCreate) (c : Option OrgCollection)
      → Keeps IsConsistent (put_collection env i body c)
  unfolding put_collection
  put_collection-Keeps i body none = search rules depth 16
  put_collection-Keeps i body (some c) = search rules depth 16

  put_entry-Keeps :
      (i : ℕ) (body : OrgEntryCreate) (e : Option OrgEntry)
      → Keeps IsConsistent (put_entry env i body e)
  unfolding put_entry
  put_entry-Keeps i body none = search rules depth 16
  put_entry-Keeps i body (some c) = search rules depth 16

  require-Keeps : (i : ℕ) (c : Option String) → Keeps IsConsistent (require_named_collection i c)
  unfolding require_named_collection require_collection
  require-Keeps i none = search rules depth 16
  require-Keeps i (some c) = search rules depth 16

  require_patched-Keeps :
      (i : ℕ) (c : Patch String) → Keeps IsConsistent (require_patched_collection i c)
  unfolding require_patched_collection
  require_patched-Keeps i none = search rules depth 16
  require_patched-Keeps i (some c) = require-Keeps i c

  pub create_org_collection-Keeps :
      (uuid : String) (body : OrgCollectionCreate)
      → Keeps IsConsistent (create_org_collection env user uuid body)
  unfolding create_org_collection
  create_org_collection-Keeps uuid body = search (rules, put_collection-Keeps) depth 24

  pub update_org_collection-Keeps :
      (uuid c : String) (body : OrgCollectionUpdate)
      → Keeps IsConsistent (update_org_collection env user uuid c body)
  unfolding update_org_collection
  update_org_collection-Keeps uuid c body = search rules depth 24

  pub delete_org_collection-Keeps :
      (uuid c : String) → Keeps IsConsistent (delete_org_collection env user uuid c)
  unfolding delete_org_collection
  delete_org_collection-Keeps uuid c = search rules depth 24

  pub create_org_entry-Keeps :
      (uuid : String) (body : OrgEntryCreate)
      → Keeps IsConsistent (create_org_entry env user uuid body)
  unfolding create_org_entry
  create_org_entry-Keeps uuid body = search (rules, put_entry-Keeps, require-Keeps) depth 24

  pub update_org_entry-Keeps :
      (uuid e : String) (body : OrgEntryUpdate)
      → Keeps IsConsistent (update_org_entry env user uuid e body)
  unfolding update_org_entry
  update_org_entry-Keeps uuid e body = search (rules, require_patched-Keeps) depth 32

  pub delete_org_entry-Keeps :
      (uuid e : String) → Keeps IsConsistent (delete_org_entry env user uuid e)
  unfolding delete_org_entry
  delete_org_entry-Keeps uuid e = search rules depth 24
