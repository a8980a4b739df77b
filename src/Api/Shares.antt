-- ===== src/Api/Shares.antt =====
-- app/api/shares.py: sharing a snapshot of an item with another user.
pub mod Effects
pub mod Outcomes
pub mod Integrity
pub mod Lifecycle
use open_key_server.Base.{
  ℕ, String, Bool, true, false, not, ◌+◌, ◌&&◌, ◌||◌, Option, none, some, List, ◌==◌, nat_eq,
  string_eq, option_eq, leb, order_by, map, if◌then◌else◌,
}
use open_key_server.Models.Account.{User}
use open_key_server.Models.Shares.{Share, pending, accepted, revoked, status_eq}
use open_key_server.Orm.Session.{M, http, pure, raise, guard, or_raise, ◌>>=◌, ◌>>◌}
use open_key_server.Orm.Tables.{select_first, select_all, add, save}
use open_key_server.Orm.Schema.{user_table, share_table}
use open_key_server.Schemas.Shares.{ShareCreate}
use open_key_server.Text.{is_empty, lower}
use open_key_server.Api.Request.{Env, is_none}

abbrev pub has_uuid : String → Share → Bool
has_uuid uuid s = s.uuid == uuid

-- `body.recipient_email.lower() if body.recipient_email else None`
unfoldable pub lower_email : Option String → Option String
lower_email none = none
lower_email (some email) = if is_empty email then none else some (lower email)

-- The recipient's key and address, looked up by whichever was given.
pub record Recipient : Type 0 where
  pub user_id : Option ℕ
  pub email : Option String

abbrev pub by_email : String → Option User → Recipient
by_email email none = record { user_id = none; email = some email }
by_email email (some user) = record { user_id = some user.id; email = some email }

unfoldable pub find_recipient : Option ℕ → Option String → M Recipient
find_recipient (some user_id) email = do
  found ← select_first {R = User} (λ u. u.id == user_id)
  recipient ← or_raise found (http 404 "Recipient user not found")
  pure (record { user_id = some user_id; email = some recipient.email })
find_recipient none (some email) = do
  found ← select_first {R = User} (λ u. u.email == email)
  pure (by_email email found)
find_recipient none none = pure (record { user_id = none; email = none })

abbrev pub new_share : Env → User → ShareCreate → Recipient → Share
new_share env user body to = record {
  id = env.new_id;
  uuid = body.uuid;
  owner_user_id = user.id;
  recipient_user_id = to.user_id;
  recipient_email = to.email;
  entry_uuid = body.entry_uuid;
  collection_uuid = body.collection_uuid;
  wrapped_item_key = body.wrapped_item_key;
  encrypted_payload = body.encrypted_payload;
  status = pending;
  revision = body.revision;
  created_at = env.db_now;
  updated_at = env.db_now;
}

unfoldable pub create_share : Env → User → ShareCreate → M Share
create_share env user body = do
  existing ← select_first (has_uuid body.uuid)
  guard (is_none existing) (http 409 "Share with this uuid already exists")
  to ← find_recipient body.recipient_user_id (lower_email body.recipient_email)
  guard (not (to.user_id == some user.id)) (http 400 "Cannot share with yourself")
  add (new_share env user body to)
  pure (new_share env user body to)

abbrev pub concerns : User → Share → Bool
concerns user s =
    (s.owner_user_id == user.id
      || s.recipient_user_id == some user.id
      || s.recipient_email == some user.email)
    && not (s.status == revoked)

unfoldable pub list_shares : User → M (List Share)
list_shares user = do
  rows ← select_all (concerns user)
  pure (order_by (λ a b. leb a.created_at b.created_at) rows)

unfoldable pub is_recipient : User → Share → Bool
is_recipient user s = s.recipient_user_id == some user.id || s.recipient_email == some user.email

-- `bool(share.encrypted_payload)`
unfoldable pub has_payload : Share → Bool
has_payload s = elim s.encrypted_payload [ none ↦ false | some p ↦ not (is_empty p) ]

abbrev pub accepted_by : Env → User → Share → Share
accepted_by env user s = record s {
  recipient_user_id = some user.id;
  recipient_email = some user.email;
  status = accepted;
  revision = s.revision + 1;
  updated_at = env.now;
}

unfoldable pub accept_share : Env → User → String → M Share
accept_share env user uuid = do
  found ← select_first (has_uuid uuid)
  share ← or_raise found (http 404 "Share not found")
  guard (share.status == pending) (http 400 "Share is not pending")
  guard (is_recipient user share) (http 403 "Share is not for this user")
  guard (has_payload share) (http 400 "Share has no snapshot payload to import")
  save (accepted_by env user share)
  pure (accepted_by env user share)

abbrev pub revoked_at : Env → Share → Share
revoked_at env s = record s { status = revoked; revision = s.revision + 1; updated_at = env.now }

unfoldable pub revoke_share : Env → User → String → M Share
revoke_share env user uuid = do
  found ← select_first (has_uuid uuid)
  share ← or_raise found (http 404 "Share not found")
  guard (share.owner_user_id == user.id) (http 403 "Only the share owner can revoke")
  guard (not (share.status == revoked)) (http 400 "Share is already revoked")
  guard (share.status == pending || share.status == accepted) (http 400 "Share cannot be revoked")
  save (revoked_at env share)
  pure (revoked_at env share)
