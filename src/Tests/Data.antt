-- ===== src/Tests/Data.antt =====
-- A small database, and libraries and requests to run the program with.
use open_key_server.Base.{
  leb, ◌&&◌, ℕ, ltb, String, false, Option, none, some, [], ◌∷◌, any, ◌==◌, string_eq, refl,
  if◌then◌else◌,
}
use open_key_server.Base.Int.{pos}
use open_key_server.Models.{Db}
use open_key_server.Models.Account.{User, RefreshToken}
use open_key_server.Models.Vault.{Collection, Entry, Attachment}
use open_key_server.Models.Orgs.{Org, OrgMember, owner, member, active, invited}
use open_key_server.Models.Shares.{Share, pending}
use open_key_server.Orm.Session.{ok, err, invalid_token}
use open_key_server.Orm.Integrity.{IsConsistent}
use open_key_server.Services.Auth.{Library, Settings, Draw, to_seconds}
use open_key_server.Api.Request.{Env}
use open_key_server.Text.{show}

abbrev pub env : Env
env = record { now = 5000000; db_now = 4000000; new_id = 50 }

abbrev pub settings : Settings
settings = record {
  jwt_secret = "0123456789abcdef0123456789abcdef";
  jwt_algorithm = "HS256";
  access_token_expire_minutes = 15;
  refresh_token_expire_days = 7;
}

abbrev text_of : Option String → String
text_of none = ""
text_of (some s) = s

abbrev key_of : String → Option ℕ
key_of s = if s == "1" then some 1 else if s == "2" then some 2 else none

-- Tokens that name their subject, made after two seconds.
abbrev pub library : Library
library = record {
  jwt_encode = λ c secret algorithm. text_of c.sub;
  jwt_decode = λ now token secret algorithm.
      if leb 2 (to_seconds now) && ltb (to_seconds now) 902
      then ok (record { sub = some token; exp = 902; iat = 2; token_type = some "access" })
      else err (invalid_token "Signature has expired");
  sha256_hex = λ s. s;
  uuid_text = λ n. show n;
  parse_uuid = key_of;
}

abbrev pub first_draw : Draw
first_draw = record { env = env; token_id = 51; raw_refresh = "second token" }

abbrev pub second_draw : Draw
second_draw = record { env = env; token_id = 52; raw_refresh = "third token" }

abbrev pub ada : User
ada = record {
  id = 1;
  email = "ada@x.org";
  auth_hash = "aGFzaA==";
  encrypted_vault_key = "k";
  kdf_params = "{}";
  salt = "s";
  public_key = none;
  encrypted_private_key = none;
  created_at = 0;
  updated_at = 0;
}

abbrev pub bob : User
bob = record {
  id = 2;
  email = "bob@x.org";
  auth_hash = "Ym9i";
  encrypted_vault_key = "k";
  kdf_params = "{}";
  salt = "s";
  public_key = none;
  encrypted_private_key = none;
  created_at = 0;
  updated_at = 0;
}

abbrev pub token : RefreshToken
token = record {
  id = 3;
  user_id = 1;
  token_hash = "first token";
  expires_at = 10000000000;
  revoked_at = none;
  created_at = 0;
}

abbrev pub logins : Collection
logins = record {
  id = 4;
  user_id = 1;
  uuid = "logins";
  encrypted_name = "n";
  icon = "folder";
  color = none;
  parent_uuid = none;
  sort_order = pos 0;
  revision = 1;
  is_deleted = false;
  created_at = 0;
  updated_at = 0;
}

abbrev pub mail : Entry
mail = record {
  id = 5;
  user_id = 1;
  uuid = "mail";
  collection_uuid = some "logins";
  encrypted_payload = "p";
  revision = 1;
  is_deleted = false;
  created_at = 0;
  updated_at = 0;
}

abbrev pub photo : Attachment
photo = record {
  id = 6;
  user_id = 1;
  uuid = "photo";
  entry_uuid = "mail";
  filename = "a.png";
  size_bytes = 2;
  encrypted_blob = 7 ∷ 8 ∷ [];
  content_type = none;
  revision = 1;
  is_deleted = false;
  created_at = 0;
  updated_at = 0;
}

abbrev pub club : Org
club = record {
  id = 7;
  uuid = "club";
  encrypted_name = "n";
  owner_user_id = 1;
  revision = 1;
  created_at = 0;
  updated_at = 0;
}

abbrev pub founder : OrgMember
founder = record {
  id = 8;
  org_id = 7;
  user_id = some 1;
  role = owner;
  wrapped_org_key = "w";
  status = active;
  invited_email = some "ada@x.org";
  revision = 1;
  created_at = 0;
  updated_at = 0;
}

abbrev pub guest : OrgMember
guest = record {
  id = 9;
  org_id = 7;
  user_id = some 2;
  role = member;
  wrapped_org_key = "w";
  status = invited;
  invited_email = some "bob@x.org";
  revision = 1;
  created_at = 0;
  updated_at = 0;
}

abbrev pub offer : Share
offer = record {
  id = 10;
  uuid = "offer";
  owner_user_id = 1;
  recipient_user_id = some 2;
  recipient_email = some "bob@x.org";
  entry_uuid = some "mail";
  collection_uuid = none;
  wrapped_item_key = "w";
  encrypted_payload = some "p";
  status = pending;
  revision = 1;
  created_at = 0;
  updated_at = 0;
}

abbrev pub seed : Db
seed = record {
  users = ada ∷ bob ∷ [];
  refresh_tokens = token ∷ [];
  collections = logins ∷ [];
  entries = mail ∷ [];
  attachments = photo ∷ [];
  orgs = club ∷ [];
  org_members = founder ∷ guest ∷ [];
  org_collections = [];
  org_entries = [];
  shares = offer ∷ [];
}

pub seed-IsConsistent : IsConsistent seed
unfolding any
seed-IsConsistent = record {
  users_keys = (refl, (refl, tt));
  refresh_tokens_keys = (refl, tt);
  collections_keys = (refl, tt);
  entries_keys = (refl, tt);
  attachments_keys = (refl, tt);
  orgs_keys = (refl, tt);
  org_members_keys = (refl, (refl, tt));
  org_collections_keys = tt;
  org_entries_keys = tt;
  shares_keys = (refl, tt);
}
