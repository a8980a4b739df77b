-- ===== src/Services/Auth.antt =====
-- app/services/auth_service.py: accounts, access tokens and sessions.
-- A request reads the clock once; a time is in microseconds, the times in a token in seconds.
pub mod Issue
use Prim.Native.Char.{code}
use open_key_server.Base.{
  ℕ, ◌+◌, ◌*◌, ◌/◌, String, Bool, true, false, not, ◌&&◌, Option, none, some, List, map, any, ◌==◌,
  nat_eq, string_eq, option_eq, leb, if◌then◌else◌,
}
use open_key_server.Models.Account.{User, RefreshToken}
use open_key_server.Models.Vault.{Collection, Entry, Attachment}
use open_key_server.Models.Orgs.{Org, OrgMember, OrgCollection, OrgEntry}
use open_key_server.Models.Shares.{Share}
use open_key_server.Orm.Session.{
  M, Result, ok, err, value_error, permission_error, lookup_error, invalid_token, pure, raise,
  guard, or_raise, commit, ◌>>=◌, ◌>>◌,
}
use open_key_server.Orm.Tables.{select_first, select_all, add, save, delete_where, update_where}
use open_key_server.Orm.Schema.{
  user_table, refresh_token_table, collection_table, entry_table, attachment_table, org_table,
  org_member_table, org_collection_table, org_entry_table, share_table,
}
use open_key_server.Schemas.Auth.{
  RegisterRequest, LoginRequest, PreloginResponse, TokenResponse, RekeyRequest,
}
use open_key_server.Text.{is_empty, strip, strip_right, lower}
use open_key_server.Api.Request.{Env, is_none}

-- The fields of app/config.py that this part reads.
pub record Settings : Type 0 where
  pub jwt_secret : String
  pub jwt_algorithm : String
  pub access_token_expire_minutes : ℕ
  pub refresh_token_expire_days : ℕ

-- The payload of a token; its `sub` and `type` may be absent.
pub record Claims : Type 0 where
  pub sub : Option String
  pub exp : ℕ
  pub iat : ℕ
  pub token_type : Option String

-- What the program takes from libraries: PyJWT, given the clock, the secret and the algorithm;
-- SHA-256 in hexadecimal; and the text of a primary key.
pub record Library : Type 0 where
  pub jwt_encode : Claims → String → String → String
  pub jwt_decode : ℕ → String → String → String → Result Claims
  pub sha256_hex : String → String
  pub uuid_text : ℕ → String
  pub parse_uuid : String → Option ℕ

-- What a request that opens a session draws: the new row's key and `token_urlsafe(48)`.
pub record Draw : Type 0 where
  pub env : Env
  pub token_id : ℕ
  pub raw_refresh : String

unfoldable pub normalize_auth_hash : String → String
normalize_auth_hash value = strip_right (λ c. code c == 61) (strip value)

unfoldable pub verify_auth_hash : String → String → Bool
verify_auth_hash stored provided = normalize_auth_hash stored == normalize_auth_hash provided

abbrev pub to_seconds : ℕ → ℕ
to_seconds t = t / 1000000

abbrev pub access_payload : ℕ → ℕ → String → Claims
access_payload now expires_in sub = record {
  sub = some sub;
  exp = to_seconds (now + expires_in * 1000000);
  iat = to_seconds now;
  token_type = some "access";
}

-- `payload.get("type", "access")`
abbrev pub type_of : Claims → String
type_of c = elim c.token_type [ none ↦ "access" | some t ↦ t ]

abbrev pub revoke_at : ℕ → RefreshToken → RefreshToken
revoke_at now t = record t { revoked_at = some now }

-- A session of the user that is not revoked.
abbrev pub is_live : ℕ → RefreshToken → Bool
is_live user_id t = t.user_id == user_id && is_none t.revoked_at

abbrev pub has_hash : String → RefreshToken → Bool
has_hash h t = t.token_hash == h

abbrev pub has_email : String → User → Bool
has_email email u = u.email == email

abbrev pub new_user : Env → RegisterRequest → User
new_user env body = record {
  id = env.new_id;
  email = lower body.email;
  auth_hash = body.auth_hash;
  encrypted_vault_key = body.encrypted_vault_key;
  kdf_params = body.kdf_params;
  salt = body.salt;
  public_key = body.public_key;
  encrypted_private_key = none;
  created_at = env.db_now;
  updated_at = env.db_now;
}

unfoldable pub revoke_all_refresh_tokens : ℕ → ℕ → M (Unit {0})
revoke_all_refresh_tokens user_id now = update_where (is_live user_id) (revoke_at now)

unfoldable pub get_user : ℕ → M (Option User)
get_user user_id = select_first (λ u. u.id == user_id)

-- A token that was used or revoked before: every session of its user ends, for good.
unfoldable pub punish_reuse : ℕ → RefreshToken → M (Unit {0})
punish_reuse now stored = do
  revoke_all_refresh_tokens stored.user_id now
  commit
  raise (permission_error "Invalid or expired refresh token")

-- `if stored is not None and stored.revoked_at is None: …`
unfoldable pub revoke_live : Env → Option RefreshToken → M (Unit {0})
revoke_live env none = pure tt
revoke_live env (some t) = if is_none t.revoked_at then save (revoke_at env.now t) else pure tt

unfoldable pub revoke_refresh_token : Library → Env → String → M (Unit {0})
revoke_refresh_token lib env raw_token = do
  stored ← select_first (has_hash (lib.sha256_hex raw_token))
  revoke_live env stored

unfoldable pub prelogin : String → M PreloginResponse
prelogin email = do
  found ← select_first (has_email (lower email))
  user ← or_raise found (lookup_error "Unknown email")
  pure (record { salt = user.salt; kdf_params = user.kdf_params })

abbrev pub keep_or : Option String → String → String
keep_or none old = old
keep_or (some new) old = new

abbrev pub rekeyed : Env → RekeyRequest → User → User
rekeyed env body user = record user {
  auth_hash = body.auth_hash;
  encrypted_vault_key = body.encrypted_vault_key;
  salt = keep_or body.salt user.salt;
  kdf_params = keep_or body.kdf_params user.kdf_params;
  updated_at = env.now;
}

unfoldable pub rekey : Env → User → RekeyRequest → M User
rekey env user body = do
  guard (verify_auth_hash user.auth_hash body.current_auth_hash)
      (permission_error "Invalid current auth_hash")
  save (rekeyed env body user)
  revoke_all_refresh_tokens user.id env.now
  pure (rekeyed env body user)

module _ (lib : Library) (settings : Settings) where
  unfoldable pub create_access_token : ℕ → ℕ → String × ℕ
  create_access_token now user_id =
      let expires_in = settings.access_token_expire_minutes * 60 in
      (
        lib.jwt_encode (access_payload now expires_in (lib.uuid_text user_id)) settings.jwt_secret
            settings.jwt_algorithm,
        expires_in,
      )

  -- `UUID(str(sub))`
  abbrev pub subject : Option String → Result ℕ
  subject none = err (invalid_token "Token missing subject")
  subject (some sub) =
      if is_empty sub
      then err (invalid_token "Token missing subject")
      else elim (lib.parse_uuid sub) [
        | none ↦ err (value_error "badly formed hexadecimal UUID string")
        | some i ↦ ok i
      ]

  unfoldable pub decode_access_token : ℕ → String → Result ℕ
  decode_access_token now token =
      elim (lib.jwt_decode now token settings.jwt_secret settings.jwt_algorithm) [
        | err e ↦ err e
        | ok payload ↦
            if not (type_of payload == "access")
            then err (invalid_token "Not an access token")
            else subject payload.sub
      ]

  abbrev pub new_token : Draw → ℕ → RefreshToken
  new_token draw user_id = record {
    id = draw.token_id;
    user_id = user_id;
    token_hash = lib.sha256_hex draw.raw_refresh;
    expires_at = draw.env.now + settings.refresh_token_expire_days * 86400000000;
    revoked_at = none;
    created_at = draw.env.db_now;
  }

  abbrev pub token_response : Draw → ℕ → TokenResponse
  token_response draw user_id = record {
    access_token = (create_access_token draw.env.now user_id).0;
    refresh_token = draw.raw_refresh;
    user_id = user_id;
    token_type = "bearer";
    expires_in = (create_access_token draw.env.now user_id).1;
  }

  unfoldable pub issue_tokens : Draw → User → M TokenResponse
  issue_tokens draw user = do add (new_token draw user.id); pure (token_response draw user.id)

  unfoldable pub register : Draw → RegisterRequest → M TokenResponse
  register draw body = do
    existing ← select_first (has_email (lower body.email))
    guard (is_none existing) (value_error "Email already registered")
    add (new_user draw.env body)
    issue_tokens draw (new_user draw.env body)

  unfoldable pub login : Draw → LoginRequest → M TokenResponse
  login draw body = do
    found ← select_first (has_email (lower body.email))
    user ← or_raise found (permission_error "Invalid email or auth_hash")
    guard (verify_auth_hash user.auth_hash body.auth_hash)
        (permission_error "Invalid email or auth_hash")
    issue_tokens draw user

  unfoldable pub refresh : Draw → String → M TokenResponse
  refresh draw raw_token = do
    found ← select_first (has_hash (lib.sha256_hex raw_token))
    stored ← or_raise found (permission_error "Invalid or expired refresh token")
    if is_none stored.revoked_at then pure tt else punish_reuse draw.env.now stored
    guard (not (leb stored.expires_at draw.env.now))
        (permission_error "Invalid or expired refresh token")
    save (revoke_at draw.env.now stored)
    found_user ← get_user stored.user_id
    user ← or_raise found_user (permission_error "Invalid or expired refresh token")
    issue_tokens draw user

-- Whether a row belongs to one of the organisations.
abbrev pub in_orgs : List Org → ℕ → Bool
in_orgs orgs org_id = any (λ o. o.id == org_id) orgs

-- `session.delete(user)` with the cascades of app/models/: the vault, the organisations that the
-- user owns with what is in them, the shares that the user made, and the sessions.
unfoldable pub delete_user : ℕ → M (Unit {0})
delete_user i = do
  orgs ← select_all {R = Org} (λ o. o.owner_user_id == i)
  delete_where {R = OrgMember} (λ m. in_orgs orgs m.org_id)
  delete_where {R = OrgCollection} (λ c. in_orgs orgs c.org_id)
  delete_where {R = OrgEntry} (λ e. in_orgs orgs e.org_id)
  delete_where {R = Org} (λ o. o.owner_user_id == i)
  delete_where {R = Collection} (λ c. c.user_id == i)
  delete_where {R = Entry} (λ e. e.user_id == i)
  delete_where {R = Attachment} (λ a. a.user_id == i)
  delete_where {R = Share} (λ s. s.owner_user_id == i)
  delete_where {R = RefreshToken} (λ t. t.user_id == i)
  delete_where {R = User} (λ u. u.id == i)

unfoldable pub delete_account : User → String → M (Unit {0})
delete_account user auth_hash = do
  guard (verify_auth_hash user.auth_hash auth_hash) (permission_error "Invalid auth_hash")
  delete_where {R = OrgMember} (λ m. m.user_id == some user.id)
  delete_where {R = Share} (λ s. s.recipient_user_id == some user.id)
  delete_user user.id
