-- ===== src/Api/Auth/Integrity.antt =====
-- The endpoints of app/api/auth.py and the constraints of the database.
use open_key_server.Base.{ℕ, String, refl, Option, none, some}
use open_key_server.Models.Account.{User, RefreshToken}
use open_key_server.Orm.Integrity.{
  IsConsistent, write_rules, update_where-Constrains, refresh_token_keys,
}
use open_key_server.Orm.Schema.{refresh_token_table}
use open_key_server.Orm.Keeps.{Keeps, keeps_rules}
use open_key_server.Schemas.Auth.{RegisterRequest, LoginRequest, KeysUpdateRequest, RekeyRequest}
use open_key_server.Services.Auth
use open_key_server.Services.Auth.{
  Library, Settings, Draw, revoke_all_refresh_tokens, get_user, issue_tokens, punish_reuse,
  delete_user, is_live, revoke_at, revoke_live,
}
use open_key_server.Api.Request.{Env}
use open_key_server.Api.Auth.{
  register, login, refresh, prelogin, logout, delete_account, update_keys, rekey, lookup_public_key,
}

ruleset rules = (keeps_rules, write_rules)

revoke_all-Keeps : (i now : ℕ) → Keeps IsConsistent (revoke_all_refresh_tokens i now)
unfolding revoke_all_refresh_tokens
revoke_all-Keeps i now =
    update_where-Constrains refresh_token_keys (is_live i) (revoke_at now) (λ a b. refl)
      (λ a b. refl)

get_user-Keeps : (i : ℕ) → Keeps IsConsistent (get_user i)
unfolding get_user
get_user-Keeps i = search rules

punish_reuse-Keeps : (now : ℕ) (t : RefreshToken) → Keeps IsConsistent (punish_reuse now t)
unfolding punish_reuse
punish_reuse-Keeps now t = search (rules, revoke_all-Keeps) depth 12

delete_user-Keeps : (i : ℕ) → Keeps IsConsistent (delete_user i)
unfolding delete_user
delete_user-Keeps i = search rules depth 30

pub delete_account-Keeps :
    (user : User) (hash : String) → Keeps IsConsistent (delete_account user hash)
unfolding delete_account Auth.delete_account
delete_account-Keeps user hash = search (rules, delete_user-Keeps) depth 20

pub prelogin-Keeps : (email : String) → Keeps IsConsistent (prelogin email)
unfolding prelogin Auth.prelogin
prelogin-Keeps email = search rules depth 12

pub lookup_public_key-Keeps : (email : String) → Keeps IsConsistent (lookup_public_key email)
unfolding lookup_public_key
lookup_public_key-Keeps email = search rules depth 12

revoke_live-Keeps : (env : Env) (t : Option RefreshToken) → Keeps IsConsistent (revoke_live env t)
unfolding revoke_live
revoke_live-Keeps env none = search rules
revoke_live-Keeps env (some t) = search rules depth 12

pub logout-Keeps :
    (lib : Library) (env : Env) (raw : String) → Keeps IsConsistent (logout lib env raw)
unfolding logout Auth.revoke_refresh_token
logout-Keeps lib env raw = search (rules, revoke_live-Keeps) depth 16

module _ (env : Env) (user : User) where
  pub update_keys-Keeps :
      (body : KeysUpdateRequest) → Keeps IsConsistent (update_keys env user body)
  unfolding update_keys
  update_keys-Keeps body = search rules depth 12

  pub rekey-Keeps : (body : RekeyRequest) → Keeps IsConsistent (rekey env user body)
  unfolding rekey Auth.rekey
  rekey-Keeps body = search (rules, revoke_all-Keeps) depth 20

module _ (lib : Library) (settings : Settings) (draw : Draw) where
  issue_tokens-Keeps : (user : User) → Keeps IsConsistent (issue_tokens lib settings draw user)
  unfolding issue_tokens
  issue_tokens-Keeps user = search rules depth 12

  pub register-Keeps :
      (body : RegisterRequest) → Keeps IsConsistent (register lib settings draw body)
  unfolding register Auth.register
  register-Keeps body = search (rules, issue_tokens-Keeps) depth 20

  pub login-Keeps : (body : LoginRequest) → Keeps IsConsistent (login lib settings draw body)
  unfolding login Auth.login
  login-Keeps body = search (rules, issue_tokens-Keeps) depth 20

  pub refresh-Keeps : (raw : String) → Keeps IsConsistent (refresh lib settings draw raw)
  unfolding refresh Auth.refresh
  refresh-Keeps raw =
      search (rules, issue_tokens-Keeps, punish_reuse-Keeps, get_user-Keeps) depth 24
