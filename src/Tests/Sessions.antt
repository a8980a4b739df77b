-- ===== src/Tests/Sessions.antt =====
-- Accounts and sessions on concrete requests.
use open_key_server.Base.{
  arith, ◌≡◌, ◌≢◌, refl, ap, inr, true, false, none, some, find, any, ◌==◌, nat_eq, string_eq,
}
use open_key_server.Models.{Db}
use open_key_server.Orm.Rows.{replace}
use open_key_server.Orm.Session.{ok, err, http, get_db, start}
use open_key_server.Orm.Tables.{select_first, add, save}
use open_key_server.Schemas.Auth.{RegisterRequest, LoginRequest, RekeyRequest}
use open_key_server.Services.Auth
use open_key_server.Services.Auth.{
  is_live, issue_tokens, get_user, create_access_token, token_response, verify_auth_hash,
  normalize_auth_hash, to_seconds,
}
use open_key_server.Services.Auth.Issue.{Opened}
use open_key_server.Text.{lower, strip, show}
use open_key_server.Api.Auth.{refresh, login, register, rekey, delete_account}
use open_key_server.Api.Auth.Refresh.{bad_token}
use open_key_server.Api.Auth.Rotation.{Refreshed, refresh-Refreshed}
use open_key_server.Api.Auth.Reuse.{refresh-refresh}
use open_key_server.Api.Auth.Accounts.{
  IsSound, payload, get_current_user-create, IsStranger, login-rejects, register-login,
}
use open_key_server.Api.Auth.Rekey.{Rekeyed, rekey-Rekeyed}
use open_key_server.Api.Auth.Deletion.{Deleted, delete_account-Deleted}
use open_key_server.Api.Deps.{get_current_user}
use open_key_server.Tests.Data.{
  env, settings, library, first_draw, second_draw, ada, seed, seed-IsConsistent,
}

abbrev after_refresh : Db
after_refresh = (get_db (refresh library settings first_draw "first token") seed).1

first_refresh :
    get_db (refresh library settings first_draw "first token") seed
    ≡ (ok (token_response library settings first_draw 1), after_refresh)
unfolding refresh Auth.refresh get_db select_first save add get_user issue_tokens find any replace
first_refresh = refl

fresh_hash : library.sha256_hex first_draw.raw_refresh ≢ library.sha256_hex "first token"
fresh_hash e = let bad : false ≡ true = ap (λ s. s == "first token") e in ground arith

refresh-refresh_example :
    ((get_db (refresh library settings second_draw "first token") after_refresh).0 ≡ err bad_token)
    × (any
          (is_live 1)
          (get_db
            (refresh library settings second_draw "first token")
            after_refresh).1.refresh_tokens
        ≡ false)
refresh-refresh_example =
    refresh-refresh library settings first_draw second_draw "first token" seed after_refresh
      (token_response library settings first_draw 1) seed-IsConsistent fresh_hash first_refresh

refresh-Refreshed_example :
    Refreshed library settings first_draw "first token" seed
      (get_db (refresh library settings first_draw "first token") seed)
refresh-Refreshed_example =
    refresh-Refreshed library settings first_draw "first token" seed seed-IsConsistent

abbrev eve : RegisterRequest
eve = record {
  email = "Eve@x.org";
  auth_hash = "ZXZl";
  encrypted_vault_key = "k";
  kdf_params = "{}";
  salt = "s";
  public_key = none;
}

abbrev eve_again : LoginRequest
eve_again = record { email = "eve@X.org"; auth_hash = "ZXZl=" }

abbrev after_register : Db
after_register = (get_db (register library settings first_draw eve) seed).1

registered :
    get_db (register library settings first_draw eve) seed
    ≡ (ok (token_response library settings first_draw 50), after_register)
unfolding register Auth.register get_db select_first add issue_tokens find any lower
registered = refl

same_address : lower eve_again.email ≡ lower eve.email
unfolding lower
same_address = refl

same_hash : verify_auth_hash eve.auth_hash eve_again.auth_hash ≡ true
unfolding verify_auth_hash normalize_auth_hash strip
same_hash = refl

register-login_example :
    Opened library settings second_draw 50
      (start after_register)
      (Auth.login library settings second_draw eve_again (start after_register))
register-login_example =
    register-login library settings first_draw eve seed second_draw
      (token_response library settings first_draw 50) after_register eve_again seed-IsConsistent
      registered same_address same_hash

abbrev wrong_login : LoginRequest
wrong_login = record { email = "Ada@x.org"; auth_hash = "wrong" }

stranger : IsStranger library settings first_draw wrong_login seed
unfolding IsStranger verify_auth_hash normalize_auth_hash strip lower find
stranger = inr (ada, refl, refl)

login-rejects_example :
    get_db (login library settings first_draw wrong_login) seed
    ≡ (err (http 401 "Invalid email or auth_hash"), seed)
login-rejects_example = login-rejects library settings first_draw wrong_login seed stranger

sound : IsSound library settings (payload library settings 2000000 1) 1
unfolding show
sound = record {
  jwt-roundtrip = λ now early late. ground (arith, early, late);
  uuid-roundtrip = refl;
  uuid-not_empty = refl;
}

bearer : lower "Bearer" ≡ "bearer"
unfolding lower
bearer = refl

ada_there : find (λ u. u.id == 1) seed.users ≡ some ada
unfolding find
ada_there = refl

get_current_user-create_example :
    get_current_user library settings env
      (some (record {
        scheme = "Bearer";
        credentials = (create_access_token library settings 2000000 1).0;
      }))
      (start seed)
    ≡ (ok ada, start seed)
get_current_user-create_example =
    get_current_user-create library settings 2000000 env ada "Bearer" seed sound (omega arith)
      (omega arith) bearer ada_there

abbrev new_keys : RekeyRequest
new_keys = record {
  current_auth_hash = "aGFzaA";
  auth_hash = "bmV3";
  encrypted_vault_key = "k2";
  salt = none;
  kdf_params = none;
}

rekey-Rekeyed_example : Rekeyed env ada new_keys seed (get_db (rekey env ada new_keys) seed)
rekey-Rekeyed_example = rekey-Rekeyed env ada new_keys seed seed-IsConsistent ada_there

delete_account-Deleted_example :
    Deleted ada "aGFzaA" seed (get_db (delete_account ada "aGFzaA") seed)
delete_account-Deleted_example = delete_account-Deleted ada "aGFzaA" seed
