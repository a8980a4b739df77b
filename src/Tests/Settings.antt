-- ===== src/Tests/Settings.antt =====
-- Tests of Config: app/config.py on small values.
use open_key_server.Base.{◌≡◌, refl, false, inr, any, All}
use open_key_server.Config.{
  reject_insecure_jwt_secret, cors_origin_list, split, join, non_empty, reject_insecure_cors,
  checked_origins,
}
use open_key_server.Config.Origins.{IsOrigin, is_star, reject_insecure_cors-cors_origin_list}
use open_key_server.Text.{strip, lower}

padded_secret :
    reject_insecure_jwt_secret " 0123456789abcdef0123456789abcdef "
    ≡ inr "0123456789abcdef0123456789abcdef"
unfolding reject_insecure_jwt_secret strip lower any
padded_secret = refl

reject_insecure_cors-cors_origin_list_example :
    (cors_origin_list "http://a,http://b" ≡ cors_origin_list " http://a,, http://b ")
    × All IsOrigin (cors_origin_list "http://a,http://b")
    × (any is_star (cors_origin_list "http://a,http://b") ≡ false)
    × (reject_insecure_cors "http://a,http://b" ≡ inr "http://a,http://b")
unfolding reject_insecure_cors checked_origins split join non_empty strip any
reject_insecure_cors-cors_origin_list_example =
    reject_insecure_cors-cors_origin_list " http://a,, http://b " "http://a,http://b" refl
