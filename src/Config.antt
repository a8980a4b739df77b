-- ===== src/Config.antt =====
-- app/config.py: the validators of the settings, and the origins that CORS allows.
pub mod Strip
pub mod Origins
use Prim.Native.Char.{Char, code}
use Prim.Native.String.{◌++◌ as append}
use open_key_server.Base.{
  String, Bool, true, false, not, ◌||◌, List, [], ◌∷◌, ◌⊎◌, inl, inr, Option, none, some, any, ltb,
  ◌==◌, nat_eq, string_eq, if◌then◌else◌,
}
use open_key_server.Text.{strip, lower, is_empty, str_len}

-- `_INSECURE_JWT_SECRETS`
abbrev insecure_jwt_secrets : List String
insecure_jwt_secrets =
    "" ∷ "change-me-to-a-long-random-secret" ∷ "dev-secret" ∷ "secret" ∷ "jwt-secret" ∷ []

abbrev is_insecure : String → Bool
is_insecure secret = any (λ s. s == secret) insecure_jwt_secrets

-- A validator raises a ValueError with the text on the left.
unfoldable pub reject_insecure_jwt_secret : String → String ⊎ String
reject_insecure_jwt_secret value =
    let secret = strip value in
    if is_insecure (lower secret) || is_insecure secret
    then inl
        "JWT_SECRET is missing or uses a known insecure placeholder. Generate one with: openssl rand -hex 32"
    else if ltb (str_len secret) 32
    then inl "JWT_SECRET must be at least 32 characters"
    else inr secret

abbrev pub is_comma : Char → Bool
is_comma c = code c == 44

abbrev pub put_first : Char → List String → List String
put_first c [] = String.◌∷◌ c String.[] ∷ []
put_first c (s ∷ pieces) = String.◌∷◌ c s ∷ pieces

-- `value.split(",")`
unfoldable pub split : String → List String
split String.[] = String.[] ∷ []
split (String.◌∷◌ c s) =
    let pieces = split s in if is_comma c then String.[] ∷ pieces else put_first c pieces

-- `",".join(origins)`
unfoldable pub join : List String → String
join [] = String.[]
join (s ∷ []) = s
join (s ∷ t ∷ pieces) = append s (append "," (join (t ∷ pieces)))

unfoldable pub non_empty : List String → List String
non_empty [] = []
non_empty (s ∷ pieces) =
    let rest = non_empty pieces in if is_empty (strip s) then rest else strip s ∷ rest

-- `[o.strip() for o in value.split(",") if o.strip()]`
abbrev pub cors_origin_list : String → List String
cors_origin_list value = non_empty (split value)

unfoldable pub checked_origins : List String → String ⊎ String
checked_origins [] = inl "CORS_ORIGINS must list at least one origin"
checked_origins (o ∷ origins) =
    if any (λ s. s == "*") (o ∷ origins)
    then inl "CORS_ORIGINS must not include '*'"
    else inr (join (o ∷ origins))

unfoldable pub reject_insecure_cors : String → String ⊎ String
reject_insecure_cors value = checked_origins (cors_origin_list value)

-- The value of `cors_allow_browser_extensions` is the argument.
abbrev pub cors_origin_regex : Bool → Option String
cors_origin_regex false = none
cors_origin_regex true =
    some
      "^chrome-extension://[a-p]{32}$|^moz-extension://[0-9a-fA-F]{8}-[0-9a-fA-F]{4}-[0-9a-fA-F]{4}-[0-9a-fA-F]{4}-[0-9a-fA-F]{12}$"
