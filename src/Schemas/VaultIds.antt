-- ===== src/Schemas/VaultIds.antt =====
-- app/schemas/vault_ids.py
use open_key_server.Base.{ℕ, String, Bool, ◌||◌, Option, none, some, ◌==◌, string_eq, if◌then◌else◌}
use open_key_server.Text.{strip}

abbrev pub max_collection_icon_chars : ℕ
max_collection_icon_chars = 400_000

unfoldable pub is_root_sentinel : String → Bool
is_root_sentinel s = s == "" || s == "__root__" || s == "null"

unfoldable pub normalize_folder_id : Option String → Option String
unfolding is_root_sentinel
normalize_folder_id none = none
normalize_folder_id (some value) =
    let trimmed = strip value in if is_root_sentinel trimmed then none else some trimmed
