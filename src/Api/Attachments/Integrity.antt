-- ===== src/Api/Attachments/Integrity.antt =====
-- The endpoints of app/api/attachments.py and the constraints of the database.
use open_key_server.Base.{String}
use open_key_server.Models.Account.{User}
use open_key_server.Orm.Integrity.{IsConsistent, write_rules}
use open_key_server.Orm.Keeps.{Keeps, keeps_rules}
use open_key_server.Api.Request.{Env}
use open_key_server.Api.Attachments.{
  Upload, list_attachments, create_attachment, get_attachment, download_attachment_content,
  delete_attachment,
}

ruleset rules = (keeps_rules, write_rules)

module _ (user : User) where
  pub list-Keeps : Keeps IsConsistent (list_attachments user)
  unfolding list_attachments
  list-Keeps = search rules

  pub get-Keeps : (uuid : String) → Keeps IsConsistent (get_attachment user uuid)
  unfolding get_attachment
  get-Keeps uuid = search rules

  pub download-Keeps : (uuid : String) → Keeps IsConsistent (download_attachment_content user uuid)
  unfolding download_attachment_content
  download-Keeps uuid = search rules

  module _ (env : Env) where
    pub create-Keeps : (form : Upload) → Keeps IsConsistent (create_attachment env user form)
    unfolding create_attachment
    create-Keeps form = search rules depth 16

    pub delete-Keeps : (uuid : String) → Keeps IsConsistent (delete_attachment env user uuid)
    unfolding delete_attachment
    delete-Keeps uuid = search rules depth 16
