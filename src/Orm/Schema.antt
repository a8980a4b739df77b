-- ===== src/Orm/Schema.antt =====
-- The tables of app/models/, with the unique constraints and column types declared there.
use open_key_server.Base.{
  ℕ, ◌≡◌, refl, Bool, true, false, ◌&&◌, ◌||◌, Option, none, some, arith, ◌==◌, nat_eq, string_eq,
  eq_iff,
}
use open_key_server.Base.Int.{ℤ, pos, fits_int4, fits_int8}
use open_key_server.Models.Account.{User, RefreshToken}
use open_key_server.Models.Vault.{Collection, Entry, Attachment}
use open_key_server.Models.Orgs.{Org, OrgMember, OrgCollection, OrgEntry}
use open_key_server.Models.Shares.{Share}
use open_key_server.Orm.Tables.{Table}

-- NULLs are distinct under a unique constraint.
abbrev pub same_value : Option ℕ → Option ℕ → Bool
same_value (some a) (some b) = a == b
same_value _ _ = false

abbrev pub fits_optional : Option ℤ → Bool
fits_optional none = true
fits_optional (some n) = fits_int8 n

abbrev pub user_clash : User → User → Bool
user_clash a b = a.id == b.id || a.email == b.email

pub user_clash_comm : (a b : User) → user_clash a b ≡ user_clash b a
user_clash_comm a b = ground (arith, eq_iff a.email b.email, eq_iff b.email a.email)

pub user_clash_of_id : (a b : User) → a.id ≡ b.id → user_clash a b ≡ true
user_clash_of_id a b h = ground arith

instance abbrev pub user_table : Table User
user_table = record {
  id = λ r. r.id;
  clash = user_clash;
  fits = λ _. true;
  rows = λ d. d.users;
  with_rows = λ xs d. record d { users = xs };
  clash_of_id = user_clash_of_id;
  clash_comm = user_clash_comm;
  rows-with_rows = λ xs d. refl;
  with_rows-rows = λ d. refl;
  with_rows-with_rows = λ xs ys d. refl;
}

abbrev pub refresh_token_clash : RefreshToken → RefreshToken → Bool
refresh_token_clash a b = a.id == b.id || a.token_hash == b.token_hash

pub refresh_token_clash_comm :
    (a b : RefreshToken) → refresh_token_clash a b ≡ refresh_token_clash b a
refresh_token_clash_comm a b =
    ground (arith, eq_iff a.token_hash b.token_hash, eq_iff b.token_hash a.token_hash)

pub refresh_token_clash_of_id : (a b : RefreshToken) → a.id ≡ b.id → refresh_token_clash a b ≡ true
refresh_token_clash_of_id a b h = ground arith

instance abbrev pub refresh_token_table : Table RefreshToken
refresh_token_table = record {
  id = λ r. r.id;
  clash = refresh_token_clash;
  fits = λ _. true;
  rows = λ d. d.refresh_tokens;
  with_rows = λ xs d. record d { refresh_tokens = xs };
  clash_of_id = refresh_token_clash_of_id;
  clash_comm = refresh_token_clash_comm;
  rows-with_rows = λ xs d. refl;
  with_rows-rows = λ d. refl;
  with_rows-with_rows = λ xs ys d. refl;
}

abbrev pub collection_clash : Collection → Collection → Bool
collection_clash a b = a.id == b.id || (a.user_id == b.user_id && a.uuid == b.uuid)

pub collection_clash_comm : (a b : Collection) → collection_clash a b ≡ collection_clash b a
collection_clash_comm a b = ground (arith, eq_iff a.uuid b.uuid, eq_iff b.uuid a.uuid)

pub collection_clash_of_id : (a b : Collection) → a.id ≡ b.id → collection_clash a b ≡ true
collection_clash_of_id a b h = ground arith

instance abbrev pub collection_table : Table Collection
collection_table = record {
  id = λ r. r.id;
  clash = collection_clash;
  fits = λ r. fits_int4 (pos r.revision) && fits_int4 r.sort_order && fits_optional r.color;
  rows = λ d. d.collections;
  with_rows = λ xs d. record d { collections = xs };
  clash_of_id = collection_clash_of_id;
  clash_comm = collection_clash_comm;
  rows-with_rows = λ xs d. refl;
  with_rows-rows = λ d. refl;
  with_rows-with_rows = λ xs ys d. refl;
}

abbrev pub entry_clash : Entry → Entry → Bool
entry_clash a b = a.id == b.id || (a.user_id == b.user_id && a.uuid == b.uuid)

pub entry_clash_comm : (a b : Entry) → entry_clash a b ≡ entry_clash b a
entry_clash_comm a b = ground (arith, eq_iff a.uuid b.uuid, eq_iff b.uuid a.uuid)

pub entry_clash_of_id : (a b : Entry) → a.id ≡ b.id → entry_clash a b ≡ true
entry_clash_of_id a b h = ground arith

instance abbrev pub entry_table : Table Entry
entry_table = record {
  id = λ r. r.id;
  clash = entry_clash;
  fits = λ r. fits_int4 (pos r.revision);
  rows = λ d. d.entries;
  with_rows = λ xs d. record d { entries = xs };
  clash_of_id = entry_clash_of_id;
  clash_comm = entry_clash_comm;
  rows-with_rows = λ xs d. refl;
  with_rows-rows = λ d. refl;
  with_rows-with_rows = λ xs ys d. refl;
}

abbrev pub attachment_clash : Attachment → Attachment → Bool
attachment_clash a b = a.id == b.id || (a.user_id == b.user_id && a.uuid == b.uuid)

pub attachment_clash_comm : (a b : Attachment) → attachment_clash a b ≡ attachment_clash b a
attachment_clash_comm a b = ground (arith, eq_iff a.uuid b.uuid, eq_iff b.uuid a.uuid)

pub attachment_clash_of_id : (a b : Attachment) → a.id ≡ b.id → attachment_clash a b ≡ true
attachment_clash_of_id a b h = ground arith

instance abbrev pub attachment_table : Table Attachment
attachment_table = record {
  id = λ r. r.id;
  clash = attachment_clash;
  fits = λ r. fits_int4 (pos r.revision) && fits_int8 (pos r.size_bytes);
  rows = λ d. d.attachments;
  with_rows = λ xs d. record d { attachments = xs };
  clash_of_id = attachment_clash_of_id;
  clash_comm = attachment_clash_comm;
  rows-with_rows = λ xs d. refl;
  with_rows-rows = λ d. refl;
  with_rows-with_rows = λ xs ys d. refl;
}

abbrev pub org_clash : Org → Org → Bool
org_clash a b = a.id == b.id || a.uuid == b.uuid

pub org_clash_comm : (a b : Org) → org_clash a b ≡ org_clash b a
org_clash_comm a b = ground (arith, eq_iff a.uuid b.uuid, eq_iff b.uuid a.uuid)

pub org_clash_of_id : (a b : Org) → a.id ≡ b.id → org_clash a b ≡ true
org_clash_of_id a b h = ground arith

instance abbrev pub org_table : Table Org
org_table = record {
  id = λ r. r.id;
  clash = org_clash;
  fits = λ r. fits_int4 (pos r.revision);
  rows = λ d. d.orgs;
  with_rows = λ xs d. record d { orgs = xs };
  clash_of_id = org_clash_of_id;
  clash_comm = org_clash_comm;
  rows-with_rows = λ xs d. refl;
  with_rows-rows = λ d. refl;
  with_rows-with_rows = λ xs ys d. refl;
}

abbrev pub org_member_clash : OrgMember → OrgMember → Bool
org_member_clash a b = a.id == b.id || (a.org_id == b.org_id && same_value a.user_id b.user_id)

pub org_member_clash_comm : (a b : OrgMember) → org_member_clash a b ≡ org_member_clash b a
org_member_clash_comm a b = ground (arith)

pub org_member_clash_of_id : (a b : OrgMember) → a.id ≡ b.id → org_member_clash a b ≡ true
org_member_clash_of_id a b h = ground arith

instance abbrev pub org_member_table : Table OrgMember
org_member_table = record {
  id = λ r. r.id;
  clash = org_member_clash;
  fits = λ r. fits_int4 (pos r.revision);
  rows = λ d. d.org_members;
  with_rows = λ xs d. record d { org_members = xs };
  clash_of_id = org_member_clash_of_id;
  clash_comm = org_member_clash_comm;
  rows-with_rows = λ xs d. refl;
  with_rows-rows = λ d. refl;
  with_rows-with_rows = λ xs ys d. refl;
}

abbrev pub org_collection_clash : OrgCollection → OrgCollection → Bool
org_collection_clash a b = a.id == b.id || (a.org_id == b.org_id && a.uuid == b.uuid)

pub org_collection_clash_comm :
    (a b : OrgCollection) → org_collection_clash a b ≡ org_collection_clash b a
org_collection_clash_comm a b = ground (arith, eq_iff a.uuid b.uuid, eq_iff b.uuid a.uuid)

pub org_collection_clash_of_id :
    (a b : OrgCollection) → a.id ≡ b.id → org_collection_clash a b ≡ true
org_collection_clash_of_id a b h = ground arith

instance abbrev pub org_collection_table : Table OrgCollection
org_collection_table = record {
  id = λ r. r.id;
  clash = org_collection_clash;
  fits = λ r. fits_int4 (pos r.revision);
  rows = λ d. d.org_collections;
  with_rows = λ xs d. record d { org_collections = xs };
  clash_of_id = org_collection_clash_of_id;
  clash_comm = org_collection_clash_comm;
  rows-with_rows = λ xs d. refl;
  with_rows-rows = λ d. refl;
  with_rows-with_rows = λ xs ys d. refl;
}

abbrev pub org_entry_clash : OrgEntry → OrgEntry → Bool
org_entry_clash a b = a.id == b.id || (a.org_id == b.org_id && a.uuid == b.uuid)

pub org_entry_clash_comm : (a b : OrgEntry) → org_entry_clash a b ≡ org_entry_clash b a
org_entry_clash_comm a b = ground (arith, eq_iff a.uuid b.uuid, eq_iff b.uuid a.uuid)

pub org_entry_clash_of_id : (a b : OrgEntry) → a.id ≡ b.id → org_entry_clash a b ≡ true
org_entry_clash_of_id a b h = ground arith

instance abbrev pub org_entry_table : Table OrgEntry
org_entry_table = record {
  id = λ r. r.id;
  clash = org_entry_clash;
  fits = λ r. fits_int4 (pos r.revision);
  rows = λ d. d.org_entries;
  with_rows = λ xs d. record d { org_entries = xs };
  clash_of_id = org_entry_clash_of_id;
  clash_comm = org_entry_clash_comm;
  rows-with_rows = λ xs d. refl;
  with_rows-rows = λ d. refl;
  with_rows-with_rows = λ xs ys d. refl;
}

abbrev pub share_clash : Share → Share → Bool
share_clash a b = a.id == b.id || a.uuid == b.uuid

pub share_clash_comm : (a b : Share) → share_clash a b ≡ share_clash b a
share_clash_comm a b = ground (arith, eq_iff a.uuid b.uuid, eq_iff b.uuid a.uuid)

pub share_clash_of_id : (a b : Share) → a.id ≡ b.id → share_clash a b ≡ true
share_clash_of_id a b h = ground arith

instance abbrev pub share_table : Table Share
share_table = record {
  id = λ r. r.id;
  clash = share_clash;
  fits = λ r. fits_int4 (pos r.revision);
  rows = λ d. d.shares;
  with_rows = λ xs d. record d { shares = xs };
  clash_of_id = share_clash_of_id;
  clash_comm = share_clash_comm;
  rows-with_rows = λ xs d. refl;
  with_rows-rows = λ d. refl;
  with_rows-with_rows = λ xs ys d. refl;
}
