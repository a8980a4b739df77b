-- ===== src/Orm/Keys.antt =====
-- The unique keys by which the endpoints find rows.
use open_key_server.Base.{ℕ, String, ◌≡◌, Bool, true, ◌&&◌, ◌==◌, nat_eq, string_eq, eq_iff, arith}
use open_key_server.Models.Account.{User, RefreshToken}
use open_key_server.Models.Orgs.{Org, OrgMember, OrgCollection, OrgEntry}
use open_key_server.Models.Shares.{Share}
use open_key_server.Models.Vault.{Collection, Entry, Attachment}
use open_key_server.Orm.Schema.{
  user_table, refresh_token_table, collection_table, entry_table, attachment_table, org_table,
  org_member_table, org_collection_table, org_entry_table, share_table, user_clash,
  refresh_token_clash, collection_clash, entry_clash, attachment_clash, org_clash, org_member_clash,
  org_collection_clash, org_entry_clash, share_clash,
}
use open_key_server.Orm.Effects.{Keyed}

module _ (j : ℕ × String) where
  abbrev pub collection_hits : Collection → Bool
  collection_hits c = c.user_id == j.0 && c.uuid == j.1

  pub collection_clash_of_hits :
      (a b : Collection)
      → collection_hits a ≡ true
      → collection_hits b ≡ true
      → collection_clash a b ≡ true
  collection_clash_of_hits a b h i =
      ground (arith, eq_iff a.uuid j.1, eq_iff b.uuid j.1, eq_iff a.uuid b.uuid)

pub collection_inj :
    (i j : ℕ × String) (r : Collection)
    → collection_hits i r ≡ true
    → collection_hits j r ≡ true
    → i ≡ j
collection_inj i j r h g = ground (arith, eq_iff r.uuid i.1, eq_iff r.uuid j.1)

abbrev pub collection_key : Keyed collection_table (ℕ × String)
collection_key = record {
  hits = collection_hits;
  clash_of_hits = collection_clash_of_hits;
  hits_inj = collection_inj;
}

module _ (j : ℕ × String) where
  abbrev pub entry_hits : Entry → Bool
  entry_hits c = c.user_id == j.0 && c.uuid == j.1

  pub entry_clash_of_hits :
      (a b : Entry) → entry_hits a ≡ true → entry_hits b ≡ true → entry_clash a b ≡ true
  entry_clash_of_hits a b h i =
      ground (arith, eq_iff a.uuid j.1, eq_iff b.uuid j.1, eq_iff a.uuid b.uuid)

pub entry_inj :
    (i j : ℕ × String) (r : Entry) → entry_hits i r ≡ true → entry_hits j r ≡ true → i ≡ j
entry_inj i j r h g = ground (arith, eq_iff r.uuid i.1, eq_iff r.uuid j.1)

abbrev pub entry_key : Keyed entry_table (ℕ × String)
entry_key = record { hits = entry_hits; clash_of_hits = entry_clash_of_hits; hits_inj = entry_inj }

module _ (j : ℕ × String) where
  abbrev pub attachment_hits : Attachment → Bool
  attachment_hits c = c.user_id == j.0 && c.uuid == j.1

  pub attachment_clash_of_hits :
      (a b : Attachment)
      → attachment_hits a ≡ true
      → attachment_hits b ≡ true
      → attachment_clash a b ≡ true
  attachment_clash_of_hits a b h i =
      ground (arith, eq_iff a.uuid j.1, eq_iff b.uuid j.1, eq_iff a.uuid b.uuid)

pub attachment_inj :
    (i j : ℕ × String) (r : Attachment)
    → attachment_hits i r ≡ true
    → attachment_hits j r ≡ true
    → i ≡ j
attachment_inj i j r h g = ground (arith, eq_iff r.uuid i.1, eq_iff r.uuid j.1)

abbrev pub attachment_key : Keyed attachment_table (ℕ × String)
attachment_key = record {
  hits = attachment_hits;
  clash_of_hits = attachment_clash_of_hits;
  hits_inj = attachment_inj;
}

module _ (j : ℕ × String) where
  abbrev pub org_collection_hits : OrgCollection → Bool
  org_collection_hits c = c.org_id == j.0 && c.uuid == j.1

  pub org_collection_clash_of_hits :
      (a b : OrgCollection)
      → org_collection_hits a ≡ true
      → org_collection_hits b ≡ true
      → org_collection_clash a b ≡ true
  org_collection_clash_of_hits a b h i =
      ground (arith, eq_iff a.uuid j.1, eq_iff b.uuid j.1, eq_iff a.uuid b.uuid)

pub org_collection_inj :
    (i j : ℕ × String) (r : OrgCollection)
    → org_collection_hits i r ≡ true
    → org_collection_hits j r ≡ true
    → i ≡ j
org_collection_inj i j r h g = ground (arith, eq_iff r.uuid i.1, eq_iff r.uuid j.1)

abbrev pub org_collection_key : Keyed org_collection_table (ℕ × String)
org_collection_key = record {
  hits = org_collection_hits;
  clash_of_hits = org_collection_clash_of_hits;
  hits_inj = org_collection_inj;
}

module _ (j : ℕ × String) where
  abbrev pub org_entry_hits : OrgEntry → Bool
  org_entry_hits c = c.org_id == j.0 && c.uuid == j.1

  pub org_entry_clash_of_hits :
      (a b : OrgEntry)
      → org_entry_hits a ≡ true
      → org_entry_hits b ≡ true
      → org_entry_clash a b ≡ true
  org_entry_clash_of_hits a b h i =
      ground (arith, eq_iff a.uuid j.1, eq_iff b.uuid j.1, eq_iff a.uuid b.uuid)

pub org_entry_inj :
    (i j : ℕ × String) (r : OrgEntry)
    → org_entry_hits i r ≡ true
    → org_entry_hits j r ≡ true
    → i ≡ j
org_entry_inj i j r h g = ground (arith, eq_iff r.uuid i.1, eq_iff r.uuid j.1)

abbrev pub org_entry_key : Keyed org_entry_table (ℕ × String)
org_entry_key = record {
  hits = org_entry_hits;
  clash_of_hits = org_entry_clash_of_hits;
  hits_inj = org_entry_inj;
}

module _ (j : String) where
  abbrev pub org_hits : Org → Bool
  org_hits c = c.uuid == j

  pub org_clash_of_hits : (a b : Org) → org_hits a ≡ true → org_hits b ≡ true → org_clash a b ≡ true
  org_clash_of_hits a b h i = ground (arith, eq_iff a.uuid j, eq_iff b.uuid j, eq_iff a.uuid b.uuid)

pub org_inj : (i j : String) (r : Org) → org_hits i r ≡ true → org_hits j r ≡ true → i ≡ j
org_inj i j r h g = ground (arith, eq_iff r.uuid i, eq_iff r.uuid j)

abbrev pub org_key : Keyed org_table String
org_key = record { hits = org_hits; clash_of_hits = org_clash_of_hits; hits_inj = org_inj }

module _ (j : String) where
  abbrev pub share_hits : Share → Bool
  share_hits c = c.uuid == j

  pub share_clash_of_hits :
      (a b : Share) → share_hits a ≡ true → share_hits b ≡ true → share_clash a b ≡ true
  share_clash_of_hits a b h i =
      ground (arith, eq_iff a.uuid j, eq_iff b.uuid j, eq_iff a.uuid b.uuid)

pub share_inj : (i j : String) (r : Share) → share_hits i r ≡ true → share_hits j r ≡ true → i ≡ j
share_inj i j r h g = ground (arith, eq_iff r.uuid i, eq_iff r.uuid j)

abbrev pub share_key : Keyed share_table String
share_key = record { hits = share_hits; clash_of_hits = share_clash_of_hits; hits_inj = share_inj }

module _ (j : String) where
  abbrev pub email_hits : User → Bool
  email_hits c = c.email == j

  pub email_clash_of_hits :
      (a b : User) → email_hits a ≡ true → email_hits b ≡ true → user_clash a b ≡ true
  email_clash_of_hits a b h i =
      ground (arith, eq_iff a.email j, eq_iff b.email j, eq_iff a.email b.email)

pub email_inj : (i j : String) (r : User) → email_hits i r ≡ true → email_hits j r ≡ true → i ≡ j
email_inj i j r h g = ground (arith, eq_iff r.email i, eq_iff r.email j)

abbrev pub email_key : Keyed user_table String
email_key = record { hits = email_hits; clash_of_hits = email_clash_of_hits; hits_inj = email_inj }

module _ (j : String) where
  abbrev pub token_hash_hits : RefreshToken → Bool
  token_hash_hits c = c.token_hash == j

  pub token_hash_clash_of_hits :
      (a b : RefreshToken)
      → token_hash_hits a ≡ true
      → token_hash_hits b ≡ true
      → refresh_token_clash a b ≡ true
  token_hash_clash_of_hits a b h i =
      ground (arith, eq_iff a.token_hash j, eq_iff b.token_hash j, eq_iff a.token_hash b.token_hash)

pub token_hash_inj :
    (i j : String) (r : RefreshToken)
    → token_hash_hits i r ≡ true
    → token_hash_hits j r ≡ true
    → i ≡ j
token_hash_inj i j r h g = ground (arith, eq_iff r.token_hash i, eq_iff r.token_hash j)

abbrev pub token_hash_key : Keyed refresh_token_table String
token_hash_key = record {
  hits = token_hash_hits;
  clash_of_hits = token_hash_clash_of_hits;
  hits_inj = token_hash_inj;
}

module _ (j : ℕ) where
  abbrev pub user_id_hits : User → Bool
  user_id_hits c = c.id == j

  pub user_id_clash_of_hits :
      (a b : User) → user_id_hits a ≡ true → user_id_hits b ≡ true → user_clash a b ≡ true
  user_id_clash_of_hits a b h i = ground arith

pub user_id_inj : (i j : ℕ) (r : User) → user_id_hits i r ≡ true → user_id_hits j r ≡ true → i ≡ j
user_id_inj i j r h g = ground arith

abbrev pub user_id : Keyed user_table ℕ
user_id = record {
  hits = user_id_hits;
  clash_of_hits = user_id_clash_of_hits;
  hits_inj = user_id_inj;
}

module _ (j : ℕ) where
  abbrev pub org_member_id_hits : OrgMember → Bool
  org_member_id_hits c = c.id == j

  pub org_member_id_clash_of_hits :
      (a b : OrgMember)
      → org_member_id_hits a ≡ true
      → org_member_id_hits b ≡ true
      → org_member_clash a b ≡ true
  org_member_id_clash_of_hits a b h i = ground arith

pub org_member_id_inj :
    (i j : ℕ) (r : OrgMember)
    → org_member_id_hits i r ≡ true
    → org_member_id_hits j r ≡ true
    → i ≡ j
org_member_id_inj i j r h g = ground arith

abbrev pub org_member_id : Keyed org_member_table ℕ
org_member_id = record {
  hits = org_member_id_hits;
  clash_of_hits = org_member_id_clash_of_hits;
  hits_inj = org_member_id_inj;
}
