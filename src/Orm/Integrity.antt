-- ===== src/Orm/Integrity.antt =====
-- The unique constraints of every table, and what each write does to them.
use open_key_server.Base.{◌≡◌, Bool, List, inl, inr, Bool-cases, any}
use open_key_server.Models.{Db}
use open_key_server.Orm.Rows
use open_key_server.Orm.Rows.{IsKeyed, clash_other}
use open_key_server.Orm.Tables.{Table, add, save, delete_where, update_where}
use open_key_server.Orm.Schema.{
  user_table, refresh_token_table, collection_table, entry_table, attachment_table, org_table,
  org_member_table, org_collection_table, org_entry_table, share_table,
}
use open_key_server.Orm.Keeps.{Keeps}

abbrev pub HasKeys : {R : Type 0} → Table R → Db → Type 0
HasKeys t d = IsKeyed t.id t.clash (t.rows d)

pub record IsConsistent (d : Db) : Type 0 where
  pub users_keys : HasKeys user_table d
  pub refresh_tokens_keys : HasKeys refresh_token_table d
  pub collections_keys : HasKeys collection_table d
  pub entries_keys : HasKeys entry_table d
  pub attachments_keys : HasKeys attachment_table d
  pub orgs_keys : HasKeys org_table d
  pub org_members_keys : HasKeys org_member_table d
  pub org_collections_keys : HasKeys org_collection_table d
  pub org_entries_keys : HasKeys org_entry_table d
  pub shares_keys : HasKeys share_table d

-- A predicate of the database that a table's rows enter only by their keys.
pub record Constrains {R : Type 0} (t : Table R) (P : Db → Type 0) : Type 0 where
  pub keys : (d : Db) → P d → HasKeys t d
  pub rekeyed : (xs : List R) (d : Db) → P d → IsKeyed t.id t.clash xs → P (t.with_rows xs d)

module _ {R : Type 0} {P : Db → Type 0} ⦃t : Table R⦄ (k : Constrains t P) where
  pub add-Constrains : (r : R) → Keeps P (add r)
  unfolding add
  add-Constrains r = record {
    at = λ s h c. elim (Bool-cases (any (t.clash r) (t.rows s.current))) [
      | inl refused ↦ rw refused (h, c)
      | inr free ↦ elim (Bool-cases (t.fits r)) [
        | inl fits ↦
            rw (free, fits)
              (
                k.rekeyed _ s.current h (
                    Rows.append-IsKeyed t.id t.clash t.clash_of_id t.clash_comm r _
                      (k.keys s.current h) free),
                c,
              )
        | inr large ↦ rw (free, large) (h, c)
      ]
    ];
  }

  pub save-Constrains : (r : R) → Keeps P (save r)
  unfolding save
  save-Constrains r = record {
    at = λ s h c. elim (Bool-cases (any (clash_other t.id t.clash r) (t.rows s.current))) [
      | inl refused ↦ rw refused (h, c)
      | inr free ↦ elim (Bool-cases (t.fits r)) [
        | inl fits ↦
            rw (free, fits)
              (
                k.rekeyed _ s.current h (
                    Rows.replace-IsKeyed t.id t.clash t.clash_of_id t.clash_comm r _
                      (k.keys s.current h) free),
                c,
              )
        | inr large ↦ rw (free, large) (h, c)
      ]
    ];
  }

  pub delete_where-Constrains : (p : R → Bool) → Keeps P (delete_where p)
  unfolding delete_where
  delete_where-Constrains p = record {
    at = λ s h c.
        (k.rekeyed _ s.current h (Rows.filter-IsKeyed t.id t.clash _ _ (k.keys s.current h)), c);
  }

module _ {R : Type 0} {P : Db → Type 0} ⦃t : Table R⦄ (k : Constrains t P) where
  pub update_where-Constrains :
      (p : R → Bool) (f : R → R)
      → ((a b : R) → t.clash (f a) b ≡ t.clash a b)
      → ((a b : R) → t.clash a (f b) ≡ t.clash a b)
      → Keeps P (update_where p f)
  unfolding update_where
  update_where-Constrains p f left right = record {
    at = λ s h c. (
      k.rekeyed _ s.current h (Rows.map-IsKeyed t.id t.clash f left right p _ (k.keys s.current h)),
      c,
    );
  }

pub user_keys : Constrains user_table IsConsistent
user_keys = record {
  keys = λ d h. h.users_keys;
  rekeyed = λ xs d h k. record {
    users_keys = k;
    refresh_tokens_keys = h.refresh_tokens_keys;
    collections_keys = h.collections_keys;
    entries_keys = h.entries_keys;
    attachments_keys = h.attachments_keys;
    orgs_keys = h.orgs_keys;
    org_members_keys = h.org_members_keys;
    org_collections_keys = h.org_collections_keys;
    org_entries_keys = h.org_entries_keys;
    shares_keys = h.shares_keys;
  };
}

pub refresh_token_keys : Constrains refresh_token_table IsConsistent
refresh_token_keys = record {
  keys = λ d h. h.refresh_tokens_keys;
  rekeyed = λ xs d h k. record {
    users_keys = h.users_keys;
    refresh_tokens_keys = k;
    collections_keys = h.collections_keys;
    entries_keys = h.entries_keys;
    attachments_keys = h.attachments_keys;
    orgs_keys = h.orgs_keys;
    org_members_keys = h.org_members_keys;
    org_collections_keys = h.org_collections_keys;
    org_entries_keys = h.org_entries_keys;
    shares_keys = h.shares_keys;
  };
}

pub collection_keys : Constrains collection_table IsConsistent
collection_keys = record {
  keys = λ d h. h.collections_keys;
  rekeyed = λ xs d h k. record {
    users_keys = h.users_keys;
    refresh_tokens_keys = h.refresh_tokens_keys;
    collections_keys = k;
    entries_keys = h.entries_keys;
    attachments_keys = h.attachments_keys;
    orgs_keys = h.orgs_keys;
    org_members_keys = h.org_members_keys;
    org_collections_keys = h.org_collections_keys;
    org_entries_keys = h.org_entries_keys;
    shares_keys = h.shares_keys;
  };
}

pub entry_keys : Constrains entry_table IsConsistent
entry_keys = record {
  keys = λ d h. h.entries_keys;
  rekeyed = λ xs d h k. record {
    users_keys = h.users_keys;
    refresh_tokens_keys = h.refresh_tokens_keys;
    collections_keys = h.collections_keys;
    entries_keys = k;
    attachments_keys = h.attachments_keys;
    orgs_keys = h.orgs_keys;
    org_members_keys = h.org_members_keys;
    org_collections_keys = h.org_collections_keys;
    org_entries_keys = h.org_entries_keys;
    shares_keys = h.shares_keys;
  };
}

pub attachment_keys : Constrains attachment_table IsConsistent
attachment_keys = record {
  keys = λ d h. h.attachments_keys;
  rekeyed = λ xs d h k. record {
    users_keys = h.users_keys;
    refresh_tokens_keys = h.refresh_tokens_keys;
    collections_keys = h.collections_keys;
    entries_keys = h.entries_keys;
    attachments_keys = k;
    orgs_keys = h.orgs_keys;
    org_members_keys = h.org_members_keys;
    org_collections_keys = h.org_collections_keys;
    org_entries_keys = h.org_entries_keys;
    shares_keys = h.shares_keys;
  };
}

pub org_keys : Constrains org_table IsConsistent
org_keys = record {
  keys = λ d h. h.orgs_keys;
  rekeyed = λ xs d h k. record {
    users_keys = h.users_keys;
    refresh_tokens_keys = h.refresh_tokens_keys;
    collections_keys = h.collections_keys;
    entries_keys = h.entries_keys;
    attachments_keys = h.attachments_keys;
    orgs_keys = k;
    org_members_keys = h.org_members_keys;
    org_collections_keys = h.org_collections_keys;
    org_entries_keys = h.org_entries_keys;
    shares_keys = h.shares_keys;
  };
}

pub org_member_keys : Constrains org_member_table IsConsistent
org_member_keys = record {
  keys = λ d h. h.org_members_keys;
  rekeyed = λ xs d h k. record {
    users_keys = h.users_keys;
    refresh_tokens_keys = h.refresh_tokens_keys;
    collections_keys = h.collections_keys;
    entries_keys = h.entries_keys;
    attachments_keys = h.attachments_keys;
    orgs_keys = h.orgs_keys;
    org_members_keys = k;
    org_collections_keys = h.org_collections_keys;
    org_entries_keys = h.org_entries_keys;
    shares_keys = h.shares_keys;
  };
}

pub org_collection_keys : Constrains org_collection_table IsConsistent
org_collection_keys = record {
  keys = λ d h. h.org_collections_keys;
  rekeyed = λ xs d h k. record {
    users_keys = h.users_keys;
    refresh_tokens_keys = h.refresh_tokens_keys;
    collections_keys = h.collections_keys;
    entries_keys = h.entries_keys;
    attachments_keys = h.attachments_keys;
    orgs_keys = h.orgs_keys;
    org_members_keys = h.org_members_keys;
    org_collections_keys = k;
    org_entries_keys = h.org_entries_keys;
    shares_keys = h.shares_keys;
  };
}

pub org_entry_keys : Constrains org_entry_table IsConsistent
org_entry_keys = record {
  keys = λ d h. h.org_entries_keys;
  rekeyed = λ xs d h k. record {
    users_keys = h.users_keys;
    refresh_tokens_keys = h.refresh_tokens_keys;
    collections_keys = h.collections_keys;
    entries_keys = h.entries_keys;
    attachments_keys = h.attachments_keys;
    orgs_keys = h.orgs_keys;
    org_members_keys = h.org_members_keys;
    org_collections_keys = h.org_collections_keys;
    org_entries_keys = k;
    shares_keys = h.shares_keys;
  };
}

pub share_keys : Constrains share_table IsConsistent
share_keys = record {
  keys = λ d h. h.shares_keys;
  rekeyed = λ xs d h k. record {
    users_keys = h.users_keys;
    refresh_tokens_keys = h.refresh_tokens_keys;
    collections_keys = h.collections_keys;
    entries_keys = h.entries_keys;
    attachments_keys = h.attachments_keys;
    orgs_keys = h.orgs_keys;
    org_members_keys = h.org_members_keys;
    org_collections_keys = h.org_collections_keys;
    org_entries_keys = h.org_entries_keys;
    shares_keys = k;
  };
}

pub ruleset write_rules = (
  add-Constrains, save-Constrains, delete_where-Constrains, user_keys, refresh_token_keys,
  collection_keys, entry_keys, attachment_keys, org_keys, org_member_keys, org_collection_keys,
  org_entry_keys, share_keys,
)
