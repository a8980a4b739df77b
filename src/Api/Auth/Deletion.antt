-- ===== src/Api/Auth/Deletion.antt =====
-- POST /auth/delete of app/api/auth.py, with AuthService.delete_account.
use open_key_server.Base.{
  ℕ, String, ◌≡◌, refl, Bool, true, false, not, ◌||◌, some, List, [], ◌∷◌, filter, any, ◌==◌,
  nat_eq, option_eq, inl, inr, Bool-cases,
}
use open_key_server.Models.{Db}
use open_key_server.Models.Account.{User}
use open_key_server.Models.Orgs.{Org}
use open_key_server.Orm.Session.{Result, ok, err, http, get_db}
use open_key_server.Orm.Tables.{select_all, delete_where}
use open_key_server.Services.Auth
use open_key_server.Services.Auth.{verify_auth_hash, delete_user}
use open_key_server.Api.Auth.{delete_account}

-- The key is one of the organisations'.
abbrev pub is_of : List Org → ℕ → Bool
is_of orgs org_id = any (λ o. o.id == org_id) orgs

-- Nothing in the database refers to the user with the key `i`, or to one of the organisations.
pub record Forgets (i : ℕ) (orgs : List Org) (d : Db) : Type 0 where
  pub users : any (λ u. u.id == i) d.users ≡ false
  pub refresh_tokens : any (λ t. t.user_id == i) d.refresh_tokens ≡ false
  pub collections : any (λ c. c.user_id == i) d.collections ≡ false
  pub entries : any (λ e. e.user_id == i) d.entries ≡ false
  pub attachments : any (λ a. a.user_id == i) d.attachments ≡ false
  pub owned_orgs : any (λ o. o.owner_user_id == i) d.orgs ≡ false
  pub memberships : any (λ m. m.user_id == some i || is_of orgs m.org_id) d.org_members ≡ false
  pub org_collections : any (λ c. is_of orgs c.org_id) d.org_collections ≡ false
  pub org_entries : any (λ e. is_of orgs e.org_id) d.org_entries ≡ false
  pub shares : any (λ s. s.recipient_user_id == some i || s.owner_user_id == i) d.shares ≡ false

-- Every row of another user or of another organisation is still there, in order and as it was: what goes
-- is of the user or of an organisation of the user's.
pub record Spares (i : ℕ) (theirs : List Org) (d d' : Db) : Type 0 where
  pub users : d'.users ≡ filter (λ u. not (u.id == i)) d.users
  pub refresh_tokens : d'.refresh_tokens ≡ filter (λ t. not (t.user_id == i)) d.refresh_tokens
  pub collections : d'.collections ≡ filter (λ c. not (c.user_id == i)) d.collections
  pub entries : d'.entries ≡ filter (λ e. not (e.user_id == i)) d.entries
  pub attachments : d'.attachments ≡ filter (λ a. not (a.user_id == i)) d.attachments
  pub orgs : d'.orgs ≡ filter (λ o. not (o.owner_user_id == i)) d.orgs
  pub org_members : d'.org_members ≡ (
      filter
        (λ m. not (is_of theirs m.org_id))
        (filter (λ m. not (m.user_id == some i)) d.org_members))
  pub org_collections :
      d'.org_collections ≡ filter (λ c. not (is_of theirs c.org_id)) d.org_collections
  pub org_entries : d'.org_entries ≡ filter (λ e. not (is_of theirs e.org_id)) d.org_entries
  pub shares : d'.shares ≡ (
      filter
        (λ s. not (s.owner_user_id == i))
        (filter (λ s. not (s.recipient_user_id == some i)) d.shares))

module _ {ℓ} {A : Type ℓ} where
  any-filter-not : (p : A → Bool) (xs : List A) → any p (filter (λ x. not (p x)) xs) ≡ false
  unfolding any filter
  any-filter-not p [] = refl
  any-filter-not p (x ∷ xs) = elim (Bool-cases (p x)) [
    | inl e ↦ rw e (any-filter-not p xs)
    | inr e ↦ rw (e, e) (any-filter-not p xs)
  ]

  -- Two sweeps leave nothing that either looks for.
  any-filters :
      (p q : A → Bool) (xs : List A)
      → any (λ x. p x || q x) (filter (λ x. not (q x)) (filter (λ x. not (p x)) xs)) ≡ false
  unfolding any filter
  any-filters p q [] = refl
  any-filters p q (x ∷ xs) = elim (Bool-cases (p x)) [
    | inl e ↦ rw e (any-filters p q xs)
    | inr e ↦ elim (Bool-cases (q x)) [
      | inl f ↦ rw (e, f) (any-filters p q xs)
      | inr f ↦ rw (e, f) (rw (e, f) (any-filters p q xs))
    ]
  ]

module _ (user : User) (auth_hash : String) (d : Db) where
  abbrev owned : List Org
  owned = filter (λ o. o.owner_user_id == user.id) d.orgs

  pub data Deleted (o : Result (Unit {0}) × Db) : Type 0 where
    wrong_hash :
        verify_auth_hash user.auth_hash auth_hash ≡ false
        → o ≡ (err (http 401 "Invalid auth_hash"), d)
        → Deleted o
    deleted :
        (d' : Db)
        → verify_auth_hash user.auth_hash auth_hash ≡ true
        → o ≡ (ok tt, d')
        → Forgets user.id owned d'
        → Spares user.id owned d d'
        → Deleted o

  -- A deletion with a wrong hash fails with 401 and changes nothing; with the right hash it
  -- leaves no row that refers to the user, or to an organisation that the user owned, and every
  -- other row stays, in order and as it was: the other users' accounts, sessions and vaults, the
  -- organisations that the user did not own with their other members and their shared items, and
  -- the shares between other users.
  pub delete_account-Deleted : Deleted (get_db (delete_account user auth_hash) d)
  unfolding delete_account Auth.delete_account get_db delete_user delete_where select_all
  delete_account-Deleted = elim (Bool-cases (verify_auth_hash user.auth_hash auth_hash)) [
    | inr wrong ↦ wrong_hash wrong (rw wrong refl)
    | inl right ↦ rw right (
        deleted _ right refl
          (record {
            users = any-filter-not _ d.users;
            refresh_tokens = any-filter-not _ d.refresh_tokens;
            collections = any-filter-not _ d.collections;
            entries = any-filter-not _ d.entries;
            attachments = any-filter-not _ d.attachments;
            owned_orgs = any-filter-not _ d.orgs;
            memberships = any-filters _ _ d.org_members;
            org_collections = any-filter-not _ d.org_collections;
            org_entries = any-filter-not _ d.org_entries;
            shares = any-filters _ _ d.shares;
          })
          (record {
            users = refl;
            refresh_tokens = refl;
            collections = refl;
            entries = refl;
            attachments = refl;
            orgs = refl;
            org_members = refl;
            org_collections = refl;
            org_entries = refl;
            shares = refl;
          }))
  ]
