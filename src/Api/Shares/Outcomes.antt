-- ===== src/Api/Shares/Outcomes.antt =====
-- What the requests of app/api/shares.py may come to: whom they name, when they are refused, and the rows.
use open_key_server.Base.{
  ◌⊎◌, ℕ, String, ◌≡◌, refl, Bool, true, false, sym, ap, ◌∙◌, ◌+◌, if◌then◌else◌, not, ◌&&◌, ◌||◌,
  Option, none, some, inl, inr, Option-cases, find, ◌==◌, nat_eq, string_eq, option_eq,
}
use open_key_server.Models.{Db}
use open_key_server.Models.Account.{User}
use open_key_server.Models.Shares.{ShareStatus, Share, pending, accepted, revoked, status_eq}
use open_key_server.Orm.Session.{Error, Session, Result, ok, err, http}
use open_key_server.Orm.Tables.{select_first}
use open_key_server.Orm.Changes.{Creates}
use open_key_server.Schemas.Shares.{ShareCreate}
use open_key_server.Text.{is_empty, lower}
use open_key_server.Api.Request.{Env}
use open_key_server.Api.Shares.{
  Recipient, by_email, find_recipient, lower_email, is_recipient, has_payload,
}

abbrev by_id : ℕ → Option User → Result Recipient
by_id i none = err (http 404 "Recipient user not found")
by_id i (some user) = ok (record { user_id = some i; email = some user.email })

abbrev addressed : String → Option User → Recipient
addressed address none = record { user_id = none; email = some address }
addressed address (some user) = record { user_id = some user.id; email = some address }

-- The address of a body, in lower case; an empty one is none.
unfoldable pub named_address : Option String → Option String
named_address none = none
named_address (some email) = if is_empty email then none else some (lower email)

lower_email-named : (email : Option String) → lower_email email ≡ named_address email
unfolding lower_email named_address
lower_email-named none = refl
lower_email-named (some email) = refl

by_email-addressed :
    (email : String) (found : Option User) → by_email email found ≡ addressed email found
by_email-addressed email none = refl
by_email-addressed email (some user) = refl

-- The recipient that a request names: by key, a user that there is, at the address on file; by
-- address, the user who has it, if there is one.
unfoldable pub resolve : Option ℕ → Option String → Db → Result Recipient
resolve (some i) email d = by_id i (find (λ u. u.id == i) d.users)
resolve none (some email) d = ok (addressed email (find (λ u. u.email == email) d.users))
resolve none none d = ok (record { user_id = none; email = none })

find_recipient-eq :
    (i : Option ℕ) (email : Option String) (s : Session)
    → find_recipient i email s ≡ (resolve i email s.current, s)
unfolding find_recipient resolve select_first
find_recipient-eq (some i) email s = elim (Option-cases (find (λ u. u.id == i) s.current.users)) [
  | inl e ↦ rw e refl
  | inr (u, e) ↦ rw e refl
]
find_recipient-eq none (some email) s =
    ap (λ to. (ok to, s)) (by_email-addressed email (find (λ u. u.email == email) s.current.users))
find_recipient-eq none none s = refl

-- The row of a new share of the user's: pending, and for the recipient.
abbrev pub IsPendingFor : Env → User → ShareCreate → Recipient → Share → Type 0
IsPendingFor env user body to s =
    (s.uuid ≡ body.uuid)
    × (s.owner_user_id ≡ user.id)
    × (s.recipient_user_id ≡ to.user_id)
    × (s.recipient_email ≡ to.email)
    × (s.entry_uuid ≡ body.entry_uuid)
    × (s.collection_uuid ≡ body.collection_uuid)
    × (s.wrapped_item_key ≡ body.wrapped_item_key)
    × (s.encrypted_payload ≡ body.encrypted_payload)
    × (s.status ≡ pending)
    × (s.revision ≡ body.revision)
    × (s.created_at ≡ env.db_now)
    × (s.updated_at ≡ env.db_now)

-- The new share goes to someone else than its owner.
abbrev pub CreatesPending : Env → User → ShareCreate → Db → Option Share → Share → Type 0
CreatesPending env user body d old s =
    (to : Recipient) × (resolve body.recipient_user_id (named_address body.recipient_email) d
      ≡ ok to)
    × ((to.user_id == some user.id) ≡ false)
    × Creates (IsPendingFor env user body to) old s

-- A payload that is there and not empty.
abbrev pub has_text : Option String → Bool
has_text none = false
has_text (some text) = not (is_empty text)

-- Pending, for the user by key or by address, and with something to import.
unfoldable pub can_accept : User → Share → Bool
can_accept user s =
    s.status == pending
    && (s.recipient_user_id == some user.id || s.recipient_email == some user.email)
    && has_text s.encrypted_payload

abbrev pub IsAcceptedBy : Env → User → Share → Share → Type 0
IsAcceptedBy env user old s =
    (s ≡ record old {
      recipient_user_id = some user.id;
      recipient_email = some user.email;
      status = accepted;
      revision = old.revision + 1;
      updated_at = env.now;
    })

abbrev pub IsRevoked : Env → Share → Share → Type 0
IsRevoked env old s =
    (s ≡ record old { status = revoked; revision = old.revision + 1; updated_at = env.now })

pub has_payload-has_text : (s : Share) → has_payload s ≡ has_text s.encrypted_payload
unfolding has_payload
has_payload-has_text s = elim (Option-cases s.encrypted_payload) [
  | inl e ↦ rw e refl
  | inr (text, e) ↦ rw e refl
]

unfoldable pub can_revoke : User → Share → Bool
can_revoke user s = s.owner_user_id == user.id && not (s.status == revoked)

module _ (user : User) where
  pub accepts :
      (s : Share)
      → (s.status == pending) ≡ true
      → is_recipient user s ≡ true
      → has_payload s ≡ true
      → can_accept user s ≡ true
  unfolding can_accept is_recipient
  accepts s waiting mine full = rw (waiting, mine, sym (has_payload-has_text s) ∙ full) refl

pub find_recipient-named :
    (i : Option ℕ) (email : Option String) (s : Session)
    → find_recipient i (lower_email email) s ≡ (resolve i (named_address email) s.current, s)
find_recipient-named i email s =
    find_recipient-eq i (lower_email email) s
    ∙ ap (λ a. (resolve i a s.current, s)) (lower_email-named email)

-- There is no share of that uuid: 404.
abbrev pub NotFound : String → Db → Error → Type 0
NotFound uuid d e = (e ≡ http 404 "Share not found") × (find (λ s. s.uuid == uuid) d.shares ≡ none)

-- The uuid is taken (409), the named key is nobody's (404), or it is the sender's own (400).
abbrev pub DeniesCreation : User → ShareCreate → Db → Error → Type 0
DeniesCreation user body d e =
    ((e ≡ http 409 "Share with this uuid already exists")
      × ((s : Share) × (find (λ s. s.uuid == body.uuid) d.shares ≡ some s)))
    ⊎ (resolve body.recipient_user_id (named_address body.recipient_email) d ≡ err e)
    ⊎ ((e ≡ http 400 "Cannot share with yourself")
        × ((to : Recipient) × (resolve body.recipient_user_id (named_address body.recipient_email) d
              ≡ ok to)
            × ((to.user_id == some user.id) ≡ true)))

-- There is none, or it is not pending (400), not for the sender (403) or without a payload (400).
abbrev pub DeniesAcceptance : User → String → Db → Error → Type 0
DeniesAcceptance user uuid d e =
    NotFound uuid d e
    ⊎ ((s : Share) × (find (λ s. s.uuid == uuid) d.shares ≡ some s)
        × (((e ≡ http 400 "Share is not pending") × ((s.status == pending) ≡ false))
            ⊎ ((e ≡ http 403 "Share is not for this user")
                × ((s.recipient_user_id == some user.id || s.recipient_email == some user.email)
                    ≡ false))
            ⊎ ((e ≡ http 400 "Share has no snapshot payload to import")
                × (has_text s.encrypted_payload ≡ false))))

-- There is none, or it is not the sender's (403) or revoked already (400).
abbrev pub DeniesRevocation : User → String → Db → Error → Type 0
DeniesRevocation user uuid d e =
    NotFound uuid d e
    ⊎ ((s : Share) × (find (λ s. s.uuid == uuid) d.shares ≡ some s)
        × (((e ≡ http 403 "Only the share owner can revoke")
              × ((s.owner_user_id == user.id) ≡ false))
            ⊎ ((e ≡ http 400 "Share is already revoked") × ((s.status == revoked) ≡ true))))

pub not_for :
    (user : User) (s : Share)
    → is_recipient user s ≡ false
    → (s.recipient_user_id == some user.id || s.recipient_email == some user.email) ≡ false
unfolding is_recipient
not_for user s h = h

pub usual_status :
    (t : ShareStatus) → (t == revoked) ≡ false → (t == pending || t == accepted) ≡ true
usual_status pending h = refl
usual_status accepted h = refl
usual_status revoked h = cc
