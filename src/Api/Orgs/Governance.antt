-- ===== src/Api/Orgs/Governance.antt =====
-- Who governs an organisation in app/api/orgs.py, over any sequence of requests by any users.
use mathlib.Core.Option.{some-injective}
use open_key_server.Base.{
  ℕ, String, ◌≡◌, refl, sym, ap, subst, ◌∙◌, ◌&&◌, ◌⊎◌, inl, inr, Bool, true, Option, some, List,
  [], ◌∷◌, arith, ◌==◌, nat_eq, string_eq, option_eq,
}
use open_key_server.Models.{Db}
use open_key_server.Models.Account.{User}
use open_key_server.Models.Orgs.{OrgMember, owner, active, invited, revoked, role_eq, status_eq}
use open_key_server.Orm.Session.{get_db}
use open_key_server.Orm.Integrity.{IsConsistent}
use open_key_server.Orm.Keeps.{Keeps-get_db}
use open_key_server.Orm.Keys.{org_member_id}
use open_key_server.Orm.Effects.{row_at}
use open_key_server.Schemas.Orgs.{OrgCreate, OrgInviteCreate, GrantedRole}
use open_key_server.Api.Request.{Env}
use open_key_server.Api.Orgs.Members.{
  create_org, invite_to_org, accept_invite, update_member_role, remove_member, revoke_invite,
  leave_org,
}
use open_key_server.Api.Orgs.Integrity.{
  create_org-Keeps, invite-Keeps, accept_invite-Keeps, update_role-Keeps, remove-Keeps,
  revoke_invite-Keeps, leave-Keeps,
}
use open_key_server.Api.Orgs.Steps.{
  Step, stays, is_founded, is_invited, is_reinvited, is_joined, is_regraded, is_dismissed, is_left,
  may_change_role, may_dismiss, create-Steps, invite-Steps, accept-Steps, update_role-Steps,
  remove-Steps, revoke_invite-Steps, leave-Steps,
}

-- The requests that write memberships.
pub data Request : Type 0 where
  creates : Env → User → ℕ → OrgCreate → Request
  invites : Env → User → String → OrgInviteCreate → Request
  accepts : Env → User → ℕ → Option String → Request
  regrades : Env → User → String → ℕ → GrantedRole → Request
  removes revokes : Env → User → String → ℕ → Request
  leaves : Env → User → String → Request

abbrev pub sender : Request → User
sender (creates env user i body) = user
sender (invites env user uuid body) = user
sender (accepts env user i key) = user
sender (regrades env user uuid i role) = user
sender (removes env user uuid i) = user
sender (revokes env user uuid i) = user
sender (leaves env user uuid) = user

unfoldable pub serve : Request → Db → Db
serve (creates env user i body) d = (get_db (create_org env i user body) d).1
serve (invites env user uuid body) d = (get_db (invite_to_org env user uuid body) d).1
serve (accepts env user i key) d = (get_db (accept_invite env user i key) d).1
serve (regrades env user uuid i role) d = (get_db (update_member_role env user uuid i role) d).1
serve (removes env user uuid i) d = (get_db (remove_member env user uuid i) d).1
serve (revokes env user uuid i) d = (get_db (revoke_invite env user uuid i) d).1
serve (leaves env user uuid) d = (get_db (leave_org env user uuid) d).1

unfoldable pub serve_all : List Request → Db → Db
unfolding serve
serve_all [] d = d
serve_all (q ∷ qs) d = serve_all qs (serve q d)

pub serve-IsConsistent : (q : Request) (d : Db) → IsConsistent d → IsConsistent (serve q d)
unfolding serve
serve-IsConsistent (creates env user i body) d k =
    Keeps-get_db _ d (create_org-Keeps env user i body) k
serve-IsConsistent (invites env user uuid body) d k =
    Keeps-get_db _ d (invite-Keeps env user uuid body) k
serve-IsConsistent (accepts env user i key) d k =
    Keeps-get_db _ d (accept_invite-Keeps env user i key) k
serve-IsConsistent (regrades env user uuid i role) d k =
    Keeps-get_db _ d (update_role-Keeps env user uuid i role) k
serve-IsConsistent (removes env user uuid i) d k = Keeps-get_db _ d (remove-Keeps env user uuid i) k
serve-IsConsistent (revokes env user uuid i) d k =
    Keeps-get_db _ d (revoke_invite-Keeps env user uuid i) k
serve-IsConsistent (leaves env user uuid) d k = Keeps-get_db _ d (leave-Keeps env user uuid) k

pub serve_membership-Step :
    (q : Request) (d : Db) (j : ℕ)
    → IsConsistent d
    → Step (sender q) d (row_at org_member_id j d) (row_at org_member_id j (serve q d))
unfolding serve
serve_membership-Step (creates env user i body) d j k = create-Steps env user d j k i body
serve_membership-Step (invites env user uuid body) d j k = invite-Steps env user d j k uuid body
serve_membership-Step (accepts env user i key) d j k = accept-Steps env user d j k i key
serve_membership-Step (regrades env user uuid i role) d j k =
    update_role-Steps env user d j k uuid i role
serve_membership-Step (removes env user uuid i) d j k = remove-Steps env user d j k uuid i
serve_membership-Step (revokes env user uuid i) d j k = revoke_invite-Steps env user d j k uuid i
serve_membership-Step (leaves env user uuid) d j k = leave-Steps env user d j k uuid

-- An active membership of the owner's role.
abbrev pub is_reigning : OrgMember → Bool
is_reigning m = m.role == owner && m.status == active

reigns : (x m : OrgMember) → some x ≡ some m → is_reigning m ≡ true → is_reigning x ≡ true
reigns x m e h = subst (λ m. is_reigning m ≡ true) (sym (some-injective x m e)) h

owner-Step :
    {user : User} {d : Db} {old new : Option OrgMember} (m : OrgMember)
    → Step user d old new
    → old ≡ some m
    → is_reigning m ≡ true
    → new ≡ some m
unfolding may_change_role may_dismiss
owner-Step m stays e h = e
owner-Step m (is_founded own _ _) e h = cc
owner-Step m (is_invited actor role _ _ pending) e h = cc
owner-Step m (is_reinvited {m = x} actor env email key to role _ out) e h =
    let h' = reigns x m e h in ground arith
owner-Step m (is_joined {m = x} env key waiting mine) e h = let h' = reigns x m e h in ground arith
owner-Step m (is_regraded {m = x} env actor role _ may) e h =
    let h' = reigns x m e h in ground arith
owner-Step m (is_dismissed {m = x} env actor _ may) e h = let h' = reigns x m e h in ground arith
owner-Step m (is_left {m = x} env own low) e h = let h' = reigns x m e h in ground arith

-- Over any sequence of membership requests by any users, the owner's active membership of an
-- organisation stays exactly as it is. The database is assumed to meet its unique constraints
-- before the requests.
pub serve_all-keeps_owner :
    (qs : List Request) (d : Db) (j : ℕ) (m : OrgMember)
    → IsConsistent d
    → row_at org_member_id j d ≡ some m
    → is_reigning m ≡ true
    → row_at org_member_id j (serve_all qs d) ≡ some m
unfolding serve_all
serve_all-keeps_owner [] d j m k e h = e
serve_all-keeps_owner (q ∷ qs) d j m k e h =
    serve_all-keeps_owner qs (serve q d) j m (serve-IsConsistent q d k)
      (owner-Step m (serve_membership-Step q d j k) e h) h

-- Where an active membership comes from: it was active before, of the same user and in the same
-- organisation, or it is of the user who makes the request.
abbrev pub IsOwnDoing : User → Option OrgMember → OrgMember → Type 0
IsOwnDoing user old m' =
    ((m : OrgMember) × (old ≡ some m)
      × (m.status ≡ active)
      × (m'.user_id ≡ m.user_id)
      × (m'.org_id ≡ m.org_id))
    ⊎ (m'.user_id ≡ some user.id)

active-Step :
    {user : User} {d : Db} {old new : Option OrgMember} (m' : OrgMember)
    → Step user d old new
    → new ≡ some m'
    → m'.status ≡ active
    → IsOwnDoing user old m'
active-Step m' stays e h = inl (m', e, h, refl, refl)
active-Step m' (is_founded own _ _) e h =
    inr (ap (λ m. m.user_id) (sym (some-injective _ m' e)) ∙ own)
active-Step m' (is_invited actor role _ _ pending) e h =
    let bad : invited ≡ active = sym pending ∙ ap (λ m. m.status) (some-injective _ m' e) ∙ h in
    ground arith
active-Step m' (is_reinvited {m = x} actor env email key to role _ out) e h =
    let bad : invited ≡ active = ap (λ m. m.status) (some-injective _ m' e) ∙ h in ground arith
active-Step m' (is_joined {m = x} env key waiting mine) e h =
    inr (ap (λ m. m.user_id) (sym (some-injective _ m' e)))
active-Step m' (is_regraded {m = x} env actor role _ may) e h =
    let same = sym (some-injective _ m' e) in
    inl (
      x,
      refl,
      ap (λ m. m.status) (sym same) ∙ h,
      ap (λ m. m.user_id) same,
      ap (λ m. m.org_id) same,
    )
active-Step m' (is_left {m = x} env own low) e h =
    let bad : revoked ≡ active = ap (λ m. m.status) (some-injective _ m' e) ∙ h in ground arith
active-Step m' (is_dismissed {m = x} env actor _ may) e h =
    let bad : revoked ≡ active = ap (λ m. m.status) (some-injective _ m' e) ∙ h in ground arith

-- A membership that is active after a request either was active before, of the same user and
-- organisation, or is of the user who sent the request: nobody is made an active member by
-- somebody else. The database is assumed to meet its unique constraints before the request.
pub serve-IsOwnDoing :
    (q : Request) (d : Db) (j : ℕ) (m' : OrgMember)
    → IsConsistent d
    → row_at org_member_id j (serve q d) ≡ some m'
    → m'.status ≡ active
    → IsOwnDoing (sender q) (row_at org_member_id j d) m'
serve-IsOwnDoing q d j m' k e h = active-Step m' (serve_membership-Step q d j k) e h
