-- ===== src/Api/Shares/Lifecycle.antt =====
-- The life of a share, over any sequence of requests by any users.
use mathlib.Core.Option.{some-injective}
use open_key_server.Base.{
  String, Bool, ◌≤◌, ◌≡◌, refl, sym, subst, ◌∙◌, true, Option, none, some, List, [], ◌∷◌, arith,
  string_eq,
}
use open_key_server.Models.{Db}
use open_key_server.Models.Account.{User}
use open_key_server.Models.Shares.{Share, pending, revoked, status_eq}
use open_key_server.Orm.Session.{get_db}
use open_key_server.Orm.Integrity.{IsConsistent}
use open_key_server.Orm.Keeps.{Keeps-get_db}
use open_key_server.Orm.Keys.{share_key}
use open_key_server.Orm.Effects.{Writes-relates, row_at}
use open_key_server.Orm.Changes.{Updates}
use open_key_server.Schemas.Shares.{ShareCreate}
use open_key_server.Api.Request.{Env}
use open_key_server.Api.Shares.{create_share, accept_share, revoke_share, accepted_by, revoked_at}
use open_key_server.Api.Shares.Outcomes.{
  DeniesCreation, DeniesAcceptance, DeniesRevocation, CreatesPending, IsAcceptedBy, IsRevoked,
  can_accept, can_revoke,
}
use open_key_server.Api.Shares.Effects.{
  create_share-Writes, accept_share-Writes, revoke_share-Writes,
}
use open_key_server.Api.Shares.Integrity.{create-Keeps, accept-Keeps, revoke-Keeps}

-- A request of a user who is signed in.
pub data Request : Type 0 where
  create : Env → User → ShareCreate → Request
  accept : Env → User → String → Request
  revoke : Env → User → String → Request

unfoldable pub serve : Request → Db → Db
serve (create env user body) d = (get_db (create_share env user body) d).1
serve (accept env user uuid) d = (get_db (accept_share env user uuid) d).1
serve (revoke env user uuid) d = (get_db (revoke_share env user uuid) d).1

unfoldable pub serve_all : List Request → Db → Db
unfolding serve
serve_all [] d = d
serve_all (q ∷ qs) d = serve_all qs (serve q d)

pub serve-IsConsistent : (q : Request) (d : Db) → IsConsistent d → IsConsistent (serve q d)
unfolding serve
serve-IsConsistent (create env user body) d k = Keeps-get_db _ d (create-Keeps env user body) k
serve-IsConsistent (accept env user uuid) d k = Keeps-get_db _ d (accept-Keeps env user uuid) k
serve-IsConsistent (revoke env user uuid) d k = Keeps-get_db _ d (revoke-Keeps env user uuid) k

-- One step in the life of the share with a uuid: what was there, and what is there afterwards.
pub data Step : Option Share → Option Share → Type 0 where
  stays : {old : Option Share} → Step old old
  is_created : {s : Share} → s.status ≡ pending → Step none (some s)
  is_accepted :
      {s : Share} (env : Env) (user : User)
      → can_accept user s ≡ true
      → Step (some s) (some (accepted_by env user s))
  is_revoked :
      {s : Share} (env : Env) (user : User)
      → can_revoke user s ≡ true
      → Step (some s) (some (revoked_at env s))

of_creation :
    (env : Env) (user : User) (body : ShareCreate) (d : Db) (old : Option Share) (s : Share)
    → CreatesPending env user body d old s
    → Step old (some s)
of_creation env user body d old s (to, _, _, (none_before, new)) = rw none_before (is_created new.8)

of_update :
    (test : Share → Bool) (Becomes : Share → Share → Type 0) (old : Option Share) (s : Share)
    → ((x : Share) → test x ≡ true → Becomes x s → Step (some x) (some s))
    → Updates test Becomes old s
    → Step old (some s)
of_update test Becomes old s step (x, was, passed, now) = rw was (step x passed now)

-- Whatever request is served, it makes at most one step in the life of each share: only its creation
-- by a request that found none, its acceptance by a recipient while it was pending with a payload,
-- or its revocation by its owner.
pub serve_share-Step :
    (q : Request) (d : Db) (uuid : String)
    → IsConsistent d
    → Step (row_at share_key uuid d) (row_at share_key uuid (serve q d))
unfolding serve
serve_share-Step (create env user body) d uuid k =
    Writes-relates share_key Step body.uuid (DeniesCreation user body d)
      (CreatesPending env user body d) (λ s. s) d _ (create_share-Writes env user d k body) uuid
      stays (of_creation env user body d _)
serve_share-Step (accept env user u) d uuid k =
    Writes-relates share_key Step u (DeniesAcceptance user u d)
      (Updates (can_accept user) (IsAcceptedBy env user)) (λ s. s) d _
      (accept_share-Writes env user d k u) uuid stays
      (λ s.
        of_update (can_accept user) (IsAcceptedBy env user) _ s
          (λ x h now. subst (λ s. Step (some x) (some s)) (sym now) (is_accepted env user h)))
serve_share-Step (revoke env user u) d uuid k =
    Writes-relates share_key Step u (DeniesRevocation user u d)
      (Updates (can_revoke user) (IsRevoked env)) (λ s. s) d _ (revoke_share-Writes env user d k u)
      uuid stays
      (λ s.
        of_update (can_revoke user) (IsRevoked env) _ s
          (λ x h now. subst (λ s. Step (some x) (some s)) (sym now) (is_revoked env user h)))

-- What holds of a share for good: its owner and content are fixed, its revision never falls, and a
-- revoked share is never touched again.
pub record Descends (s s' : Share) : Type 0 where
  pub owner : s'.owner_user_id ≡ s.owner_user_id
  pub key : s'.wrapped_item_key ≡ s.wrapped_item_key
  pub payload : s'.encrypted_payload ≡ s.encrypted_payload
  pub revision : s.revision ≤ s'.revision
  pub final : s.status ≡ revoked → s' ≡ s
  pub no_return : s'.status ≡ pending → s.status ≡ pending

Descends-trans : {a b c : Share} → Descends a b → Descends b c → Descends a c
Descends-trans h g = record {
  owner = g.owner ∙ h.owner;
  key = g.key ∙ h.key;
  payload = g.payload ∙ h.payload;
  revision = omega (arith, h.revision, g.revision);
  final = λ r. let e = h.final r in g.final (rw e r) ∙ e;
  no_return = λ p. h.no_return (g.no_return p);
}

accepted-Descends :
    (env : Env) (user : User) (s : Share)
    → can_accept user s ≡ true
    → Descends s (accepted_by env user s)
unfolding can_accept
accepted-Descends env user s h = record {
  owner = refl;
  key = refl;
  payload = refl;
  revision = omega arith;
  final = λ r. ground arith;
  no_return = λ p. cc;
}

revoked-Descends :
    (env : Env) (user : User) (s : Share) → can_revoke user s ≡ true → Descends s (revoked_at env s)
unfolding can_revoke
revoked-Descends env user s h = record {
  owner = refl;
  key = refl;
  payload = refl;
  revision = omega arith;
  final = λ r. ground arith;
  no_return = λ p. cc;
}

abbrev Heir : Share → Option Share → Type 0
Heir s o = (s' : Share) × (o ≡ some s') × Descends s s'

Heir-Step : {old new : Option Share} (s : Share) → Step old new → Heir s old → Heir s new
Heir-Step s stays h = h
Heir-Step s (is_created p) (x, e, h) = cc
Heir-Step s (is_accepted {s = x} env user c) (y, e, h) = (
  accepted_by env user x,
  refl,
  Descends-trans h (
      subst (λ z. Descends z (accepted_by env user x)) (some-injective x y e)
        (accepted-Descends env user x c)),
)
Heir-Step s (is_revoked {s = x} env user c) (y, e, h) = (
  revoked_at env x,
  refl,
  Descends-trans h (
      subst (λ z. Descends z (revoked_at env x)) (some-injective x y e)
        (revoked-Descends env user x c)),
)

Heir-serve_all :
    (qs : List Request) (d : Db) (uuid : String) (s : Share)
    → IsConsistent d
    → Heir s (row_at share_key uuid d)
    → Heir s (row_at share_key uuid (serve_all qs d))
unfolding serve_all
Heir-serve_all [] d uuid s k h = h
Heir-serve_all (q ∷ qs) d uuid s k h =
    Heir-serve_all qs (serve q d) uuid s (serve-IsConsistent q d k)
      (Heir-Step s (serve_share-Step q d uuid k) h)

-- Over any sequence of requests that create, accept or revoke shares, sent by any users, a stored
-- share is still there under its uuid, with the same owner, key and payload and no smaller
-- revision; it does not turn pending again, and if it was revoked it is exactly as it was. The
-- database is assumed to meet its unique constraints before the requests.
pub serve_all-Descends :
    (qs : List Request) (d : Db) (uuid : String) (s : Share)
    → IsConsistent d
    → row_at share_key uuid d ≡ some s
    → (s' : Share) × (row_at share_key uuid (serve_all qs d) ≡ some s') × Descends s s'
serve_all-Descends qs d uuid s k e = Heir-serve_all qs d uuid s k (
  s,
  e,
  record {
    owner = refl;
    key = refl;
    payload = refl;
    revision = omega arith;
    final = λ _. refl;
    no_return = λ p. p;
  },
)
