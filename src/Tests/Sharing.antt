-- ===== src/Tests/Sharing.antt =====
-- Shares and organisations on concrete requests.
use open_key_server.Base.{◌≡◌, refl, none, some, List, [], ◌∷◌, find, any}
use open_key_server.Models.Orgs.{OrgMember}
use open_key_server.Models.Shares.{Share}
use open_key_server.Orm.Rows.{replace}
use open_key_server.Orm.Session.{get_db}
use open_key_server.Orm.Tables.{select_first, save}
use open_key_server.Orm.Keys.{share_key, org_member_id}
use open_key_server.Orm.Changes.{Updates}
use open_key_server.Orm.Effects.{Writes, row_at}
use open_key_server.Schemas.Orgs.{as_admin}
use open_key_server.Schemas.Shares.{ShareCreate}
use open_key_server.Api.Shares.{create_share, accept_share, revoke_share}
use open_key_server.Api.Shares.Outcomes.{
  DeniesCreation, DeniesAcceptance, DeniesRevocation, CreatesPending, IsAcceptedBy, IsRevoked,
  can_accept, can_revoke,
}
use open_key_server.Api.Shares.Effects.{
  create_share-Writes, accept_share-Writes, revoke_share-Writes,
}
use open_key_server.Api.Shares.Lifecycle
use open_key_server.Api.Shares.Lifecycle.{Descends, accept, revoke, serve_all-Descends}
use open_key_server.Api.Orgs.Members.{accept_invite, joined}
use open_key_server.Api.Orgs.Governance
use open_key_server.Api.Orgs.Governance.{
  IsOwnDoing, accepts, regrades, removes, leaves, serve_all-keeps_owner, serve-IsOwnDoing,
}
use open_key_server.Tests.Data.{env, ada, bob, offer, founder, guest, seed, seed-IsConsistent}

abbrev gift : ShareCreate
gift = record {
  uuid = "gift";
  recipient_user_id = none;
  recipient_email = some "Bob@x.org";
  entry_uuid = some "mail";
  collection_uuid = none;
  wrapped_item_key = "w";
  encrypted_payload = some "p";
  revision = 1;
}

create_share-Writes_example :
    Writes share_key "gift"
      (DeniesCreation ada gift seed)
      (CreatesPending env ada gift seed)
      (λ s. s)
      seed
      (get_db (create_share env ada gift) seed)
create_share-Writes_example = create_share-Writes env ada seed seed-IsConsistent gift

accept_share-Writes_example :
    Writes share_key "offer"
      (DeniesAcceptance bob "offer" seed)
      (Updates (can_accept bob) (IsAcceptedBy env bob))
      (λ s. s)
      seed
      (get_db (accept_share env bob "offer") seed)
accept_share-Writes_example = accept_share-Writes env bob seed seed-IsConsistent "offer"

revoke_share-Writes_example :
    Writes share_key "offer"
      (DeniesRevocation ada "offer" seed)
      (Updates (can_revoke ada) (IsRevoked env))
      (λ s. s)
      seed
      (get_db (revoke_share env ada "offer") seed)
revoke_share-Writes_example = revoke_share-Writes env ada seed seed-IsConsistent "offer"

abbrev share_requests : List Lifecycle.Request
share_requests = accept env bob "offer" ∷ revoke env ada "offer" ∷ []

offer_there : row_at share_key "offer" seed ≡ some offer
unfolding find
offer_there = refl

serve_all-Descends_example :
    (s : Share) × (row_at share_key "offer" (Lifecycle.serve_all share_requests seed) ≡ some s)
    × Descends offer s
serve_all-Descends_example =
    serve_all-Descends share_requests seed "offer" offer seed-IsConsistent offer_there

abbrev org_requests : List Governance.Request
org_requests =
    accepts env bob 9 none
    ∷ regrades env ada "club" 9 as_admin
    ∷ removes env bob "club" 8
    ∷ leaves env ada "club"
    ∷ []

founder_there : row_at org_member_id 8 seed ≡ some founder
unfolding find
founder_there = refl

serve_all-keeps_owner_example :
    row_at org_member_id 8 (Governance.serve_all org_requests seed) ≡ some founder
serve_all-keeps_owner_example =
    serve_all-keeps_owner org_requests seed 8 founder seed-IsConsistent founder_there refl

abbrev member_bob : OrgMember
member_bob = joined env bob none guest

bob_joins :
    row_at org_member_id 9 (Governance.serve (accepts env bob 9 none) seed) ≡ some member_bob
unfolding Governance.serve accept_invite get_db select_first save find replace any
bob_joins = refl

serve-IsOwnDoing_example : IsOwnDoing bob (row_at org_member_id 9 seed) member_bob
serve-IsOwnDoing_example =
    serve-IsOwnDoing (accepts env bob 9 none) seed 9 member_bob seed-IsConsistent bob_joins refl
