-- ===== src/Api/Shares/Effects.antt =====
-- What each request of app/api/shares.py does to the shares.
use open_key_server.Base.{
  String, refl, sym, ◌∙◌, some, inl, inr, Option-cases, Bool-cases, find, ◌==◌, ==_refl, nat_eq,
  string_eq, option_eq, find-satisfies,
}
use open_key_server.Models.{Db}
use open_key_server.Models.Account.{User}
use open_key_server.Models.Shares.{pending, revoked, status_eq}
use open_key_server.Orm.Session.{get_db, start, Result-cases, bind-ok, bind-err}
use open_key_server.Orm.Tables.{select_first}
use open_key_server.Orm.Integrity.{IsConsistent}
use open_key_server.Orm.Keys.{share_key}
use open_key_server.Orm.Changes.{Updates}
use open_key_server.Orm.Effects.{Writes, add-Writes, save-Writes}
use open_key_server.Schemas.Shares.{ShareCreate}
use open_key_server.Api.Request.{Env}
use open_key_server.Api.Shares.{
  new_share, create_share, accept_share, revoke_share, is_recipient, has_payload, accepted_by,
  revoked_at, has_uuid,
}
use open_key_server.Api.Shares.Outcomes.{
  named_address, resolve, CreatesPending, can_accept, IsAcceptedBy, IsRevoked, has_payload-has_text,
  can_revoke, find_recipient-named, DeniesCreation, DeniesAcceptance, DeniesRevocation, not_for,
  usual_status, accepts,
}

module _ (env : Env) (user : User) (d : Db) (k : IsConsistent d) where
  -- Creating a share changes nothing and raises, only with 409 if the uuid is taken, 404 if the
  -- recipient's key is nobody's, 400 if the recipient is the sender, or because the database
  -- refuses the row, or puts at a free uuid a pending share of the sender's with the fields of
  -- the body, for the recipient that the body names, who is not the sender: by key a user that
  -- there is, with the address on file, else by the address in lower case, with the user who has
  -- it if there is one. The database is assumed to meet its unique constraints before the
  -- request.
  pub create_share-Writes :
      (body : ShareCreate)
      → Writes share_key body.uuid
          (DeniesCreation user body d)
          (CreatesPending env user body d)
          (λ s. s)
          d
          (get_db (create_share env user body) d)
  unfolding create_share get_db select_first
  create_share-Writes body = elim (Option-cases (find (has_uuid body.uuid) d.shares)) [
    | inr (c, e) ↦ rw e (refl, inr (inl (refl, (c, e))))
    | inl e ↦
        let found = find_recipient-named body.recipient_user_id body.recipient_email (start d) in
        elim (Result-cases
          (resolve body.recipient_user_id (named_address body.recipient_email) d)) [
            | inl (f, r) ↦ rw (e, bind-err _ _ (rw r at found)) (refl, inr (inr (inl r)))
            | inr (to, r) ↦
                rw (e, bind-ok _ _ (rw r at found))
                  (elim (Bool-cases (to.user_id == some user.id)) [
                    | inl self ↦ rw self (refl, inr (inr (inr (refl, (to, r, self)))))
                    | inr other ↦ rw other (
                        add-Writes share_key _ (DeniesCreation user body d)
                          (CreatesPending env user body d) (λ s. s) (new_share env user body to) d
                          k.shares_keys (==_refl body.uuid)
                          (
                            to,
                            r,
                            other,
                            (
                              e,
                              (
                                refl, refl, refl, refl, refl, refl, refl, refl, refl, refl, refl,
                                refl,
                              ),
                            ),
                          ))
                  ])
          ]
  ]

  module _ (uuid : String) where
    -- Accepting a share changes nothing and raises, only with 404 if there is none of that uuid,
    -- 400 if it is not pending, 403 if it is not for the sender, 400 if it has no payload, or
    -- because the database refuses the row, or turns a pending share with a non-empty payload,
    -- which has the sender's key or address as its recipient's, into an accepted one with the
    -- sender's key and address, and the next revision; nothing else changes. The database is
    -- assumed to meet its unique constraints before the request.
    pub accept_share-Writes :
        Writes share_key uuid
          (DeniesAcceptance user uuid d)
          (Updates (can_accept user) (IsAcceptedBy env user))
          (λ s. s)
          d
          (get_db (accept_share env user uuid) d)
    unfolding accept_share get_db select_first
    accept_share-Writes = elim (Option-cases (find (has_uuid uuid) d.shares)) [
      | inl e ↦ rw e (refl, inr (inl (refl, e)))
      | inr (c, e) ↦ elim (Bool-cases (c.status == pending)) [
        | inr late ↦ rw (e, late) (refl, inr (inr (c, e, inl (refl, late))))
        | inl waiting ↦ elim (Bool-cases (is_recipient user c)) [
          | inr stranger ↦
              rw (e, waiting, stranger)
                (refl, inr (inr (c, e, inr (inl (refl, not_for user c stranger)))))
          | inl mine ↦ elim (Bool-cases (has_payload c)) [
            | inr empty ↦
                rw (e, waiting, mine, empty)
                  (refl, inr (inr (c, e, inr (inr (refl, sym (has_payload-has_text c) ∙ empty)))))
            | inl full ↦
                rw (e, waiting, mine, full)
                  (save-Writes share_key _ (DeniesAcceptance user uuid d)
                    (Updates (can_accept user) (IsAcceptedBy env user)) (λ s. s)
                    (accepted_by env user c) d (has_uuid uuid) c k.shares_keys e refl (λ j. refl)
                    (find-satisfies (has_uuid uuid) d.shares c e)
                    (c, refl, accepts user c waiting mine full, refl))
          ]
        ]
      ]
    ]

    -- Revoking a share changes nothing and raises, only with 404 if there is none of that uuid,
    -- 403 if it is another user's, 400 if it is revoked already, or because the database refuses
    -- the row, or turns a share of the sender's that is not revoked into a revoked one with the
    -- next revision, and changes nothing else. The database is assumed to meet its unique
    -- constraints before the request.
    pub revoke_share-Writes :
        Writes share_key uuid
          (DeniesRevocation user uuid d)
          (Updates (can_revoke user) (IsRevoked env))
          (λ s. s)
          d
          (get_db (revoke_share env user uuid) d)
    unfolding revoke_share get_db select_first can_revoke
    revoke_share-Writes = elim (Option-cases (find (has_uuid uuid) d.shares)) [
      | inl e ↦ rw e (refl, inr (inl (refl, e)))
      | inr (c, e) ↦ elim (Bool-cases (c.owner_user_id == user.id)) [
        | inr stranger ↦ rw (e, stranger) (refl, inr (inr (c, e, inl (refl, stranger))))
        | inl mine ↦ elim (Bool-cases (c.status == revoked)) [
          | inl gone ↦ rw (e, mine, gone) (refl, inr (inr (c, e, inr (refl, gone))))
          | inr alive ↦
              rw (e, mine, alive, usual_status c.status alive)
                (save-Writes share_key _ (DeniesRevocation user uuid d)
                  (Updates (can_revoke user) (IsRevoked env)) (λ s. s) (revoked_at env c) d
                  (has_uuid uuid) c k.shares_keys e refl (λ j. refl)
                  (find-satisfies (has_uuid uuid) d.shares c e)
                  (c, refl, rw (mine, alive) refl, refl))
        ]
      ]
    ]
