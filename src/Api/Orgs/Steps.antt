-- ===== src/Api/Orgs/Steps.antt =====
-- The life of a membership in app/api/orgs.py, as a step relation: what any request of any user does
-- to the row of any membership.
use open_key_server.Base.{
  ℕ, ◌+◌, false, String, ◌≡◌, refl, sym, ap, subst, Bool, true, not, ◌&&◌, ◌||◌, Option, none, some,
  find, find-satisfies, inl, inr, Bool-cases, Option-cases, arith, ◌==◌, nat_eq, string_eq,
  option_eq,
}
use open_key_server.Models.{Db}
use open_key_server.Models.Account.{User}
use open_key_server.Models.Orgs.{
  Org, OrgMember, owner, admin, invited, active, revoked, role_eq, status_eq,
}
use open_key_server.Orm.Session.{
  Session, Result, M, Result-cases, ok, pure, get_db, start, bind-ok, bind-err, ◌>>◌, finish,
}
use open_key_server.Orm.Tables.{select_first, add, save}
use open_key_server.Orm.Schema.{org_table, org_member_table}
use open_key_server.Orm.Integrity.{IsConsistent, HasKeys, add-Constrains, org_keys}
use open_key_server.Orm.Keys.{org_key, org_member_id}
use open_key_server.Orm.Effects.{row_at, refused, stored, add-Flushed}
use open_key_server.Orm.Outcomes.{add-relates, save-relates}
use open_key_server.Schemas.Orgs.{OrgCreate, OrgInviteCreate, GrantedRole, to_role}
use open_key_server.Text.{lower}
use open_key_server.Api.Request.{Env}
use open_key_server.Api.Orgs.{org_response, has_uuid, is_active_in}
use open_key_server.Api.Orgs.Lookups.{
  org_lookup, active_lookup, admin_lookup, get_org-is, active-is, admin-is, active-found,
  admin-found, admin-stored,
}
use open_key_server.Api.Orgs.Members.{
  create_org, invite_to_org, put_invite, accept_invite, update_member_role, remove_member,
  revoke_invite, leave_org, is_known, keep_or, key_of, owner_membership, new_org, new_invite,
  reinvited, joined, with_role, dismissed, is_owner, is_member,
}

-- The user's own active membership of the organisation, as it is stored.
abbrev pub Acts : User → Db → ℕ → OrgMember → Type 0
Acts user d org_id a =
    find (λ m. m.org_id == org_id && m.user_id == some user.id && m.status == active) d.org_members
    ≡ some a

-- One that may manage the others.
abbrev pub Manages : User → Db → ℕ → OrgMember → Type 0
Manages user d org_id a = Acts user d org_id a × ((a.role == owner || a.role == admin) ≡ true)

-- A change of role needs a membership that is not the owner's, and an owner where it makes or unmakes
-- an admin.
unfoldable pub may_change_role : OrgMember → OrgMember → GrantedRole → Bool
may_change_role actor m role =
    not (m.status == revoked)
    && not (m.role == owner)
    && not (actor.role == admin && (m.role == admin || to_role role == admin))

-- Pending invites go whoever they are for; a membership goes if it is not the owner's, and an admin's
-- needs an owner.
unfoldable pub may_dismiss : OrgMember → OrgMember → Bool
may_dismiss actor m =
    m.status == invited
    || (not (m.status == revoked)
        && not (m.role == owner)
        && not (actor.role == admin && m.role == admin))

-- The row `new` is `m` with what the step sets, and touched.
pub data Step (user : User) (d : Db) : Option OrgMember → Option OrgMember → Type 0 where
  stays : {o : Option OrgMember} → Step user d o o
  is_founded :
      {m : OrgMember}
      → m.user_id ≡ some user.id
      → m.role ≡ owner
      → m.status ≡ active
      → Step user d none (some m)
  is_invited :
      {m : OrgMember} (actor : OrgMember) (role : GrantedRole)
      → Manages user d m.org_id actor
      → m.role ≡ to_role role
      → m.status ≡ invited
      → Step user d none (some m)
  is_reinvited :
      {m : OrgMember} (actor : OrgMember) (env : Env) (email key : String) (to : Option ℕ)
      (role : GrantedRole)
      → Manages user d m.org_id actor
      → (m.status == revoked) ≡ true
      → Step user d (some m) (
          some (record m {
            role = to_role role;
            wrapped_org_key = key;
            status = invited;
            invited_email = some email;
            user_id = to;
            revision = m.revision + 1;
            updated_at = env.now;
          }))
  is_joined :
      {m : OrgMember} (env : Env) (key : String)
      → (m.status == invited) ≡ true
      → (m.invited_email == some user.email) ≡ true
      → Step user d (some m) (
          some (record m {
            user_id = some user.id;
            status = active;
            wrapped_org_key = key;
            revision = m.revision + 1;
            updated_at = env.now;
          }))
  is_regraded :
      {m : OrgMember} (env : Env) (actor : OrgMember) (role : GrantedRole)
      → Manages user d m.org_id actor
      → may_change_role actor m role ≡ true
      → Step user d
          (some m)
          (some (record m { role = to_role role; revision = m.revision + 1; updated_at = env.now }))
  is_dismissed :
      {m : OrgMember} (env : Env) (actor : OrgMember)
      → Manages user d m.org_id actor
      → may_dismiss actor m ≡ true
      → Step user d
          (some m)
          (some (record m { status = revoked; revision = m.revision + 1; updated_at = env.now }))
  is_left :
      {m : OrgMember} (env : Env)
      → m.user_id ≡ some user.id
      → (m.role == owner) ≡ false
      → Step user d
          (some m)
          (some (record m { status = revoked; revision = m.revision + 1; updated_at = env.now }))

-- Who has passed the check for admins of an organisation manages the memberships in it.
admin-Manages :
    (org : Org) (user : User) (d : Db) (a : OrgMember) (org_id : ℕ)
    → admin_lookup org user d ≡ ok a
    → org_id ≡ org.id
    → Manages user d org_id a
admin-Manages org user d a org_id e same =
    subst (λ i. Manages user d i a) (sym same)
      (admin-stored org user d a e, (admin-found org user d a e).1)

known_org :
    (org_id : ℕ) (email : String) (to : Option User) (m : OrgMember)
    → is_known org_id email to m ≡ true
    → m.org_id ≡ org_id
known_org org_id email none m h = ground arith
known_org org_id email (some u) m h = ground arith

member-org :
    (org_id i : ℕ) (d : Db) (m : OrgMember)
    → find (is_member org_id i) d.org_members ≡ some m
    → m.org_id ≡ org_id
member-org org_id i d m there =
    let here = find-satisfies (is_member org_id i) d.org_members m there in ground arith

module _ (user : User) (d : Db) (i : ℕ) {A : Type 0} where
  -- The step that a request makes of the membership `i`.
  abbrev pub Steps : Result A × Db → Type 0
  Steps o = Step user d (row_at org_member_id i d) (row_at org_member_id i o.1)

  -- The request ends by overwriting a membership that a query found.
  save-Steps :
      (keys : HasKeys org_member_table d) (p : OrgMember → Bool) (m r : OrgMember) (v : A)
      → find p d.org_members ≡ some m
      → m.id ≡ r.id
      → Step user d (some m) (some r)
      → Steps (get_db (save r >> pure v) d)
  unfolding get_db
  save-Steps keys p m r v found same step =
      save-relates org_member_id (Step user d) (λ o. stays) v r p m (start d) keys found same
        (λ j. ap (λ n. n == j) same) step i refl

  add-Steps :
      (keys : HasKeys org_member_table d) (r : OrgMember) (v : A)
      → Step user d none (some r)
      → Steps (get_db (add r >> pure v) d)
  unfolding get_db
  add-Steps keys r v step =
      add-relates org_member_id (Step user d) (λ o. stays) v r (start d) keys step i refl

module _ (env : Env) (user : User) (d : Db) (i : ℕ) (k : IsConsistent d) where
  pub accept-Steps :
      (invite_id : ℕ) (key : Option String)
      → Steps user d i (get_db (accept_invite env user invite_id key) d)
  unfolding accept_invite get_db select_first
  accept-Steps invite_id key = elim (Option-cases (find (λ m. m.id == invite_id) d.org_members)) [
    | inl e ↦ rw e stays
    | inr (m, e) ↦ elim (Bool-cases (m.status == invited)) [
      | inr no_invite ↦ rw (e, no_invite) stays
      | inl waiting ↦ elim (Bool-cases (m.invited_email == some user.email)) [
        | inr stranger ↦ rw (e, waiting, stranger) stays
        | inl mine ↦
            rw (e, waiting, mine)
              (save-Steps user d i k.org_members_keys _ m (joined env user key m) _ e refl
                (is_joined env (keep_or key m.wrapped_org_key) waiting mine))
      ]
    ]
  ]

  module _ (uuid : String) where
    pub leave-Steps : Steps user d i (get_db (leave_org env user uuid) d)
    unfolding leave_org get_db may_dismiss
    leave-Steps = elim (Result-cases (org_lookup uuid d)) [
      | inl (x, e) ↦ rw (bind-err _ _ (get_org-is uuid d _ e)) stays
      | inr (org, e) ↦
          rw (bind-ok _ _ (get_org-is uuid d _ e)) (elim (Result-cases (active_lookup org user d)) [
            | inl (x, e') ↦ rw (bind-err _ _ (active-is org user d _ e')) stays
            | inr (m, e') ↦
                rw (bind-ok _ _ (active-is org user d _ e'))
                  (elim (Bool-cases (m.role == owner || user.id == org.owner_user_id)) [
                    | inl boss ↦ rw boss stays
                    | inr free ↦
                        let found = active-found org user d m e' in
                        let here =
                          find-satisfies (is_active_in org.id user.id) d.org_members m found in
                        rw free (
                          save-Steps user d i k.org_members_keys _ m (dismissed env m) _ found refl
                            (is_left env (ground arith) (ground arith)))
                  ])
          ])
    ]

    pub revoke_invite-Steps :
        (invite_id : ℕ) → Steps user d i (get_db (revoke_invite env user uuid invite_id) d)
    unfolding revoke_invite get_db select_first may_dismiss
    revoke_invite-Steps invite_id = elim (Result-cases (org_lookup uuid d)) [
      | inl (x, e) ↦ rw (bind-err _ _ (get_org-is uuid d _ e)) stays
      | inr (org, e) ↦
          rw (bind-ok _ _ (get_org-is uuid d _ e)) (elim (Result-cases (admin_lookup org user d)) [
            | inl (x, e') ↦ rw (bind-err _ _ (admin-is org user d _ e')) stays
            | inr (actor, e') ↦
                rw (bind-ok _ _ (admin-is org user d _ e'))
                  (elim (Option-cases (find (is_member org.id invite_id) d.org_members)) [
                    | inl gone ↦ rw gone stays
                    | inr (m, there) ↦ elim (Bool-cases (m.status == invited)) [
                      | inr settled ↦ rw (there, settled) stays
                      | inl waiting ↦
                          rw (there, waiting)
                            (save-Steps user d i k.org_members_keys _ m (dismissed env m) _ there
                              refl
                              (is_dismissed env actor
                                (admin-Manages org user d actor m.org_id e'
                                  (member-org org.id invite_id d m there))
                                (ground arith)))
                    ]
                  ])
          ])
    ]

    pub remove-Steps :
        (member_id : ℕ) → Steps user d i (get_db (remove_member env user uuid member_id) d)
    unfolding remove_member get_db select_first may_dismiss
    remove-Steps member_id = elim (Result-cases (org_lookup uuid d)) [
      | inl (x, e) ↦ rw (bind-err _ _ (get_org-is uuid d _ e)) stays
      | inr (org, e) ↦
          rw (bind-ok _ _ (get_org-is uuid d _ e)) (elim (Result-cases (admin_lookup org user d)) [
            | inl (x, e') ↦ rw (bind-err _ _ (admin-is org user d _ e')) stays
            | inr (actor, e') ↦
                rw (bind-ok _ _ (admin-is org user d _ e'))
                  (elim (Option-cases (find (is_member org.id member_id) d.org_members)) [
                    | inl gone ↦ rw gone stays
                    | inr (m, there) ↦ elim (Bool-cases (m.status == revoked)) [
                      | inl out ↦ rw (there, out) stays
                      | inr present ↦ elim (Bool-cases (is_owner org m)) [
                        | inl boss ↦ rw (there, present, boss) stays
                        | inr free ↦ elim (Bool-cases (m.id == actor.id)) [
                          | inl self ↦ rw (there, present, free, self) stays
                          | inr other ↦ elim (Bool-cases (actor.role == admin && m.role == admin)) [
                            | inl peers ↦ rw (there, present, free, other, peers) stays
                            | inr above ↦
                                rw (there, present, free, other, above)
                                  (save-Steps user d i k.org_members_keys _ m (dismissed env m) _
                                    there refl
                                    (is_dismissed env actor
                                      (admin-Manages org user d actor m.org_id e'
                                        (member-org org.id member_id d m there))
                                      (ground arith)))
                          ]
                        ]
                      ]
                    ]
                  ])
          ])
    ]

    pub update_role-Steps :
        (member_id : ℕ) (role : GrantedRole)
        → Steps user d i (get_db (update_member_role env user uuid member_id role) d)
    unfolding update_member_role get_db select_first may_change_role
    update_role-Steps member_id role = elim (Result-cases (org_lookup uuid d)) [
      | inl (x, e) ↦ rw (bind-err _ _ (get_org-is uuid d _ e)) stays
      | inr (org, e) ↦
          rw (bind-ok _ _ (get_org-is uuid d _ e)) (elim (Result-cases (admin_lookup org user d)) [
            | inl (x, e') ↦ rw (bind-err _ _ (admin-is org user d _ e')) stays
            | inr (actor, e') ↦
                rw (bind-ok _ _ (admin-is org user d _ e'))
                  (elim (Option-cases (find (is_member org.id member_id) d.org_members)) [
                    | inl gone ↦ rw gone stays
                    | inr (m, there) ↦ elim (Bool-cases (m.status == revoked)) [
                      | inl out ↦ rw (there, out) stays
                      | inr present ↦
                          elim (Bool-cases (m.status == active || m.status == invited)) [
                            | inr odd ↦ rw (there, present, odd) stays
                            | inl usual ↦ elim (Bool-cases (is_owner org m)) [
                              | inl boss ↦ rw (there, present, usual, boss) stays
                              | inr free ↦ elim (Bool-cases (m.id == actor.id)) [
                                | inl self ↦ rw (there, present, usual, free, self) stays
                                | inr other ↦
                                    elim (Bool-cases (actor.role == admin && m.role == admin)) [
                                      | inl peers ↦
                                          rw (there, present, usual, free, other, peers) stays
                                      | inr above ↦
                                          elim (Bool-cases
                                            (actor.role == admin && to_role role == admin)) [
                                              | inl promotes ↦
                                                  rw
                                                    (
                                                      there, present, usual, free, other, above,
                                                      promotes,
                                                    )
                                                    stays
                                              | inr modest ↦
                                                  rw
                                                    (
                                                      there, present, usual, free, other, above,
                                                      modest,
                                                    )
                                                    (save-Steps user d i k.org_members_keys _ m
                                                      (with_role env role m) _ there refl
                                                      (is_regraded env actor role
                                                        (admin-Manages org user d actor m.org_id e'
                                                          (member-org org.id member_id d m there))
                                                        (ground arith)))
                                            ]
                                    ]
                              ]
                            ]
                          ]
                    ]
                  ])
          ])
    ]

    put_invite-Steps :
        (org : Org) (actor : OrgMember) (may : admin_lookup org user d ≡ ok actor)
        (to : Option User) (body : OrgInviteCreate) (p : OrgMember → Bool) (o : Option OrgMember)
        (known : (m : OrgMember) → find p d.org_members ≡ some m → m.org_id ≡ org.id)
        → find p d.org_members ≡ o
        → Steps user d i (get_db (put_invite env org (lower body.email) to body o) d)
    unfolding put_invite get_db
    put_invite-Steps org actor may to body p none known e =
        add-Steps user d i k.org_members_keys (new_invite env org.id (lower body.email) to body) _
          (is_invited actor body.role (admin-Manages org user d actor org.id may refl) refl refl)
    put_invite-Steps org actor may to body p (some m) known e =
        elim (Bool-cases (m.status == revoked)) [
          | inr known ↦ rw known stays
          | inl out ↦ rw out (
              save-Steps user d i k.org_members_keys p m
                (reinvited env (lower body.email) to body m) _ e refl
                (is_reinvited actor env (lower body.email) body.wrapped_org_key (key_of to)
                  body.role (admin-Manages org user d actor m.org_id may (known m e)) out))
        ]

    pub invite-Steps :
        (body : OrgInviteCreate) → Steps user d i (get_db (invite_to_org env user uuid body) d)
    unfolding invite_to_org get_db select_first
    invite-Steps body = elim (Result-cases (org_lookup uuid d)) [
      | inl (x, e) ↦ rw (bind-err _ _ (get_org-is uuid d _ e)) stays
      | inr (org, e) ↦
          rw (bind-ok _ _ (get_org-is uuid d _ e)) (elim (Result-cases (admin_lookup org user d)) [
            | inl (x, e') ↦ rw (bind-err _ _ (admin-is org user d _ e')) stays
            | inr (actor, e') ↦
                rw (bind-ok _ _ (admin-is org user d _ e'))
                  (elim (Bool-cases (lower body.email == user.email)) [
                    | inl self ↦ rw self stays
                    | inr other ↦
                        let to = find (λ u. u.email == lower body.email) d.users in
                        rw other (
                          put_invite-Steps org actor e' to body _
                            (find (is_known org.id (lower body.email) to) d.org_members)
                            (λ m there. known_org org.id (lower body.email) to m (
                              find-satisfies (is_known org.id (lower body.email) to) d.org_members m
                                there))
                            refl)
                  ])
          ])
    ]

  module _ (j : ℕ) (body : OrgCreate) {A : Type 0} (v : A) where
    abbrev found_membership : M A
    found_membership = add (owner_membership env j user body) >> pure v

    founds :
        (s : Session)
        → HasKeys org_member_table s.current
        → row_at org_member_id i s.committed ≡ row_at org_member_id i s.current
        → Step user d
            (row_at org_member_id i s.committed)
            (row_at org_member_id i (finish (found_membership s).0 (found_membership s).1).1)
    founds s keys same =
        subst
          (λ o.
            Step user d o
              (row_at org_member_id i (finish (found_membership s).0 (found_membership s).1).1))
          (sym same)
          (add-relates org_member_id (Step user d) (λ o. stays) v (owner_membership env j user body)
            s keys (is_founded refl refl refl) i same)

  -- The organisation is stored first; that leaves the memberships as they are.
  pub create-Steps :
      (j : ℕ) (body : OrgCreate) → Steps user d i (get_db (create_org env j user body) d)
  unfolding create_org get_db select_first
  create-Steps j body = elim (Option-cases (find (has_uuid body.uuid) d.orgs)) [
    | inr (org, e) ↦ rw e stays
    | inl e ↦ elim (add-Flushed org_key (new_org env user body) (start d) k.orgs_keys) [
      | refused e' ↦ rw (e, bind-err _ _ e') stays
      | stored d₁ e' p ↦
          let s₁ : Session = record (start d) { current = d₁ } in
          let k₁ =
            subst (λ o. IsConsistent o.1.current) e'
              (((add-Constrains org_keys (new_org env user body)).at (start d) k k).0) in
          rw (e, bind-ok _ _ e')
            (founds j body
              (org_response (new_org env user body) (some (owner_membership env j user body))) s₁
              k₁.org_members_keys (sym (ap (λ x. row_at org_member_id i x) p.rest)))
    ]
  ]
