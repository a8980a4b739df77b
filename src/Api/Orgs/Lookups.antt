-- ===== src/Api/Orgs/Lookups.antt =====
-- What the lookups and the permission checks of app/api/orgs.py return; they write nothing.
use open_key_server.Base.{
  String, ◌≡◌, refl, ap, sym, subst, ◌∙◌, true, Option, none, some, find, find-satisfies, inl, inr,
  Bool-cases, Option-cases, nat_eq, option_eq, if◌then◌else◌,
}
use open_key_server.Models.{Db}
use open_key_server.Models.Account.{User}
use open_key_server.Models.Orgs.{Org, OrgMember, status_eq}
use open_key_server.Orm.Session.{
  Session, Error, Result, M, ok, err, http, bind-ok, bind-err, guard, pure, Result-cases, start,
  ◌>>◌,
}
use open_key_server.Orm.Tables.{select_first}
use open_key_server.Orm.Schema.{org_table, org_member_table}
use open_key_server.Api.Orgs.{
  get_org_or_404, require_active_member, require_admin, has_uuid, is_active_in, is_admin,
}

abbrev pub ok_or : {A : Type 0} → Error → Option A → Result A
ok_or e none = err e
ok_or e (some a) = ok a

abbrev pub org_lookup : String → Db → Result Org
org_lookup uuid d = ok_or (http 404 "Org not found") (find (has_uuid uuid) d.orgs)

abbrev pub active_lookup : Org → User → Db → Result OrgMember
active_lookup org user d =
    ok_or (http 403 "Not an active org member") (find (is_active_in org.id user.id) d.org_members)

abbrev only_admin : Result OrgMember → Result OrgMember
only_admin (err e) = err e
only_admin (ok m) =
    if is_admin m then ok m else err (http 403 "Only org owners/admins can perform this action")

abbrev value_or : {A : Type 0} → A → Result A → A
value_or a (ok b) = b
value_or a (err e) = a

found_of : {A : Type 0} (e : Error) (o : Option A) (a : A) → ok_or e o ≡ ok a → o ≡ some a
found_of e none a h = cc
found_of e (some x) a h = ap some (ap (value_or x) h)

only_admin_lem :
    (r : Result OrgMember) (m : OrgMember) → only_admin r ≡ ok m → (r ≡ ok m) × (is_admin m ≡ true)
only_admin_lem (err e) m h = cc
only_admin_lem (ok x) m h = elim (Bool-cases (is_admin x)) [
  | inl yes_admin ↦
      let same = ap (value_or x) (rw yes_admin at h) in
      (ap ok same, subst (λ m. is_admin m ≡ true) same yes_admin)
  | inr not_admin ↦ let bad = rw not_admin at h in cc
]

abbrev pub admin_lookup : Org → User → Db → Result OrgMember
admin_lookup org user d = only_admin (active_lookup org user d)

pub get_org-eq :
    (uuid : String) (s : Session) → get_org_or_404 uuid s ≡ (org_lookup uuid s.current, s)
unfolding get_org_or_404 select_first
get_org-eq uuid s = elim (Option-cases (find (has_uuid uuid) s.current.orgs)) [
  | inl e ↦ rw e refl
  | inr (org, e) ↦ rw e refl
]

module _ (org : Org) (user : User) where
  pub active-eq :
      (s : Session) → require_active_member org user s ≡ (active_lookup org user s.current, s)
  unfolding require_active_member select_first
  active-eq s = elim (Option-cases (find (is_active_in org.id user.id) s.current.org_members)) [
    | inl e ↦ rw e refl
    | inr (m, e) ↦ rw e refl
  ]

  abbrev checked : OrgMember → M OrgMember
  checked m =
      guard (is_admin m) (http 403 "Only org owners/admins can perform this action") >> pure m

  checked-eq : (m : OrgMember) (s : Session) → checked m s ≡ (only_admin (ok m), s)
  checked-eq m s = elim (Bool-cases (is_admin m)) [
    | inl yes_admin ↦ rw yes_admin refl
    | inr not_admin ↦ rw not_admin refl
  ]

  pub admin-eq : (s : Session) → require_admin org user s ≡ (admin_lookup org user s.current, s)
  unfolding require_admin
  admin-eq s = elim (Result-cases (active_lookup org user s.current)) [
    | inl (x, e) ↦
        bind-err (require_active_member org user) checked (active-eq s ∙ ap (λ r. (r, s)) e)
        ∙ ap (λ r. (only_admin r, s)) (sym e)
    | inr (m, e) ↦
        bind-ok (require_active_member org user) checked (active-eq s ∙ ap (λ r. (r, s)) e)
        ∙ checked-eq m s
        ∙ ap (λ r. (only_admin r, s)) (sym e)
  ]

  -- Whoever is let in has an active membership, and an admin's where one is asked for.
  pub active-found :
      (d : Db) (m : OrgMember)
      → active_lookup org user d ≡ ok m
      → find (is_active_in org.id user.id) d.org_members ≡ some m
  active-found d m h = found_of _ (find (is_active_in org.id user.id) d.org_members) m h

  pub admin-found :
      (d : Db) (m : OrgMember)
      → admin_lookup org user d ≡ ok m
      → (is_active_in org.id user.id m ≡ true) × (is_admin m ≡ true)
  admin-found d m h =
      let (there, yes_admin) = only_admin_lem (active_lookup org user d) m h in
      (
        find-satisfies (is_active_in org.id user.id) d.org_members m (active-found d m there),
        yes_admin,
      )

  pub admin-stored :
      (d : Db) (m : OrgMember)
      → admin_lookup org user d ≡ ok m
      → find (is_active_in org.id user.id) d.org_members ≡ some m
  admin-stored d m h = active-found d m (only_admin_lem (active_lookup org user d) m h).0

  pub active-is :
      (d : Db) (r : Result OrgMember)
      → active_lookup org user d ≡ r
      → require_active_member org user (start d) ≡ (r, start d)
  active-is d r e = active-eq (start d) ∙ ap (λ r. (r, start d)) e

  pub admin-is :
      (d : Db) (r : Result OrgMember)
      → admin_lookup org user d ≡ r
      → require_admin org user (start d) ≡ (r, start d)
  admin-is d r e = admin-eq (start d) ∙ ap (λ r. (r, start d)) e

pub get_org-is :
    (uuid : String) (d : Db) (r : Result Org)
    → org_lookup uuid d ≡ r
    → get_org_or_404 uuid (start d) ≡ (r, start d)
get_org-is uuid d r e = get_org-eq uuid (start d) ∙ ap (λ r. (r, start d)) e
