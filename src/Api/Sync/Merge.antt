-- ===== src/Api/Sync/Merge.antt =====
-- The upserts of app/api/sync.py: last writer wins, by revision.
use open_key_server.Base.{
  ℕ, ◌==◌, ◌&&◌, eq_of_==, ==_refl, nat_eq, string_eq, bool_eq, option_eq, true, false, Option,
  none, some, ltb, if◌then◌else◌, Bool, max, ◌≡◌, ◌⊎◌, refl, sym, ap, ◌∙◌, inl, inr, Bool-cases,
  arith,
}
use open_key_server.Base.Int.{int_eq}
use open_key_server.Models.Vault.{Collection, Entry}
use open_key_server.Schemas.Sync.{SyncCollectionItem, SyncEntryItem}
use open_key_server.Api.Request.{Env}
use open_key_server.Api.Sync.{
  Upserted, kept, lost, overwritten, new_entry, new_collection, upsert_collection_row,
  upsert_entry_row, won_entry, won_collection, same_entry, same_collection,
}

-- The row says what the item says.
abbrev pub HoldsEntry : SyncEntryItem → Entry → Type 0
HoldsEntry item e =
    (e.collection_uuid ≡ item.collection_uuid)
    × (e.encrypted_payload ≡ item.encrypted_payload)
    × (e.is_deleted ≡ item.is_deleted)

abbrev pub HoldsCollection : SyncCollectionItem → Collection → Type 0
HoldsCollection item c =
    (c.encrypted_name ≡ item.encrypted_name)
    × (c.icon ≡ item.icon)
    × (c.color ≡ item.color)
    × (c.parent_uuid ≡ item.parent_uuid)
    × (c.sort_order ≡ item.sort_order)
    × (c.is_deleted ≡ item.is_deleted)

pub both : (a b : Bool) → a && b ≡ true → (a ≡ true) × (b ≡ true)
both a b h = ground arith

same_entry-HoldsEntry :
    (item : SyncEntryItem) (e : Entry) → same_entry item e ≡ true → HoldsEntry item e
same_entry-HoldsEntry item e h =
    let c = e.collection_uuid == item.collection_uuid in
    let p = e.encrypted_payload == item.encrypted_payload in
    let h2 = both (c && p) (e.is_deleted == item.is_deleted) h in
    let h1 = both c p h2.0 in (eq_of_== _ _ h1.0, eq_of_== _ _ h1.1, eq_of_== _ _ h2.1)

HoldsEntry-same_entry :
    (item : SyncEntryItem) (e : Entry) → HoldsEntry item e → same_entry item e ≡ true
HoldsEntry-same_entry item e (c, p, g) =
    rw
      (
        c,
        p,
        g,
        ==_refl item.collection_uuid,
        ==_refl item.encrypted_payload,
        ==_refl item.is_deleted,
      )
      refl

same_collection-HoldsCollection :
    (item : SyncCollectionItem) (c : Collection)
    → same_collection item c ≡ true
    → HoldsCollection item c
same_collection-HoldsCollection item c h =
    let n = c.encrypted_name == item.encrypted_name in
    let i = c.icon == item.icon in
    let r = c.color == item.color in
    let p = c.parent_uuid == item.parent_uuid in
    let o = c.sort_order == item.sort_order in
    let h5 = both (n && i && r && p && o) (c.is_deleted == item.is_deleted) h in
    let h4 = both (n && i && r && p) o h5.0 in
    let h3 = both (n && i && r) p h4.0 in
    let h2 = both (n && i) r h3.0 in
    let h1 = both n i h2.0 in
    (
      eq_of_== _ _ h1.0,
      eq_of_== _ _ h1.1,
      eq_of_== _ _ h2.1,
      eq_of_== _ _ h3.1,
      eq_of_== _ _ h4.1,
      eq_of_== _ _ h5.1,
    )

HoldsCollection-same_collection :
    (item : SyncCollectionItem) (c : Collection)
    → HoldsCollection item c
    → same_collection item c ≡ true
HoldsCollection-same_collection item c (n, i, r, p, o, g) =
    rw
      (
        n,
        i,
        r,
        p,
        o,
        g,
        ==_refl item.encrypted_name,
        ==_refl item.icon,
        ==_refl item.color,
        ==_refl item.parent_uuid,
        ==_refl item.sort_order,
        ==_refl item.is_deleted,
      )
      refl

-- The same row at a new time, by which the other clients find it.
abbrev pub TouchesEntry : ℕ → Entry → Entry → Type 0
TouchesEntry now old e =
    (e.updated_at ≡ now)
    × (e.id ≡ old.id)
    × (e.user_id ≡ old.user_id)
    × (e.uuid ≡ old.uuid)
    × (e.created_at ≡ old.created_at)

abbrev pub TouchesCollection : ℕ → Collection → Collection → Type 0
TouchesCollection now old c =
    (c.updated_at ≡ now)
    × (c.id ≡ old.id)
    × (c.user_id ≡ old.user_id)
    × (c.uuid ≡ old.uuid)
    × (c.created_at ≡ old.created_at)

-- An item wins against a stored row exactly if its revision is at least the row's.
pub record LastWriterWins {R : Type 0} (revision : R → ℕ) (Holds Touched : R → Type 0) (old : R)
    (pushed : ℕ) (u : Upserted R) : Type 0 where
  pub highest : revision u.row ≡ max (revision old) pushed
  pub stored : u.is_new ≡ false
  pub loses : u.is_lost ≡ ltb pushed (revision old)
  pub winner_kept : u.is_lost ≡ true → u.row ≡ old
  pub taken : u.is_lost ≡ false → Holds u.row
  pub touched : (u.row ≡ old) ⊎ Touched u.row

-- The rule for any kind of row: `won` is the row with the item's fields and revision, `level` the row
-- with its fields only, and `same` says that the row has those fields already.
module _ {R : Type 0} (revision : R → ℕ) (Holds Touched : R → Type 0) (old won level : R)
    (same : Bool) (pushed : ℕ) (won_revision : revision won ≡ pushed) (won_holds : Holds won)
    (level_revision : revision level ≡ revision old) (level_holds : Holds level)
    (same_holds : same ≡ true → Holds old) (won_touched : Touched won)
    (level_touched : Touched level) where
  pub of_revisions : LastWriterWins revision Holds Touched old pushed (
      if ltb (revision old) pushed
      then overwritten won
      else if pushed == revision old
      then (if same then kept old else overwritten level)
      else lost old)
  of_revisions = elim (Bool-cases (ltb (revision old) pushed)) [
    | inl newer ↦ rw newer (record {
      highest = ground arith;
      stored = refl;
      loses = ground arith;
      winner_kept = λ h. cc;
      taken = λ _. won_holds;
      touched = inr won_touched;
    })
    | inr not_newer ↦ elim (Bool-cases (pushed == revision old)) [
      | inr older ↦
          rw (not_newer, older)
            (record {
              highest = ground arith;
              stored = refl;
              loses = ground arith;
              winner_kept = λ _. refl;
              taken = λ h. cc;
              touched = inl refl;
            })
      | inl tied ↦ elim (Bool-cases same) [
        | inl as_is ↦
            rw (not_newer, tied, as_is)
              (record {
                highest = ground arith;
                stored = refl;
                loses = ground arith;
                winner_kept = λ _. refl;
                taken = λ _. same_holds as_is;
                touched = inl refl;
              })
        | inr other ↦
            rw (not_newer, tied, other)
              (record {
                highest = ground arith;
                stored = refl;
                loses = ground arith;
                winner_kept = λ h. cc;
                taken = λ _. level_holds;
                touched = inr level_touched;
              })
      ]
    ]
  ]

module _ (env : Env) (old : Entry) (i : ℕ) (item : SyncEntryItem) where
  -- A pushed entry wins against the stored row exactly if its revision is at least the row's:
  -- then each field of the row is that of the item, its revision and its deletion mark included;
  -- if it loses the row stays exactly as it is. Either way the row's revision is the larger of
  -- the two. The row stays exactly as it is or has the time of the request; its key, user and
  -- uuid do not change.
  pub upsert_entry-LastWriterWins :
      LastWriterWins
        (λ r. r.revision)
        (HoldsEntry item)
        (TouchesEntry env.now old)
        old
        item.revision
        (upsert_entry_row env (some old) i item)
  unfolding upsert_entry_row
  upsert_entry-LastWriterWins =
      of_revisions (λ r. r.revision) (HoldsEntry item) (TouchesEntry env.now old) old
        (record (won_entry env.now item old) { revision = item.revision })
        (won_entry env.now item old) (same_entry item old) item.revision refl (refl, refl, refl)
        refl (refl, refl, refl) (same_entry-HoldsEntry item old) (refl, refl, refl, refl, refl)
        (refl, refl, refl, refl, refl)

-- A row at the item's revision that says what the item says is left alone.
module _ (env : Env) (i : ℕ) (item : SyncEntryItem) where
  settled_entry-row :
      (r : Entry)
      → r.revision ≡ item.revision
      → same_entry item r ≡ true
      → upsert_entry_row env (some r) i item ≡ kept r
  unfolding upsert_entry_row
  settled_entry-row r e h =
      let not_newer : ltb r.revision item.revision ≡ false = ground arith in
      let level : (item.revision == r.revision) ≡ true = ground arith in
      rw (not_newer, level, h) refl

module _ (env : Env) (i : ℕ) (item : SyncEntryItem) where
  -- Pushing the same entry twice, with nothing in between, is the same as pushing it once: the
  -- second time the row stays as it is, nothing is added, and the item loses if it had lost.
  pub upsert_entry-again :
      (later : Env) (old : Option Entry)
      → let first = upsert_entry_row env old i item in
        let again = upsert_entry_row later (some first.row) i item in
        (again.row ≡ first.row) × (again.is_new ≡ false) × (again.is_lost ≡ first.is_lost)
  unfolding upsert_entry_row
  upsert_entry-again later none =
      let s =
        settled_entry-row later i item (new_entry env i item) refl
          (HoldsEntry-same_entry item (new_entry env i item) (refl, refl, refl)) in
      (ap (λ u. u.row) s, ap (λ u. u.is_new) s, ap (λ u. u.is_lost) s)
  upsert_entry-again later (some old) =
      let l = upsert_entry-LastWriterWins env old i item in
      let first = upsert_entry_row env (some old) i item in
      let m = upsert_entry-LastWriterWins later first.row i item in
      elim (Bool-cases first.is_lost) [
        | inl gone ↦
            let again =
              m.loses
              ∙ ap (λ r. ltb item.revision r.revision) (l.winner_kept gone)
              ∙ sym l.loses
              ∙ gone in
            (m.winner_kept again, m.stored, again ∙ sym gone)
        | inr won ↦
            let top = l.highest in
            let no_loss = l.loses in
            let s =
              settled_entry-row later i item first.row (ground (arith, top, no_loss, won))
                (HoldsEntry-same_entry item first.row (l.taken won)) in
            (ap (λ u. u.row) s, ap (λ u. u.is_new) s, ap (λ u. u.is_lost) s ∙ sym won)
      ]

module _ (env : Env) (old : Collection) (i : ℕ) (item : SyncCollectionItem) where
  -- A pushed collection wins against the stored row exactly if its revision is at least the
  -- row's: then each field of the row is that of the item, its revision and its deletion mark
  -- included; if it loses the row stays exactly as it is. Either way the row's revision is the
  -- larger of the two. The row stays exactly as it is or has the time of the request; its key,
  -- user and uuid do not change.
  pub upsert_collection-LastWriterWins :
      LastWriterWins
        (λ r. r.revision)
        (HoldsCollection item)
        (TouchesCollection env.now old)
        old
        item.revision
        (upsert_collection_row env (some old) i item)
  unfolding upsert_collection_row
  upsert_collection-LastWriterWins =
      of_revisions (λ r. r.revision) (HoldsCollection item) (TouchesCollection env.now old) old
        (record (won_collection env.now item old) { revision = item.revision })
        (won_collection env.now item old) (same_collection item old) item.revision refl
        (refl, refl, refl, refl, refl, refl) refl (refl, refl, refl, refl, refl, refl)
        (same_collection-HoldsCollection item old) (refl, refl, refl, refl, refl)
        (refl, refl, refl, refl, refl)

-- A row at the item's revision that says what the item says is left alone.
module _ (env : Env) (i : ℕ) (item : SyncCollectionItem) where
  settled_collection-row :
      (r : Collection)
      → r.revision ≡ item.revision
      → same_collection item r ≡ true
      → upsert_collection_row env (some r) i item ≡ kept r
  unfolding upsert_collection_row
  settled_collection-row r e h =
      let not_newer : ltb r.revision item.revision ≡ false = ground arith in
      let level : (item.revision == r.revision) ≡ true = ground arith in
      rw (not_newer, level, h) refl

module _ (env : Env) (i : ℕ) (item : SyncCollectionItem) where
  -- Pushing the same collection twice, with nothing in between, is the same as pushing it once:
  -- the second time the row stays as it is, nothing is added, and the item loses if it had lost.
  pub upsert_collection-again :
      (later : Env) (old : Option Collection)
      → let first = upsert_collection_row env old i item in
        let again = upsert_collection_row later (some first.row) i item in
        (again.row ≡ first.row) × (again.is_new ≡ false) × (again.is_lost ≡ first.is_lost)
  unfolding upsert_collection_row
  upsert_collection-again later none =
      let s = settled_collection-row later i item (new_collection env i item) refl (
        HoldsCollection-same_collection item (new_collection env i item)
          (refl, refl, refl, refl, refl, refl)) in
      (ap (λ u. u.row) s, ap (λ u. u.is_new) s, ap (λ u. u.is_lost) s)
  upsert_collection-again later (some old) =
      let l = upsert_collection-LastWriterWins env old i item in
      let first = upsert_collection_row env (some old) i item in
      let m = upsert_collection-LastWriterWins later first.row i item in
      elim (Bool-cases first.is_lost) [
        | inl gone ↦
            let again =
              m.loses
              ∙ ap (λ r. ltb item.revision r.revision) (l.winner_kept gone)
              ∙ sym l.loses
              ∙ gone in
            (m.winner_kept again, m.stored, again ∙ sym gone)
        | inr won ↦
            let top = l.highest in
            let no_loss = l.loses in
            let s =
              settled_collection-row later i item first.row (ground (arith, top, no_loss, won))
                (HoldsCollection-same_collection item first.row (l.taken won)) in
            (ap (λ u. u.row) s, ap (λ u. u.is_new) s, ap (λ u. u.is_lost) s ∙ sym won)
      ]
