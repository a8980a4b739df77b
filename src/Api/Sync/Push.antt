-- ===== src/Api/Sync/Push.antt =====
-- The push of app/api/sync.py, over any of its three tables: the rows that the session holds, by uuid,
-- the loop over the items, and the flush. The code writes this out three times.
pub mod Held
pub mod Loop
pub mod Flush
pub mod Prefetch
pub mod Refines
use open_key_server.Base.{
  ℕ, suc, ◌+◌, ◌==◌, nat_eq, string_eq, String, Bool, true, false, ◌&&◌, ◌||◌, Option, none, some,
  List, [], ◌∷◌, ◌++◌, map, any, find, if◌then◌else◌,
}
use open_key_server.Orm.Session.{M, Result, ok, err, pure, lift, for_each, ◌>>=◌, ◌>>◌}
use open_key_server.Orm.Tables.{Table, select_all, add, save}
use open_key_server.Api.Sync.{Upserted}

-- A row that the session holds: to be inserted, to be written back, or as it was read.
pub record Tracked (R : Type 0) : Type 0 where
  pub row : R
  pub is_new : Bool
  pub is_dirty : Bool

abbrev pub as_read : {R : Type 0} → R → Tracked R
as_read r = record { row = r; is_new = false; is_dirty = false }

-- `existing_collections` and its like, and the uuids of the rows that items have lost against: the list
-- of conflicts holds the rows themselves, so what a later item makes of one is seen there too.
pub record Pushed (R : Type 0) : Type 0 where
  pub tracked : List (Tracked R)
  pub conflicts : List String

-- What the table's items are, and what they do to a row. `upsert k` is the upsert of the item at the
-- position `k` of the push.
pub record Pushing (R Item : Type 0) : Type 0 where
  pub user_of : R → ℕ
  pub uuid : R → String
  pub updated_at : R → ℕ
  pub item_uuid : Item → String
  pub upsert : ℕ → Option R → Item → Result (Upserted R)

module _ {R Item : Type 0} (p : Pushing R Item) where
  abbrev pub has_uuid : String → Tracked R → Bool
  has_uuid u t = p.uuid t.row == u

  -- `existing.get(uuid)`
  abbrev pub get : String → List (Tracked R) → Option (Tracked R)
  get u = find (has_uuid u)

  abbrev pub row_of : Option (Tracked R) → Option R
  row_of none = none
  row_of (some t) = some t.row

  unfoldable pub put : Tracked R → List (Tracked R) → List (Tracked R)
  put t [] = t ∷ []
  put t (x ∷ xs) = if p.uuid x.row == p.uuid t.row then t ∷ xs else x ∷ put t xs

  -- The session's row after an upsert of what it held.
  abbrev pub track : Option (Tracked R) → Upserted R → Tracked R
  track none u = record { row = u.row; is_new = u.is_new; is_dirty = u.is_changed }
  track (some t) u = record {
    row = u.row;
    is_new = t.is_new;
    is_dirty = t.is_dirty || u.is_changed;
  }

  abbrev pub take_in : Item → Pushed R → Upserted R → Pushed R
  take_in item held u = record {
    tracked = put (track (get (p.item_uuid item) held.tracked) u) held.tracked;
    conflicts = if u.is_lost then held.conflicts ++ p.item_uuid item ∷ [] else held.conflicts;
  }

  -- The loop over the items from position `k` on.
  unfoldable pub push_items : ℕ → List Item → Pushed R → Result (Pushed R)
  push_items k [] held = ok held
  push_items k (item ∷ items) held =
      elim (p.upsert k (row_of (get (p.item_uuid item) held.tracked)) item) [
        | err e ↦ err e
        | ok u ↦ push_items (suc k) items (take_in item held u)
      ]

  abbrev pub echo : Option (Tracked R) → List R → List R
  echo none rows = rows
  echo (some t) rows = t.row ∷ rows

  -- The winners that are echoed.
  unfoldable pub winners : List (Tracked R) → List String → List R
  winners held [] = []
  winners held (u ∷ us) = echo (get u held) (winners held us)

  abbrev pub in_push : List Item → String → Bool
  in_push items u = any (λ item. p.item_uuid item == u) items

  abbrev pub read_held : List R → Pushed R
  read_held rows = record { tracked = map as_read rows; conflicts = [] }

module _ {R Item : Type 0} ⦃t : Table R⦄ (p : Pushing R Item) where
  unfoldable pub flush_row : Tracked R → M (Unit {0})
  flush_row x = if x.is_new then add x.row else if x.is_dirty then save x.row else pure tt

  -- The rows that the items name, the loop, and the flush, which the next query or `db.flush()` makes.
  unfoldable pub push : ℕ → ℕ → List Item → M (Pushed R)
  push user_id k items = do
    rows ← select_all (λ r. p.user_of r == user_id && in_push p items (p.uuid r))
    held ← lift (push_items p k items (read_held p rows))
    for_each flush_row held.tracked
    pure held
