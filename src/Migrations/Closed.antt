-- ===== src/Migrations/Closed.antt =====
-- Every foreign key of Migrations.Catalog refers to a table that is there.
use open_key_server.Base.{
  String, ◌≡◌, refl, sym, ap, ◌∙◌, subst, ◌⊎◌, inl, inr, Bool, true, false, not, ◌||◌, ◌&&◌, Option,
  none, some, List, [], ◌∷◌, any, ◌==◌, string_eq, if◌then◌else◌, arith,
}
use open_key_server.Migrations.Catalog.{
  ForeignKey, Index, SqlTable, Op, create_table, create_index, alter_column, drop_index, drop_table,
  add_column_if_not_exists, set_type, set_default, is_named, has_table, has_targets, has_index,
  refers_to, update_table, add_index, with_type, in_column, run_op,
}
use open_key_server.Migrations.Keeps.{update_table-IsUpdated, any-update_table}
use open_key_server.Migrations.Types.{in_column-keeps, some-is}
use open_key_server.Migrations.Indexes.{add_index-is}

unfoldable pub IsClosed : List SqlTable → Type 0
IsClosed tables =
    (name : String) → any (refers_to name) tables ≡ true → has_table name tables ≡ true

pub or_cases : (a b : Bool) → a || b ≡ true → (a ≡ true) ⊎ (b ≡ true)
or_cases true b h = inl refl
or_cases false b h = inr h

pub or_second : (a b : Bool) → b ≡ true → a || b ≡ true
or_second a b h = ground arith

pub and_parts : (a b : Bool) → a && b ≡ true → (a ≡ true) × (b ≡ true)
and_parts a b h = ground arith

has_targets-has_table :
    (keys : List ForeignKey) (tables : List SqlTable) (name : String)
    → has_targets keys tables ≡ true
    → any (λ k. k.target == name) keys ≡ true
    → has_table name tables ≡ true
unfolding has_targets any
has_targets-has_table [] tables name h a = cc
has_targets-has_table (k ∷ keys) tables name h a =
    let both = and_parts (has_table k.target tables) (has_targets keys tables) h in
    elim (or_cases (k.target == name) (any (λ k'. k'.target == name) keys) a) [
      | inl e ↦
          subst (λ n. has_table n tables ≡ true) ((string_eq.equal_iff k.target name).0 e) both.0
      | inr e ↦ has_targets-has_table keys tables name both.1 e
    ]

pub create_table-IsClosed :
    (t : SqlTable) (tables : List SqlTable)
    → has_targets t.foreign_keys (t ∷ tables) ≡ true
    → IsClosed tables
    → IsClosed (t ∷ tables)
unfolding IsClosed any has_table
create_table-IsClosed t tables h closed name a =
    elim (or_cases (refers_to name t) (any (refers_to name) tables) a) [
      | inl e ↦ has_targets-has_table t.foreign_keys (t ∷ tables) name h e
      | inr e ↦ or_second (is_named name t) (any (is_named name) tables) (closed name e)
    ]

-- What an update leaves closed: it keeps each table's name and foreign keys.
update_table-IsClosed :
    (name : String) (f : SqlTable → Option SqlTable)
    (same_name : (other : String) (t t' : SqlTable)
      → f t ≡ some t'
      → is_named other t' ≡ is_named other t)
    (same_keys : (other : String) (t t' : SqlTable)
      → f t ≡ some t'
      → refers_to other t' ≡ refers_to other t)
    (tables tables' : List SqlTable)
    → update_table name f tables ≡ some tables'
    → IsClosed tables
    → IsClosed tables'
unfolding IsClosed has_table
update_table-IsClosed name f same_name same_keys tables tables' h closed other a =
    let u = update_table-IsUpdated name f tables tables' h in
    any-update_table name f (is_named other) (same_name other) tables tables' u
    ∙ closed other
        (sym (any-update_table name f (refers_to other) (same_keys other) tables tables' u) ∙ a)

pub add_index-same :
    {A : Type 0} (p : SqlTable → A)
    (keeps : (t : SqlTable) (indexes : List Index) → p (record t { indexes = indexes }) ≡ p t)
    (i : Index) (t t' : SqlTable)
    → add_index i t ≡ some t'
    → p t' ≡ p t
add_index-same p keeps i t t' h = ap p (add_index-is i t t' h) ∙ keeps t (i ∷ t.indexes)

-- What a statement that did not fail has found.
if_created :
    {A : Type 0} (exists_ targets : Bool) (x y : A)
    → (if not exists_ && targets then some x else none) ≡ some y
    → (exists_ ≡ false) × (targets ≡ true) × (x ≡ y)
if_created false true x y h = (refl, refl, some-is x y h)
if_created false false x y h = cc
if_created true targets x y h = cc

pub created :
    (t : SqlTable) (tables tables' : List SqlTable)
    → run_op (create_table t) tables ≡ some tables'
    → (has_table t.name tables ≡ false)
      × (has_targets t.foreign_keys (t ∷ tables) ≡ true)
      × (t ∷ tables ≡ tables')
unfolding run_op
created t tables tables' h =
    if_created (has_table t.name tables) (has_targets t.foreign_keys (t ∷ tables)) (t ∷ tables)
      tables' h

if_indexed :
    {A : Type 0} (exists_ : Bool) (x : Option A) (y : A)
    → (if exists_ then none else x) ≡ some y
    → (exists_ ≡ false) × (x ≡ some y)
if_indexed false x y h = (refl, h)
if_indexed true x y h = cc

pub indexed :
    (name : String) (i : Index) (tables tables' : List SqlTable)
    → run_op (create_index name i) tables ≡ some tables'
    → (any (has_index i.name) tables ≡ false)
      × (update_table name (add_index i) tables ≡ some tables')
unfolding run_op
indexed name i tables tables' h =
    if_indexed (any (has_index i.name) tables) (update_table name (add_index i) tables) tables' h

-- The statements that a later one takes back.
unfoldable pub is_undoable : Op → Bool
is_undoable (create_table t) = true
is_undoable (create_index name i) = true
is_undoable (alter_column name column existing type') = true
is_undoable _ = false

pub run_op-IsClosed :
    (op : Op) (tables tables' : List SqlTable)
    → is_undoable op ≡ true
    → IsClosed tables
    → run_op op tables ≡ some tables'
    → IsClosed tables'
unfolding run_op is_undoable
run_op-IsClosed (create_table t) tables tables' u closed h =
    let found = created t tables tables' h in
    subst IsClosed found.2 (create_table-IsClosed t tables found.1 closed)
run_op-IsClosed (create_index name i) tables tables' u closed h =
    update_table-IsClosed name (add_index i)
      (λ other. add_index-same (is_named other) (λ s indexes. refl) i)
      (λ other. add_index-same (refers_to other) (λ s indexes. refl) i) tables tables'
      (indexed name i tables tables' h).1 closed
run_op-IsClosed (alter_column name column existing type') tables tables' u closed h =
    update_table-IsClosed name (in_column column (with_type type'))
      (λ other. in_column-keeps (is_named other) (λ s columns. refl) column (with_type type'))
      (λ other. in_column-keeps (refers_to other) (λ s columns. refl) column (with_type type'))
      tables tables' h closed
run_op-IsClosed (drop_index name) tables tables' u closed h = cc
run_op-IsClosed (drop_table name) tables tables' u closed h = cc
run_op-IsClosed (add_column_if_not_exists name c) tables tables' u closed h = cc
run_op-IsClosed (set_type name column type') tables tables' u closed h = cc
run_op-IsClosed (set_default name column default) tables tables' u closed h = cc
