-- ===== src/Migrations/Indexes.antt =====
-- Adding and dropping an index of Migrations.Catalog.
use open_key_server.Base.{
  String, ◌≡◌, refl, sym, subst, inl, inr, Bool, true, false, ◌||◌, none, some, List, [], ◌∷◌, any,
  ◌==◌, string_eq, arith,
}
use open_key_server.Migrations.Catalog.{
  Index, SqlTable, has_index, add_index, without_index, remove_index,
}
use open_key_server.Migrations.Keeps.{IsUpdated}

without_index-none :
    (name : String) (indexes : List Index)
    → any (λ i. i.name == name) indexes ≡ false
    → without_index name indexes ≡ none
unfolding any without_index
without_index-none name [] h = refl
without_index-none name (i ∷ indexes) h = ground (arith, without_index-none name indexes)

pub or_false : (a b : Bool) → a || b ≡ false → (a ≡ false) × (b ≡ false)
or_false a b h = ground arith

pub is_same : (name : String) → (name == name) ≡ true
is_same name = (string_eq.equal_iff name name).1 refl

pub add_index-is :
    (i : Index) (t t' : SqlTable)
    → add_index i t ≡ some t'
    → t' ≡ record t { indexes = i ∷ t.indexes }
add_index-is i t t' h = ground arith

without_index-first :
    (i : Index) (indexes : List Index) → without_index i.name (i ∷ indexes) ≡ some indexes
unfolding without_index
without_index-first i indexes = rw (is_same i.name)

remove_index-here :
    (name : String) (t : SqlTable) (indexes : List Index) (tables : List SqlTable)
    → without_index name t.indexes ≡ some indexes
    → remove_index name (t ∷ tables) ≡ some (record t { indexes = indexes } ∷ tables)
unfolding remove_index
remove_index-here name t indexes tables h = rw (remove_index, h)

remove_index-there :
    (name : String) (t : SqlTable) (tables rest : List SqlTable)
    → without_index name t.indexes ≡ none
    → remove_index name tables ≡ some rest
    → remove_index name (t ∷ tables) ≡ some (t ∷ rest)
unfolding remove_index
remove_index-there name t tables rest h e = rw (remove_index, h, e)

pub remove-add_index :
    (name : String) (i : Index) (tables tables' : List SqlTable)
    → any (has_index i.name) tables ≡ false
    → IsUpdated name (add_index i) tables tables'
    → remove_index i.name tables' ≡ some tables
unfolding any
remove-add_index name i [] tables' h u = cc
remove-add_index name i (t ∷ tables) [] h u = cc
remove-add_index name i (t ∷ tables) (t' ∷ tables') h (inl (b, e, same)) =
    let here =
      remove_index-here i.name (record t { indexes = i ∷ t.indexes }) t.indexes tables
        (without_index-first i t.indexes) in
    subst (λ x. remove_index i.name (x ∷ tables') ≡ some (t ∷ tables)) (sym (add_index-is i t t' e))
      (subst
        (λ x. remove_index i.name (record t { indexes = i ∷ t.indexes } ∷ x) ≡ some (t ∷ tables))
        (sym same) here)
remove-add_index name i (t ∷ tables) (t' ∷ tables') h (inr (b, same, u)) =
    let free = or_false (has_index i.name t) (any (has_index i.name) tables) h in
    subst (λ x. remove_index i.name (x ∷ tables') ≡ some (t ∷ tables)) (sym same)
      (remove_index-there i.name t tables' tables (without_index-none i.name t.indexes free.0)
        (remove-add_index name i tables tables' free.1 u))
