-- ===== src/Migrations/Keeps.antt =====
-- What a statement on one table of Migrations.Catalog changes, and what it leaves.
use open_key_server.Base.{
  String, ◌≡◌, refl, ◌⊎◌, inl, inr, Bool, true, false, Option, none, some, List, [], ◌∷◌, any,
  string_eq, if◌then◌else◌,
}
use open_key_server.Migrations.Catalog.{SqlTable, put, is_named, update_table}

module _ (name : String) (f : SqlTable → Option SqlTable) where
  -- The first table of the name is changed by `f`, and no other is.
  abbrev pub IsUpdated : List SqlTable → List SqlTable → Type 0
  IsUpdated [] tables' = false ≡ true
  IsUpdated (t ∷ tables) [] = false ≡ true
  IsUpdated (t ∷ tables) (t' ∷ tables') =
      ((is_named name t ≡ true) × (f t ≡ some t') × (tables' ≡ tables))
      ⊎ ((is_named name t ≡ false) × (t' ≡ t) × IsUpdated tables tables')

  update_step :
      (t : SqlTable) (tables : List SqlTable) (b : Bool) (changed : Option SqlTable)
      (rest : Option (List SqlTable))
      → is_named name t ≡ b
      → f t ≡ changed
      → ((tables' : List SqlTable) → rest ≡ some tables' → IsUpdated tables tables')
      → (tables' : List SqlTable)
      → (if b then elim changed [ none ↦ none | some t' ↦ some (t' ∷ tables) ] else put t rest)
        ≡ some tables'
      → IsUpdated (t ∷ tables) tables'
  update_step t tables true none rest b c ih tables' h = cc
  update_step t tables true (some x) rest b c ih [] h = cc
  update_step t tables true (some x) rest b c ih (t' ∷ tables') h = inl (b, cc, cc)
  update_step t tables false changed none b c ih tables' h = cc
  update_step t tables false changed (some r) b c ih [] h = cc
  update_step t tables false changed (some r) b c ih (t' ∷ tables') h = inr (b, cc, ih tables' cc)

  pub update_table-IsUpdated :
      (tables tables' : List SqlTable)
      → update_table name f tables ≡ some tables'
      → IsUpdated tables tables'
  unfolding update_table
  update_table-IsUpdated [] tables' h = cc
  update_table-IsUpdated (t ∷ tables) tables' h =
      update_step t tables (is_named name t) (f t) (update_table name f tables) refl refl
        (update_table-IsUpdated tables) tables' h

  pub any-update_table :
      (p : SqlTable → Bool) (keeps : (t t' : SqlTable) → f t ≡ some t' → p t' ≡ p t)
      (tables tables' : List SqlTable)
      → IsUpdated tables tables'
      → any p tables' ≡ any p tables
  unfolding any
  any-update_table p keeps [] tables' u = cc
  any-update_table p keeps (t ∷ tables) [] u = cc
  any-update_table p keeps (t ∷ tables) (t' ∷ tables') (inl (b, e, same)) = rw (keeps t t' e, same)
  any-update_table p keeps (t ∷ tables) (t' ∷ tables') (inr (b, same, u)) =
      rw (same, any-update_table p keeps tables tables' u)
