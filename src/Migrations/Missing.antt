-- ===== src/Migrations/Missing.antt =====
-- `create_all` of app/db/migrate.py: no declared table is missing afterwards.
use open_key_server.Base.{
  String, ◌≡◌, refl, ◌∙◌, subst, ◌⊎◌, inl, inr, Bool, true, false, ◌||◌, Option, none, some, List,
  [], ◌∷◌, map, any, string_eq, if◌then◌else◌, arith,
}
use open_key_server.Migrations.Catalog.{Index, SqlTable, create_index, is_named, has_table, run}
use open_key_server.Migrations.Types.{some-is}
use open_key_server.Migrations.Closed.{is_undoable, or_cases, or_second}
use open_key_server.Migrations.Scripts.{all_undoable, creates, has_table-run}
use open_key_server.Migrations.Startup.{create_all_of, create_missing_table, create_all}

creating_indexes :
    (name : String) (indexes : List Index) → all_undoable (map (create_index name) indexes) ≡ true
unfolding all_undoable is_undoable
creating_indexes name [] = refl
creating_indexes name (i ∷ indexes) = creating_indexes name indexes

creating : (t : SqlTable) → all_undoable (create_all_of t) ≡ true
unfolding all_undoable is_undoable
creating t = creating_indexes t.name t.indexes

or_first : (a b c : Bool) → a || c ≡ true → (a || b) || c ≡ true
or_first a b c h = ground arith

or_left : (a b : Bool) → a ≡ true → a || b ≡ true
or_left a b h = ground arith

or_apart : (a b c : Bool) → (a || b) || c ≡ true → (b ≡ true) ⊎ (a || c ≡ true)
or_apart a true c h = inl refl
or_apart true false c h = inr refl
or_apart false false c h = inr h

module _ (name : String) where
  missing_step :
      (t : SqlTable) (tables tables' : List SqlTable) (b : Bool)
      → has_table t.name tables ≡ b
      → (is_named name t || has_table name tables) ≡ true
      → (if b then some tables else run (create_all_of t) tables) ≡ some tables'
      → has_table name tables' ≡ true
  unfolding any creates
  missing_step t tables tables' true e g h =
      subst (λ x. has_table name x ≡ true) (some-is tables tables' h)
        (elim (or_cases (is_named name t) (has_table name tables) g) [
          | inl same ↦
              subst (λ x. has_table x tables ≡ true) ((string_eq.equal_iff t.name name).0 same) e
          | inr there ↦ there
        ])
  missing_step t tables tables' false e g h =
      has_table-run name (create_all_of t) tables tables' (creating t) h
      ∙ or_first (is_named name t) _ (has_table name tables) g

  pub create_all-has_table :
      (declared tables tables' : List SqlTable)
      → (any (is_named name) declared || has_table name tables) ≡ true
      → create_all declared tables ≡ some tables'
      → has_table name tables' ≡ true
  unfolding create_all any
  create_all-has_table [] tables tables' g h =
      subst (λ x. has_table name x ≡ true) (some-is tables tables' h) g
  create_all-has_table (t ∷ declared) tables tables' g h =
      step (create_missing_table t tables) (create_all-has_table declared) refl h
    where
      later :
          (x : List SqlTable)
          → create_missing_table t tables ≡ some x
          → (any (is_named name) declared || has_table name x) ≡ true
      later x e =
          elim (or_apart (is_named name t) (any (is_named name) declared) (has_table name tables)
            g) [
              | inl b ↦ or_left (any (is_named name) declared) (has_table name x) b
              | inr there ↦
                  or_second (any (is_named name) declared) (has_table name x)
                    (missing_step t tables x (has_table t.name tables) refl there e)
            ]

      step :
          (made : Option (List SqlTable))
          → ((x y : List SqlTable)
              → (any (is_named name) declared || has_table name x) ≡ true
              → create_all declared x ≡ some y
              → has_table name y ≡ true)
          → create_missing_table t tables ≡ made
          → (elim made [ none ↦ none | some x ↦ create_all declared x ]) ≡ some tables'
          → has_table name tables' ≡ true
      step none ih e k = cc
      step (some x) ih e k = ih x tables' (later x e) k
