-- ===== src/Car/History/Migration.antt =====
-- A table is made or brought up to date as a whole, or stays as it is: createTable of
-- MyCarUI/HistoryDatabase.cpp.
use mathlib.Core.Path.{subst}
use learningproject.Common.{
  ℕ, ◌≡◌, refl, ap, ◌∙◌, inl, inr, Bool, true, false, List, [], ◌∷◌, Option, none, some,
  Option-cases, Bool-cases,
}
use learningproject.Car.History.Interface.{
  Sql, find_table, table_info, create_new, copy, drop, rename, add_speed, create, RowOf, Sqlite,
  Documented,
}
use learningproject.Car.History.{History, unless_failed}
use learningproject.Car.History.Schema.{
  columns_found, migrate, update_table, create_new_table, create_table,
}

module _ {Db : Type 0} (sql : Sqlite Db) where
  -- the database after all the statements, if none of them fails
  unfoldable pub run_all : List Sql → Db → Option Db
  run_all [] db = some db
  run_all (q ∷ qs) db = elim (sql.exec q db) [ none ↦ none | some (rows, db') ↦ run_all qs db' ]

  abbrev pub migration : List Sql
  migration = create_new ∷ copy ∷ drop ∷ rename ∷ []

  -- the tables that are found
  abbrev pub tables : Db → List (Unit {0})
  tables db = elim (sql.exec find_table db) [ none ↦ [] | some (rows, db') ↦ rows ]

  -- the columns of the table, as far as they can be read
  abbrev pub columns : Db → List (List ℕ)
  columns db = elim (sql.exec table_info db) [ none ↦ [] | some (names, db') ↦ names ]

  -- The database `after` is `before`, where no table was found, with a new one; or with the old one's rows in
  -- a table with the new columns, and COMMIT was called for it; or with one more column, where it can be
  -- added; or it is `before`, whose table has the column `speed`.
  pub data IsDone (before after : Db) : Type 0 where
    created :
        (rows : List Unit)
        → tables before ≡ []
        → sql.exec create before ≡ some (rows, after)
        → IsDone before after
    migrated :
        (moved : Db)
        → columns_found (columns before) ≡ (false, true)
        → run_all migration (sql.transaction before) ≡ some moved
        → after ≡ sql.commit moved
        → IsDone before after
    extended :
        columns_found (columns before) ≡ (false, false)
        → after ≡ unless_failed sql add_speed before
        → IsDone before after
    kept :
        (has_cost : Bool)
        → columns_found (columns before) ≡ (true, has_cost)
        → after ≡ before
        → IsDone before after

  -- All is done where the result is true, and nothing where it is false.
  abbrev pub IsWhole : Db → Bool × Db → Type 0
  IsWhole db (true, db') = IsDone db db'
  IsWhole db (false, db') = db' ≡ db

module _ {Db : Type 0} (sql : Sqlite Db) (doc : Documented sql) where
  -- The statements are all run and COMMIT is called, or the result is false and nothing has changed.
  abbrev IsAtomic : List Sql → (before db : Db) → Bool × Db → Type 0
  IsAtomic qs before db (true, db') =
      (moved : Db) × (run_all sql qs db ≡ some moved) × (db' ≡ sql.commit moved)
  IsAtomic qs before db (false, db') = db' ≡ before

  IsAtomic-more :
      (q : Sql) (qs : List Sql) (before db db' : Db) (rows : List (RowOf q)) (r : Bool × Db)
      → sql.exec q db ≡ some (rows, db')
      → IsAtomic qs before db' r
      → IsAtomic (q ∷ qs) before db r
  unfolding run_all
  IsAtomic-more q qs before db db' rows (true, after) e (moved, all, same) =
      (moved, rw (e, run_all) all, same)
  IsAtomic-more q qs before db db' rows (false, after) e same = same

  migrate-IsAtomic :
      (qs : List Sql) (before db : Db)
      → doc.saved db ≡ some before
      → IsAtomic qs before db (migrate sql qs db)
  unfolding migrate run_all
  migrate-IsAtomic [] before db active = (db, refl, refl)
  migrate-IsAtomic (q ∷ qs) before db active = elim (Option-cases (sql.exec q db)) [
    | inl failed ↦ rw (failed, migrate) (doc.rollback-saved db before active)
    | inr ((rows, db'), e) ↦
        let active' = doc.exec-saved q db db' rows e ∙ active in
        let later = migrate-IsAtomic qs before db' active' in
        rw (e, migrate) (IsAtomic-more q qs before db db' rows (migrate sql qs db') e later)
  ]

  migrated-IsWhole :
      (db : Db) (r : Bool × Db)
      → columns_found (columns sql db) ≡ (false, true)
      → IsAtomic (migration sql) db (sql.transaction db) r
      → IsWhole sql db r
  migrated-IsWhole db (true, db') found (moved, all, same) = migrated moved found all same
  migrated-IsWhole db (false, db') found same = same

  -- the three cases of a table that is there
  update_table-IsWhole :
      (names : List (List ℕ)) (has_speed has_cost : Bool) (db : Db)
      → columns sql db ≡ names
      → columns_found names ≡ (has_speed, has_cost)
      → doc.saved (sql.transaction db) ≡ some db
      → IsWhole sql db (update_table sql names db)
  unfolding update_table
  update_table-IsWhole names true false db read found begins =
      let seen = ap (λ ns. columns_found ns) read ∙ found in
      rw (found, update_table) (kept false seen refl)
  update_table-IsWhole names true true db read found begins =
      let seen = ap (λ ns. columns_found ns) read ∙ found in
      rw (found, update_table) (kept true seen refl)
  update_table-IsWhole names false false db read found begins =
      let seen = ap (λ ns. columns_found ns) read ∙ found in
      rw (found, update_table) (extended seen refl)
  update_table-IsWhole names false true db read found begins =
      let seen = ap (λ ns. columns_found ns) read ∙ found in
      let atomic = migrate-IsAtomic (migration sql) db (sql.transaction db) begins in
      rw (found, update_table)
        (migrated-IsWhole db (migrate sql (migration sql) (sql.transaction db)) seen atomic)

  create_new_table-IsWhole :
      (db : Db) → tables sql db ≡ [] → IsWhole sql db (create_new_table sql db)
  unfolding create_new_table
  create_new_table-IsWhole db missing = elim (Option-cases (sql.exec create db)) [
    | inl failed ↦ rw (failed, create_new_table) refl
    | inr ((rows, db'), e) ↦ rw (e, create_new_table) (created rows missing e)
  ]

  -- a database with a table, whose columns are asked for
  abbrev known_table : Db → Bool × Db
  known_table db = elim (sql.exec table_info db) [
    | none ↦ update_table sql [] db
    | some (names, db') ↦ update_table sql names db'
  ]

  known_table-IsWhole :
      (db : Db) → doc.saved (sql.transaction db) ≡ some db → IsWhole sql db (known_table db)
  known_table-IsWhole db begins = elim (Option-cases (sql.exec table_info db)) [
    | inl failed ↦
        let (has_speed, has_cost) = columns_found [] in
        rw (failed, known_table)
          (update_table-IsWhole [] has_speed has_cost db (rw (failed, columns) refl) refl begins)
    | inr ((names, db'), info) ↦
        let same = doc.exec-Reads table_info db db' names tt info in
        let (has_speed, has_cost) = columns_found names in
        rw (info, same, known_table)
          (update_table-IsWhole names has_speed has_cost db (rw (info, columns) refl) refl begins)
  ]

  -- BEGIN succeeds on the database; whether COMMIT does is left open. If createTable fails, be it at any
  -- statement of the migration of an old table, the database is what it was before. Otherwise no table was
  -- found, and it was made; or the four statements of the migration of an old table, with `cost` and without
  -- `speed`, have all run, and COMMIT was called; or a table whose columns are neither has got the column
  -- `speed`, where it can be added; or the table has this column, and nothing has changed.
  pub create_table-IsWhole :
      (h : History Db)
      → doc.saved (sql.transaction h.db) ≡ some h.db
      → IsWhole sql h.db (create_table sql h)
  unfolding create_table
  create_table-IsWhole h begins = elim (Bool-cases h.is_open) [
    | inr closed ↦ rw (closed, create_table) refl
    | inl opened ↦ elim (Option-cases (sql.exec find_table h.db)) [
      | inl failed ↦
          let missing : tables sql h.db ≡ [] = rw (failed, tables) refl in
          rw (opened, failed, create_table) (create_new_table-IsWhole h.db missing)
      | inr (([], db), e) ↦
          let same = doc.exec-Reads find_table h.db db [] tt e in
          let missing : tables sql h.db ≡ [] = rw (e, tables) refl in
          let whole = create_new_table-IsWhole db (ap (λ d. tables sql d) same ∙ missing) in
          rw (opened, e, create_table)
            (subst (λ d. IsWhole sql d (create_new_table sql db)) same whole)
      | inr ((row ∷ rows, db), e) ↦
          let same = doc.exec-Reads find_table h.db db (row ∷ rows) tt e in
          let begins' : doc.saved (sql.transaction db) ≡ some db = rw same begins in
          rw (opened, e, create_table)
            (subst (λ d. IsWhole sql d (known_table db)) same (known_table-IsWhole db begins'))
    ]
  ]
