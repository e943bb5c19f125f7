-- ===== src/Car/History/Schema.antt =====
-- The table of trips is made, or an old one brought up to date: HistoryDatabase::createTable and initDatabase
-- of MyCarUI/HistoryDatabase.cpp.
use learningproject.Common.{
  ℕ, Bool, true, false, not, ◌&&◌, List, [], ◌∷◌, Option, none, some, if◌then◌else◌,
}
use learningproject.Chat.Text.{utf8, str_eq}
use learningproject.Car.History.Interface.{
  Sql, find_table, table_info, create_new, copy, drop, rename, add_speed, create, Sqlite,
}
use learningproject.Car.History.{History, start_auto_sync, refresh_history, unless_failed}

-- whether the columns hold `speed`, and `cost`
unfoldable pub columns_found : List (List ℕ) → Bool × Bool
columns_found [] = (false, false)
columns_found (name ∷ names) =
    let (has_speed, has_cost) = columns_found names in
    if str_eq name (utf8 "speed")
    then (true, has_cost)
    else if str_eq name (utf8 "cost")
    then (has_speed, true)
    else (has_speed, has_cost)

module _ {Db : Type 0} (sql : Sqlite Db) where
  -- The statements of the migration, one after the other: the first that fails undoes them all.
  unfoldable pub migrate : List Sql → Db → Bool × Db
  migrate [] db = (true, sql.commit db)
  migrate (q ∷ qs) db = elim (sql.exec q db) [
    | none ↦ (false, sql.rollback db)
    | some (rows, db') ↦ migrate qs db'
  ]

  -- a table that is there, with these columns
  unfoldable pub update_table : List (List ℕ) → Db → Bool × Db
  update_table names db =
      let (has_speed, has_cost) = columns_found names in
      if has_cost && not has_speed
      then migrate (create_new ∷ copy ∷ drop ∷ rename ∷ []) (sql.transaction db)
      else if not has_speed && not has_cost
      then (true, unless_failed sql add_speed db)
      else (true, db)

  unfoldable pub create_new_table : Db → Bool × Db
  create_new_table db = elim (sql.exec create db) [
    | none ↦ (false, db)
    | some (rows, db') ↦ (true, db')
  ]

  unfoldable pub create_table : History Db → Bool × Db
  create_table h = if not h.is_open then (false, h.db) else elim (sql.exec find_table h.db) [
    | none ↦ create_new_table h.db
    | some ([], db) ↦ create_new_table db
    | some (_ ∷ _, db) ↦ elim (sql.exec table_info db) [
      | none ↦ update_table [] db
      | some (names, db') ↦ update_table names db'
    ]
  ]

  -- `dir_ready` says that the directory exists or can be made, and `opened` is the database, if it can be
  -- opened.
  unfoldable pub init_database :
      (dir_ready : Bool) (opened : Option Db) → History Db → Bool × History Db
  init_database dir_ready opened h = if not dir_ready then (false, h) else elim opened [
    | none ↦ (false, record h { is_open = false })
    | some db ↦
        let ready = record h { db = db; is_open = true } in
        let (created, db') = create_table ready in
        let made = record ready { db = db' } in
        if created then (true, start_auto_sync 5000 (refresh_history sql made)) else (false, made)
  ]
