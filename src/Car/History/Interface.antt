-- ===== src/Car/History/Interface.antt =====
-- The statements of MyCarUI/HistoryDatabase.cpp, and SQLite behind Qt as it is documented: what the code
-- expects of the database.
use mathlib.Core.List.{Memᴰ, Perm}
use learningproject.Common.{ℕ, ◌≡◌, ◌⊎◌, List, [], ◌∷◌, Option, none, some, take, length}

-- struct HistoryData of MyCarUI/HistoryDatabase.h
pub record HistoryData : Type 0 where
  pub date : List ℕ
  pub from : List ℕ
  pub to : List ℕ
  pub dist : List ℕ
  pub time : List ℕ
  pub speed : List ℕ

-- The texts of the statements, with the values that are bound. `create_new` makes the table trips_new,
-- `copy` fills it from trips, and `rename` gives it that name.
pub data Sql : Type 0 where
  find_table table_info create_new copy drop rename add_speed create : Sql
  count_trips select_latest delete_all reset_sequence : Sql
  insert : HistoryData → Sql
  delete_one : (from to date : List ℕ) → Sql

-- what is read of a row of the result: nothing, a column's name, a number or a trip
abbrev pub RowOf : Sql → Type 0
RowOf table_info = List ℕ
RowOf count_trips = ℕ
RowOf select_latest = HistoryData
RowOf _ = Unit

-- QSqlQuery::exec, whose result is the rows and the database then, and QSqlDatabase's transactions.
pub record Sqlite (Db : Type 0) : Type 0 where
  pub exec : (q : Sql) → Db → Option (List (RowOf q) × Db)
  pub transaction : Db → Db
  pub commit : Db → Db
  pub rollback : Db → Db

abbrev pub Reads : Sql → Type 0
Reads find_table = Unit
Reads table_info = Unit
Reads count_trips = Unit
Reads select_latest = Unit
Reads _ = ⊥

-- the columns that DELETE compares
abbrev pub IsSame : HistoryData → HistoryData → Type 0
IsSame a b = (a.from ≡ b.from) × (a.to ≡ b.to) × (a.date ≡ b.date)

-- `newest` are the rows of trips, those with the newest timestamp first, and `saved` the database to which
-- ROLLBACK goes back, while a transaction is active. BEGIN and COMMIT can fail; a ROLLBACK without a
-- transaction does nothing.
pub record Documented {Db : Type 0} (sql : Sqlite Db) : Type 0 where
  pub newest : Db → List HistoryData
  pub saved : Db → Option Db
  pub exec-Reads :
      (q : Sql) (db db' : Db) (rows : List (RowOf q))
      → Reads q
      → sql.exec q db ≡ some (rows, db')
      → db' ≡ db
  pub exec-saved :
      (q : Sql) (db db' : Db) (rows : List (RowOf q))
      → sql.exec q db ≡ some (rows, db')
      → saved db' ≡ saved db
  pub exec-count_trips :
      (db db' : Db) (rows : List ℕ)
      → sql.exec count_trips db ≡ some (rows, db')
      → rows ≡ length (newest db) ∷ []
  pub exec-select_latest :
      (db db' : Db) (rows : List HistoryData)
      → sql.exec select_latest db ≡ some (rows, db')
      → rows ≡ take 50 (newest db)
  pub exec-insert :
      (t : HistoryData) (db db' : Db) (rows : List Unit)
      → sql.exec (insert t) db ≡ some (rows, db')
      → Perm (newest db') (t ∷ newest db)
  pub exec-delete_one :
      (t : HistoryData) (db db' : Db) (rows : List Unit)
      → Memᴰ t (newest db)
      → sql.exec (delete_one t.from t.to t.date) db ≡ some (rows, db')
      → (gone : HistoryData) × IsSame gone t × Perm (newest db) (gone ∷ newest db')
  pub transaction-saved :
      (db : Db)
      → saved db ≡ none
      → (saved (sql.transaction db) ≡ some db) ⊎ (sql.transaction db ≡ db)
  pub rollback-saved : (db before : Db) → saved db ≡ some before → sql.rollback db ≡ before
  pub rollback-idle : (db : Db) → saved db ≡ none → sql.rollback db ≡ db
