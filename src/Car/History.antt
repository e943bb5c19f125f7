-- ===== src/Car/History.antt =====
-- The list of trips: HistoryDatabase of MyCarUI/HistoryDatabase.cpp. What the statements do to the database
-- is SQLite's, and given by the section's parameter; a statement that fails changes nothing. Strings are
-- their bytes, and the log is left out.
pub mod Interface
pub mod Schema
pub mod Views
pub mod Changes
pub mod Syncing
pub mod Migration
pub mod Statistics
use learningproject.Common.{
  ℕ, zero, suc, Bool, true, false, not, ◌&&◌, List, [], ◌∷◌, ◌++◌, Option, none, some,
  if◌then◌else◌, ◌==◌, length, get_elem?, ℤ, pos, negsuc,
}
use learningproject.Chat.Text.{utf8}
use learningproject.Car.History.Interface.{
  HistoryData, Sql, count_trips, insert, delete_one, delete_all, reset_sequence, select_latest,
  RowOf, Sqlite,
}

-- the signals of the model
pub data Signal : Type 0 where
  about_to_reset reset count_changed data_changed : Signal

-- `interval` is that of the timer, while it is active; `signals` are those emitted so far.
pub record History (Db : Type 0) : Type 0 where
  pub db : Db
  pub is_open : Bool
  pub list : List HistoryData
  pub interval : Option ℕ
  pub signals : List Signal

-- the strings of a QVariantMap
abbrev pub VariantMap : Type 0
VariantMap = List ℕ → Option (List ℕ)

-- The string is empty where the key is missing: a null QString is not told from an empty one.
abbrev pub text_at : VariantMap → List ℕ → List ℕ
text_at trip key = elim (trip key) [ none ↦ [] | some text ↦ text ]

abbrev pub speed_of : VariantMap → List ℕ
speed_of trip = elim (trip (utf8 "speed")) [ none ↦ utf8 "--" | some text ↦ text ]

-- the values that are bound
abbrev pub bound : VariantMap → HistoryData
bound trip = record {
  date = text_at trip (utf8 "date");
  from = text_at trip (utf8 "from");
  to = text_at trip (utf8 "to");
  dist = text_at trip (utf8 "dist");
  time = text_at trip (utf8 "time");
  speed = speed_of trip;
}

pub data Role : Type 0 where
  date_role from_role to_role dist_role time_role speed_role : Role

unfoldable pub field : Role → HistoryData → List ℕ
field date_role item = item.date
field from_role item = item.from
field to_role item = item.to
field dist_role item = item.dist
field time_role item = item.time
field speed_role item = item.speed

abbrev pub role_names : List (Role × List ℕ)
role_names =
    (date_role, utf8 "date")
    ∷ (from_role, utf8 "from")
    ∷ (to_role, utf8 "to")
    ∷ (dist_role, utf8 "dist")
    ∷ (time_role, utf8 "time")
    ∷ (speed_role, utf8 "speed")
    ∷ []

-- `m_historyList.at(index)`, where the index is in range
unfoldable pub item_at : {A : Type 0} → List A → ℤ → Option A
item_at items (pos n) = get_elem? items n
item_at items (negsuc n) = none

module _ {Db : Type 0} where
  abbrev pub row_count : History Db → ℕ
  row_count h = length h.list

  abbrev pub count : History Db → ℕ
  count h = length h.list

  abbrev pub is_auto_sync : History Db → Bool
  is_auto_sync h = elim h.interval [ none ↦ false | some interval_ms ↦ true ]

  unfoldable pub data_at : History Db → ℤ → Role → Option (List ℕ)
  data_at h row role = elim (item_at h.list row) [
    | none ↦ none
    | some item ↦ some (field role item)
  ]

  abbrev pub emit : List Signal → History Db → History Db
  emit more h = record h { signals = h.signals ++ more }

  unfoldable pub start_auto_sync : ℕ → History Db → History Db
  start_auto_sync interval_ms h = if h.is_open then record h { interval = some interval_ms } else h

  unfoldable pub stop_auto_sync : History Db → History Db
  stop_auto_sync h = if h.is_open then record h { interval = none } else h

-- the database after a statement whose result is not looked at
unfoldable pub unless_failed : {Db : Type 0} → Sqlite Db → Sql → Db → Db
unless_failed sql q db = elim (sql.exec q db) [ none ↦ db | some (rows, db') ↦ db' ]

module _ {Db : Type 0} (sql : Sqlite Db) where
  unfoldable pub refresh_history : History Db → History Db
  refresh_history h = if not h.is_open then h else elim (sql.exec select_latest h.db) [
    | none ↦ emit (about_to_reset ∷ reset ∷ []) (record h { list = [] })
    | some (rows, db) ↦
        emit (about_to_reset ∷ reset ∷ count_changed ∷ []) (record h { list = rows; db = db })
  ]

  -- The slot of the timer.
  unfoldable pub on_auto_sync_timeout : History Db → History Db
  on_auto_sync_timeout h = if not h.is_open then h else elim (sql.exec count_trips h.db) [
    | none ↦ h
    | some ([], db) ↦ record h { db = db }
    | some (db_count ∷ _, db) ↦
        let read = record h { db = db } in
        if db_count == length h.list then read else emit (data_changed ∷ []) (refresh_history read)
  ]

  unfoldable pub insert_trip : VariantMap → History Db → History Db
  insert_trip trip h = if not h.is_open then h else elim (sql.exec (insert (bound trip)) h.db) [
    | none ↦ h
    | some (rows, db) ↦ refresh_history (record h { db = db })
  ]

  unfoldable pub delete_trip : ℤ → History Db → History Db
  delete_trip index h = if not h.is_open then h else elim (item_at h.list index) [
    | none ↦ h
    | some trip ↦ elim (sql.exec (delete_one trip.from trip.to trip.date) h.db) [
      | none ↦ h
      | some (rows, db) ↦ refresh_history (record h { db = db })
    ]
  ]

  -- The result of the second statement is not looked at.
  unfoldable pub clear_all_trips : History Db → History Db
  clear_all_trips h =
      if not h.is_open
      then h
      else let begun = sql.transaction h.db in
        elim (sql.exec delete_all begun) [
          | none ↦ record h { db = sql.rollback begun }
          | some (rows, db) ↦
              refresh_history (record h { db = sql.commit (unless_failed sql reset_sequence db) })
        ]
