-- ===== src/Car/Tests/Shelf.antt =====
-- A database in memory for the trips of MyCarUI/HistoryDatabase.cpp, that does what the statements say:
-- tables are lists of rows, the newest first.
pub mod Laws
use mathlib.Core.List.{Memᴰ, Perm}
use mathlib.Core.List.Perm
use mathlib.Core.List.Memᴰ
use learningproject.Common.{
  ℕ, ◌≡◌, refl, sym, ap, ◌∙◌, Bool, true, false, ◌&&◌, List, [], ◌∷◌, ◌++◌, Option, none, some,
  arith, inl, inr, length, take, map, if◌then◌else◌, Bool-cases, Option-cases,
}
use learningproject.Chat.Text.{utf8, str_eq}
use learningproject.Chat.Text.Laws.{eq_of_str_eq, str_eq_self}
use learningproject.Car.History.Interface.{
  HistoryData, Sql, find_table, table_info, create_new, copy, drop, rename, add_speed, create,
  count_trips, select_latest, delete_all, reset_sequence, insert, delete_one, RowOf, Sqlite, Reads,
  IsSame, Documented,
}

pub record Table : Type 0 where
  pub columns : List (List ℕ)
  pub rows : List HistoryData

pub record Tables : Type 0 where
  pub trips : Option Table
  pub trips_new : Option Table

-- `kept` are the tables to which a rollback goes back.
pub record Shelf : Type 0 where
  pub tables : Tables
  pub kept : Option Tables

abbrev pub empty_table : Table
empty_table = record { columns = utf8 "date" ∷ utf8 "speed" ∷ []; rows = [] }

abbrev pub with_speed : HistoryData → HistoryData
with_speed t = record t { speed = utf8 "--" }

unfoldable pub same_trip : (from to date : List ℕ) → HistoryData → Bool
same_trip from to date t = str_eq t.from from && (str_eq t.to to && str_eq t.date date)

unfoldable pub without_one : (from to date : List ℕ) → List HistoryData → List HistoryData
without_one from to date [] = []
without_one from to date (t ∷ ts) =
    let rest = without_one from to date ts in if same_trip from to date t then ts else t ∷ rest

abbrev pub on_trips : Tables → (Table → List HistoryData) → Option (List (Unit {0}) × Tables)
on_trips d rows = elim d.trips [
  | none ↦ none
  | some t ↦ some ([], record d { trips = some (record t { rows = rows t }) })
]

unfoldable pub run : (q : Sql) → Tables → Option (List (RowOf q) × Tables)
run find_table d = elim d.trips [ none ↦ some ([], d) | some t ↦ some (tt ∷ [], d) ]
run table_info d = elim d.trips [ none ↦ some ([], d) | some t ↦ some (t.columns, d) ]
run create_new d = elim d.trips_new [
  | none ↦ some ([], record d { trips_new = some empty_table })
  | some t ↦ none
]
run copy d = elim d.trips [
  | none ↦ none
  | some t ↦
      some ([], record d { trips_new = some (record empty_table { rows = map with_speed t.rows }) })
]
run drop d = elim d.trips [ none ↦ none | some t ↦ some ([], record d { trips = none }) ]
run rename d = elim d.trips [
  | none ↦ some ([], record { trips = d.trips_new; trips_new = none })
  | some t ↦ none
]
run add_speed d = elim d.trips [
  | none ↦ none
  | some t ↦ some (
    [],
    record d {
      trips =
          some (record { columns = t.columns ++ utf8 "speed" ∷ []; rows = map with_speed t.rows });
    },
  )
]
run create d = elim d.trips [
  | none ↦ some ([], record d { trips = some empty_table })
  | some t ↦ some ([], d)
]
run count_trips d = elim d.trips [ none ↦ none | some t ↦ some (length t.rows ∷ [], d) ]
run select_latest d = elim d.trips [ none ↦ none | some t ↦ some (take 50 t.rows, d) ]
run delete_all d = on_trips d (λ t. [])
run reset_sequence d = some ([], d)
run (insert new) d = on_trips d (λ t. new ∷ t.rows)
run (delete_one from to date) d = on_trips d (λ t. without_one from to date t.rows)

abbrev pub shelf : Sqlite Shelf
shelf = record {
  exec = λ q d. elim (run q d.tables) [
    | none ↦ none
    | some (rows, tables) ↦ some (rows, record d { tables = tables })
  ];
  transaction = λ d. elim d.kept [ none ↦ record d { kept = some d.tables } | some tables ↦ d ];
  commit = λ d. record d { kept = none };
  rollback = λ d. elim d.kept [ none ↦ d | some tables ↦ record { tables = tables; kept = none } ];
}

abbrev pub newest : Shelf → List HistoryData
newest d = elim d.tables.trips [ none ↦ [] | some t ↦ t.rows ]

abbrev pub saved : Shelf → Option Shelf
saved d = elim d.kept [ none ↦ none | some tables ↦ some (record { tables = tables; kept = none }) ]
