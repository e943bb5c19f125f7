-- ===== src/Car/Tests/Shelf/Laws.antt =====
-- The database in memory does what MyCarUI/HistoryDatabase.cpp expects.
use mathlib.Core.List.{Memᴰ, Perm}
use mathlib.Core.List.Perm
use mathlib.Core.List.Memᴰ
use learningproject.Common.{
  ℕ, ◌≡◌, refl, sym, ap, ◌∙◌, true, false, List, [], ◌∷◌, none, some, arith, inl, inr, length, take,
  Bool-cases, Option-cases,
}
use learningproject.Chat.Text.{str_eq}
use learningproject.Chat.Text.Laws.{eq_of_str_eq, str_eq_self}
use learningproject.Car.History.Interface.{
  HistoryData, Sql, find_table, table_info, create_new, copy, drop, rename, add_speed, create,
  count_trips, select_latest, delete_all, reset_sequence, insert, delete_one, RowOf, Reads, IsSame,
  Documented,
}
use learningproject.Car.Tests.Shelf.{
  Table, Tables, Shelf, same_trip, without_one, on_trips, run, shelf, newest, saved,
}

-- how a statement's result comes about
abbrev pub Ran : (q : Sql) (db db' : Shelf) (rows : List (RowOf q)) → Type 0
Ran q db db' rows =
    (tables : Tables) × (run q db.tables ≡ some (rows, tables))
    × (db' ≡ record db { tables = tables })

pub exec-run :
    (q : Sql) (db db' : Shelf) (rows : List (RowOf q))
    → shelf.exec q db ≡ some (rows, db')
    → Ran q db db' rows
exec-run q db db' rows e = elim (Option-cases (run q db.tables)) [
  | inl failed ↦ absurd (let no : none ≡ some (rows, db') = rw (failed, shelf) at e in cc)
  | inr ((rows', tables), ran) ↦
      let got : some (rows', record db { tables = tables }) ≡ some (rows, db') =
        rw (ran, shelf) at e in
      (tables, cc, cc)
]

run-Reads :
    (q : Sql) (d d' : Tables) (rows : List (RowOf q)) → Reads q → run q d ≡ some (rows, d') → d' ≡ d
unfolding run
run-Reads find_table d d' rows h e = ground (arith, Option-cases d.trips, e)
run-Reads table_info d d' rows h e = ground (arith, Option-cases d.trips, e)
run-Reads count_trips d d' rows h e = ground (arith, Option-cases d.trips, e)
run-Reads select_latest d d' rows h e = ground (arith, Option-cases d.trips, e)
run-Reads create_new d d' rows h e = elim h [ ]
run-Reads copy d d' rows h e = elim h [ ]
run-Reads drop d d' rows h e = elim h [ ]
run-Reads rename d d' rows h e = elim h [ ]
run-Reads add_speed d d' rows h e = elim h [ ]
run-Reads create d d' rows h e = elim h [ ]
run-Reads delete_all d d' rows h e = elim h [ ]
run-Reads reset_sequence d d' rows h e = elim h [ ]
run-Reads (insert t) d d' rows h e = elim h [ ]
run-Reads (delete_one from to date) d d' rows h e = elim h [ ]

pub exec-Reads :
    (q : Sql) (db db' : Shelf) (rows : List (RowOf q))
    → Reads q
    → shelf.exec q db ≡ some (rows, db')
    → db' ≡ db
exec-Reads q db db' rows h e =
    let (tables, ran, after) = exec-run q db db' rows e in
    after ∙ ap (λ t. record db { tables = t }) (run-Reads q db.tables tables rows h ran)

pub exec-saved :
    (q : Sql) (db db' : Shelf) (rows : List (RowOf q))
    → shelf.exec q db ≡ some (rows, db')
    → saved db' ≡ saved db
exec-saved q db db' rows e =
    let (tables, ran, after) = exec-run q db db' rows e in ap (λ d. saved d) after

pub run-count_trips :
    (d d' : Tables) (rows : List ℕ)
    → run count_trips d ≡ some (rows, d')
    → rows ≡ length (newest (record { tables = d; kept = none })) ∷ []
unfolding run
run-count_trips d d' rows e = ground (arith, Option-cases d.trips, e)

pub run-select_latest :
    (d d' : Tables) (rows : List HistoryData)
    → run select_latest d ≡ some (rows, d')
    → rows ≡ take 50 (newest (record { tables = d; kept = none }))
unfolding run
run-select_latest d d' rows e = ground (arith, Option-cases d.trips, e)

-- a change of the rows
on_trips-some :
    (d d' : Tables) (change : Table → List HistoryData) (done : List Unit)
    → on_trips d change ≡ some (done, d')
    → (t : Table) × (d.trips ≡ some t) × (d'.trips ≡ some (record t { rows = change t }))
on_trips-some d d' change done e = elim (Option-cases d.trips) [
  | inl missing ↦ absurd (let no : none ≡ some (done, d') = rw missing at e in cc)
  | inr (t, there) ↦
      let got : some ([], record d { trips = some (record t { rows = change t }) })
          ≡ some (done, d') =
        rw there at e in
      (t, there, cc)
]

same_trip-IsSame : (t x : HistoryData) → same_trip t.from t.to t.date x ≡ true → IsSame x t
unfolding same_trip
same_trip-IsSame t x e = elim (Bool-cases (str_eq x.from t.from)) [
  | inr other ↦ ground (arith, other, e)
  | inl first ↦ elim (Bool-cases (str_eq x.to t.to)) [
    | inr other ↦ ground (arith, first, other, e)
    | inl second ↦
        let third : str_eq x.date t.date ≡ true = ground (arith, first, second, e) in
        (
          eq_of_str_eq x.from t.from first,
          eq_of_str_eq x.to t.to second,
          eq_of_str_eq x.date t.date third,
        )
  ]
]

same_trip_self : (t : HistoryData) → same_trip t.from t.to t.date t ≡ true
unfolding same_trip
same_trip_self t = rw (str_eq_self t.from, str_eq_self t.to, str_eq_self t.date) refl

-- of the rows that match, one goes
without_one-Perm :
    (t : HistoryData) (ts : List HistoryData)
    → Memᴰ t ts
    → (gone : HistoryData) × IsSame gone t × Perm ts (gone ∷ without_one t.from t.to t.date ts)
unfolding without_one
without_one-Perm t [] m = absurd (Memᴰ.not-nil m)
without_one-Perm t (x ∷ xs) m = elim (Bool-cases (same_trip t.from t.to t.date x)) [
  | inl same ↦ rw (same, without_one) (x, same_trip-IsSame t x same, Perm.refl (x ∷ xs))
  | inr other ↦ elim (Memᴰ.cases_cons m) [
    | inl is_x ↦
        let self : same_trip t.from t.to t.date x ≡ true =
          ap (λ y. same_trip t.from t.to t.date y) (sym is_x) ∙ same_trip_self t in
        absurd (let no : false ≡ true = sym other ∙ self in cc)
    | inr later ↦
        let (gone, same, moved) = without_one-Perm t xs later in
        let swapped : Perm (x ∷ xs) (gone ∷ x ∷ without_one t.from t.to t.date xs) =
          Perm.trans (Perm.cons x moved) (Perm.swap gone x (without_one t.from t.to t.date xs)) in
        rw (other, without_one) (gone, same, swapped)
  ]
]

pub run-insert :
    (t : HistoryData) (d d' : Tables) (done : List Unit)
    → run (insert t) d ≡ some (done, d')
    → Perm
        (newest (record { tables = d'; kept = none }))
        (t ∷ newest (record { tables = d; kept = none }))
unfolding run
run-insert t d d' done e =
    let (table, there, after) = on_trips-some d d' (λ x. t ∷ x.rows) done e in
    rw (there, after) (Perm.refl (t ∷ table.rows))

pub run-delete_one :
    (t : HistoryData) (d d' : Tables) (done : List Unit)
    → Memᴰ t (newest (record { tables = d; kept = none }))
    → run (delete_one t.from t.to t.date) d ≡ some (done, d')
    → (gone : HistoryData) × IsSame gone t
      × Perm
          (newest (record { tables = d; kept = none }))
          (gone ∷ newest (record { tables = d'; kept = none }))
unfolding run
run-delete_one t d d' done m e =
    let (table, there, after) =
      on_trips-some d d' (λ x. without_one t.from t.to t.date x.rows) done e in
    let held : Memᴰ t table.rows = rw there at m in
    rw (there, after) (without_one-Perm t table.rows held)

pub rollback-saved : (db before : Shelf) → saved db ≡ some before → shelf.rollback db ≡ before
rollback-saved db before e = ground (arith, Option-cases db.kept, e)

pub transaction-saved : (db : Shelf) → saved db ≡ none → saved (shelf.transaction db) ≡ some db
transaction-saved db e = elim (Option-cases db.kept) [
  | inl idle ↦ rw (idle, shelf) refl
  | inr (tables, active) ↦
      absurd (let no : some (record { tables = tables; kept = none }) ≡ none = rw active at e in cc)
]

pub rollback-idle : (db : Shelf) → saved db ≡ none → shelf.rollback db ≡ db
rollback-idle db e = ground (arith, Option-cases db.kept, e)

-- The database does what the code expects.
unfoldable pub documented_shelf : Documented shelf
documented_shelf = record {
  newest = λ db. newest db;
  saved = λ db. saved db;
  exec-Reads = exec-Reads;
  exec-saved = exec-saved;
  exec-count_trips = λ db db' rows e.
      let (tables, ran, after) = exec-run count_trips db db' rows e in
      run-count_trips db.tables tables rows ran;
  exec-select_latest = λ db db' rows e.
      let (tables, ran, after) = exec-run select_latest db db' rows e in
      run-select_latest db.tables tables rows ran;
  exec-insert = λ t db db' rows e.
      let (tables, ran, after) = exec-run (insert t) db db' rows e in
      rw after (run-insert t db.tables tables rows ran);
  exec-delete_one = λ t db db' rows m e.
      let (tables, ran, after) = exec-run (delete_one t.from t.to t.date) db db' rows e in
      rw after (run-delete_one t db.tables tables rows m ran);
  transaction-saved = λ db idle. inl (transaction-saved db idle);
  rollback-saved = rollback-saved;
  rollback-idle = rollback-idle;
}
