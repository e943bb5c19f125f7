-- ===== src/Car/History/Syncing.antt =====
-- The timer compares the list with the database: onAutoSyncTimeout of MyCarUI/HistoryDatabase.cpp.
use mathlib.Core.List.{append_assoc}
use learningproject.Common.{
  ℕ, ◌≡◌, refl, sym, ap, ◌∙◌, inl, inr, Bool, true, not, List, [], ◌∷◌, some, arith, length, take,
  leb, ◌==◌, if◌then◌else◌, length-take, Bool-cases,
}
use learningproject.Car.History.Interface.{
  HistoryData, Sqlite, Documented, count_trips, select_latest,
}
use learningproject.Car.History.{
  History, about_to_reset, reset, count_changed, data_changed, emit, refresh_history,
  on_auto_sync_timeout,
}
use learningproject.Car.History.Views.{IsFresh}

count-min : (n : ℕ) (xs : List HistoryData) → (length xs == length (take n xs)) ≡ leb (length xs) n
count-min n xs = ground (arith, length-take n xs)

if_opened : {A : Type 0} (b : Bool) (x y : A) → b ≡ true → (if not b then x else y) ≡ y
if_opened b x y e = rw e refl

module _ {Db : Type 0} (sql : Sqlite Db) (doc : Documented sql) where
  again :
      (h : History Db) (rows : List HistoryData) (db : Db)
      → h.is_open ≡ true
      → IsFresh sql doc h
      → sql.exec select_latest h.db ≡ some (rows, db)
      → refresh_history sql h ≡ emit (about_to_reset ∷ reset ∷ count_changed ∷ []) h
  unfolding refresh_history
  again h rows db opened view e =
      let same = doc.exec-Reads select_latest h.db db rows tt e in
      let shown : rows ≡ h.list = doc.exec-select_latest h.db db rows e ∙ sym view in
      simp (opened, e, same, shown, refresh_history) refl

  -- The list shows the newest trips of an open database, and the statements are run without an error. The
  -- timer finds nothing to do where there are at most 50 trips. Where there are more, each of its rounds
  -- reads the same list again, and says that the model was reset, and that its count and data changed,
  -- though nothing is different.
  pub on_auto_sync_timeout-IsFresh :
      (h : History Db) (count : List ℕ) (rows : List HistoryData) (db db' : Db)
      → h.is_open ≡ true
      → IsFresh sql doc h
      → sql.exec count_trips h.db ≡ some (count, db)
      → sql.exec select_latest h.db ≡ some (rows, db')
      → on_auto_sync_timeout sql h ≡ (
          if leb (length (doc.newest h.db)) 50
          then h
          else emit (about_to_reset ∷ reset ∷ count_changed ∷ data_changed ∷ []) h)
  unfolding on_auto_sync_timeout
  on_auto_sync_timeout-IsFresh h count rows db db' opened view counted selected =
      let same = doc.exec-Reads count_trips h.db db count tt counted in
      let all = doc.exec-count_trips h.db db count counted in
      let test : (length (doc.newest h.db) == length h.list) ≡ leb (length (doc.newest h.db)) 50 =
        ap (λ xs. length (doc.newest h.db) == length xs) view ∙ count-min 50 (doc.newest h.db) in
      let refreshed = again h rows db' opened view selected in
      if_opened h.is_open _ _ opened ∙ elim (Bool-cases (leb (length (doc.newest h.db)) 50)) [
        | inl few ↦ rw (counted, all, test, few, same) refl
        | inr many ↦
            rw (counted, all, test, many, same, refreshed)
              (ap (λ more. record h { signals = more }) (append_assoc h.signals _ _))
      ]
