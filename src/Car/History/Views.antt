-- ===== src/Car/History/Views.antt =====
-- The list of trips is a view of the database: HistoryDatabase of MyCarUI/HistoryDatabase.cpp.
use learningproject.Common.{
  ℕ, ◌≡◌, refl, ap, ◌∙◌, ◌⊎◌, inl, inr, true, List, [], ◌∷◌, none, some, length, take, Option-cases,
  Bool-cases, ◌==◌, ℤ,
}
use learningproject.Car.History.Interface.{
  HistoryData, Sql, RowOf, Sqlite, Documented, insert, delete_one, delete_all, reset_sequence,
  count_trips, select_latest,
}
use learningproject.Car.History.{
  History, VariantMap, bound, item_at, start_auto_sync, stop_auto_sync, refresh_history,
  on_auto_sync_timeout, insert_trip, delete_trip, clear_all_trips, unless_failed,
}

-- what the user interface and the timer call
pub data Call : Type 0 where
  insert_call : VariantMap → Call
  delete_call : (index : ℤ) → Call
  start_call : (interval_ms : ℕ) → Call
  clear_call refresh_call stop_call timeout_call : Call

module _ {Db : Type 0} (sql : Sqlite Db) where
  unfoldable pub call : Call → History Db → History Db
  call (insert_call trip) h = insert_trip sql trip h
  call (delete_call index) h = delete_trip sql index h
  call (start_call interval_ms) h = start_auto_sync interval_ms h
  call clear_call h = clear_all_trips sql h
  call refresh_call h = refresh_history sql h
  call stop_call h = stop_auto_sync h
  call timeout_call h = on_auto_sync_timeout sql h

  unfoldable pub calls : List Call → History Db → History Db
  calls [] h = h
  calls (c ∷ cs) h = calls cs (call c h)

module _ {Db : Type 0} (sql : Sqlite Db) (doc : Documented sql) where
  abbrev pub IsFresh : History Db → Type 0
  IsFresh h = h.list ≡ take 50 (doc.newest h.db)

  -- No transaction is active, and the list is the 50 newest trips, or it is empty and the SELECT fails.
  abbrev pub IsView : History Db → Type 0
  IsView h =
      (doc.saved h.db ≡ none) × (IsFresh h ⊎ ((h.list ≡ []) × (sql.exec select_latest h.db ≡ none)))

  pub refresh_history-some :
      (h : History Db) (rows : List HistoryData) (db : Db)
      → h.is_open ≡ true
      → sql.exec select_latest h.db ≡ some (rows, db)
      → (IsFresh (refresh_history sql h)) × ((refresh_history sql h).db ≡ h.db)
  unfolding refresh_history
  refresh_history-some h rows db opened e =
      let same = doc.exec-Reads select_latest h.db db rows tt e in
      let latest = doc.exec-select_latest h.db db rows e in
      rw (opened, e, refresh_history) (rw same latest, same)

  pub refresh_history-IsView :
      (h : History Db) → h.is_open ≡ true → doc.saved h.db ≡ none → IsView (refresh_history sql h)
  unfolding refresh_history
  refresh_history-IsView h opened idle = elim (Option-cases (sql.exec select_latest h.db)) [
    | inl failed ↦ rw (opened, failed, refresh_history) (idle, inr (refl, failed))
    | inr ((rows, db), e) ↦
        let (fresh, same) = refresh_history-some h rows db opened e in (rw same idle, inl fresh)
  ]

  idle_after :
      (q : Sql) (db db' : Db) (rows : List (RowOf q))
      → sql.exec q db ≡ some (rows, db')
      → doc.saved db ≡ none
      → doc.saved db' ≡ none
  idle_after q db db' rows e idle = doc.exec-saved q db db' rows e ∙ idle

  insert_trip-IsView :
      (trip : VariantMap) (h : History Db) → IsView h → IsView (insert_trip sql trip h)
  unfolding insert_trip
  insert_trip-IsView trip h view = elim (Bool-cases h.is_open) [
    | inr closed ↦ rw (closed, insert_trip) view
    | inl opened ↦ elim (Option-cases (sql.exec (insert (bound trip)) h.db)) [
      | inl failed ↦ rw (opened, failed, insert_trip) view
      | inr ((rows, db), e) ↦
          let idle = idle_after (insert (bound trip)) h.db db rows e view.0 in
          rw (opened, e, insert_trip) (refresh_history-IsView (record h { db = db }) opened idle)
    ]
  ]

  delete_trip-IsView : (index : ℤ) (h : History Db) → IsView h → IsView (delete_trip sql index h)
  unfolding delete_trip
  delete_trip-IsView index h view = elim (Bool-cases h.is_open) [
    | inr closed ↦ rw (closed, delete_trip) view
    | inl opened ↦ elim (Option-cases (item_at h.list index)) [
      | inl outside ↦ rw (opened, outside, delete_trip) view
      | inr (trip, at) ↦
          let q = delete_one trip.from trip.to trip.date in
          elim (Option-cases (sql.exec q h.db)) [
            | inl failed ↦ rw (opened, at, failed, delete_trip) view
            | inr ((rows, db), e) ↦
                let idle = idle_after q h.db db rows e view.0 in
                rw (opened, at, e, delete_trip)
                  (refresh_history-IsView (record h { db = db }) opened idle)
          ]
    ]
  ]

  -- A ROLLBACK goes back to where BEGIN was called, whether that has begun a transaction or not.
  back_to_start : (db : Db) → doc.saved db ≡ none → sql.rollback (sql.transaction db) ≡ db
  back_to_start db idle = elim (doc.transaction-saved db idle) [
    | inl begun ↦ doc.rollback-saved (sql.transaction db) db begun
    | inr same ↦ ap (λ d. sql.rollback d) same ∙ doc.rollback-idle db idle
  ]

  -- A failed DELETE is rolled back to the database that the list shows.
  clear_all_trips-IsView :
      (h : History Db)
      → ((db : Db) → doc.saved (sql.commit db) ≡ none)
      → IsView h
      → IsView (clear_all_trips sql h)
  unfolding clear_all_trips
  clear_all_trips-IsView h commits view = elim (Bool-cases h.is_open) [
    | inr closed ↦ rw (closed, clear_all_trips) view
    | inl opened ↦
        let begun = sql.transaction h.db in
        elim (Option-cases (sql.exec delete_all begun)) [
          | inl failed ↦
              let back = back_to_start h.db view.0 in
              rw (opened, failed, back, clear_all_trips) view
          | inr ((rows, db), e) ↦
              let committed = sql.commit (unless_failed sql reset_sequence db) in
              let idle = commits (unless_failed sql reset_sequence db) in
              rw (opened, e, clear_all_trips)
                (refresh_history-IsView (record h { db = committed }) opened idle)
        ]
  ]

  refresh-IsView : (h : History Db) → IsView h → IsView (refresh_history sql h)
  unfolding refresh_history
  refresh-IsView h view = elim (Bool-cases h.is_open) [
    | inr closed ↦ rw (closed, refresh_history) view
    | inl opened ↦ refresh_history-IsView h opened view.0
  ]

  on_auto_sync_timeout-IsView : (h : History Db) → IsView h → IsView (on_auto_sync_timeout sql h)
  unfolding on_auto_sync_timeout
  on_auto_sync_timeout-IsView h view = elim (Bool-cases h.is_open) [
    | inr closed ↦ rw (closed, on_auto_sync_timeout) view
    | inl opened ↦ elim (Option-cases (sql.exec count_trips h.db)) [
      | inl failed ↦ rw (opened, failed, on_auto_sync_timeout) view
      | inr ((rows, db), e) ↦
          let same = doc.exec-Reads count_trips h.db db rows tt e in
          let counted = doc.exec-count_trips h.db db rows e in
          elim (Bool-cases (length (doc.newest h.db) == length h.list)) [
            | inl equal ↦ rw (opened, e, counted, equal, same, on_auto_sync_timeout) view
            | inr differ ↦
                rw (opened, e, counted, differ, same, on_auto_sync_timeout)
                  (refresh_history-IsView h opened view.0)
          ]
    ]
  ]

  timer-IsView :
      (c : ℕ) (h : History Db) → IsView h → IsView (start_auto_sync c h) × IsView (stop_auto_sync h)
  unfolding start_auto_sync stop_auto_sync
  timer-IsView c h view = elim (Bool-cases h.is_open) [
    | inr closed ↦ rw (closed, start_auto_sync, stop_auto_sync) (view, view)
    | inl opened ↦ rw (opened, start_auto_sync, stop_auto_sync) (view, view)
  ]

  call-IsView :
      (c : Call) (h : History Db)
      → ((db : Db) → doc.saved (sql.commit db) ≡ none)
      → IsView h
      → IsView (call sql c h)
  unfolding call
  call-IsView (insert_call trip) h commits view = insert_trip-IsView trip h view
  call-IsView (delete_call index) h commits view = delete_trip-IsView index h view
  call-IsView (start_call interval_ms) h commits view = (timer-IsView interval_ms h view).0
  call-IsView clear_call h commits view = clear_all_trips-IsView h commits view
  call-IsView refresh_call h commits view = refresh-IsView h view
  call-IsView stop_call h commits view = (timer-IsView 0 h view).1
  call-IsView timeout_call h commits view = on_auto_sync_timeout-IsView h view

  -- No other program writes to the database, and no COMMIT leaves a transaction active. Whatever the user
  -- and the timer do, and whichever other statements fail, BEGIN among them, no transaction stays active,
  -- and the list is what the database holds, its 50 newest trips; if it is not, then it is empty and the
  -- SELECT for the trips fails on the database.
  pub calls-IsView :
      (cs : List Call) (h : History Db)
      → ((db : Db) → doc.saved (sql.commit db) ≡ none)
      → IsView h
      → IsView (calls sql cs h)
  unfolding calls
  calls-IsView [] h commits view = view
  calls-IsView (c ∷ cs) h commits view =
      calls-IsView cs (call sql c h) commits (call-IsView c h commits view)
