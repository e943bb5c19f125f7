-- ===== src/Car/Tests/History.antt =====
-- The list of trips of MyCarUI/HistoryDatabase.cpp over a database in memory.
use mathlib.Core.List.{Perm}
use learningproject.Common.{
  ℕ, ◌≡◌, refl, inl, true, false, List, [], ◌∷◌, none, some, take, replicate, pos, if◌then◌else◌,
}
use learningproject.Chat.Text.{utf8, str_eq}
use learningproject.Car.History.Interface.{HistoryData, IsSame}
use learningproject.Car.History.{
  History, VariantMap, about_to_reset, reset, count_changed, data_changed, emit, refresh_history,
  delete_trip, on_auto_sync_timeout, item_at, start_auto_sync,
}
use learningproject.Car.History.Schema.{
  init_database, create_table, columns_found, migrate, update_table,
}
use learningproject.Car.History.Views.{
  insert_call, delete_call, clear_call, timeout_call, calls, IsView, IsFresh, calls-IsView,
}
use learningproject.Car.History.Changes.{delete_trip-newest}
use learningproject.Car.History.Syncing.{on_auto_sync_timeout-IsFresh}
use learningproject.Car.History.Migration.{IsWhole, create_table-IsWhole}
use learningproject.Car.Tests.Shelf.Laws.{documented_shelf}
use learningproject.Car.Tests.Shelf.{Shelf, empty_table, shelf, run, newest, same_trip, without_one}

-- a trip with these places, on the same day
abbrev trip : List ℕ → List ℕ → HistoryData
trip from to = record {
  date = utf8 "1/2";
  from = from;
  to = to;
  dist = utf8 "3km";
  time = utf8 "4分钟";
  speed = utf8 "--";
}

abbrev holding : List HistoryData → Shelf
holding rows = record {
  tables = record { trips = some (record empty_table { rows = rows }); trips_new = none };
  kept = none;
}

abbrev showing : List HistoryData → List HistoryData → History Shelf
showing rows list = record {
  db = holding rows;
  is_open = true;
  list = list;
  interval = some 5000;
  signals = [];
}

abbrev out : HistoryData
out = trip (utf8 "A") (utf8 "B")

abbrev back : HistoryData
back = trip (utf8 "B") (utf8 "A")

abbrev shown : History Shelf
shown = showing (out ∷ back ∷ []) (out ∷ back ∷ [])

-- the map of `back`, without a speed
abbrev typed : VariantMap
typed key =
    if str_eq key (utf8 "date")
    then some back.date
    else if str_eq key (utf8 "from")
    then some back.from
    else if str_eq key (utf8 "to")
    then some back.to
    else if str_eq key (utf8 "dist")
    then some back.dist
    else if str_eq key (utf8 "time")
    then some back.time
    else none

calls-IsView_example :
    IsView shelf documented_shelf
      (calls shelf (insert_call typed ∷ delete_call (pos 1) ∷ timeout_call ∷ clear_call ∷ []) shown)
unfolding documented_shelf
calls-IsView_example =
    calls-IsView shelf documented_shelf
      (insert_call typed ∷ delete_call (pos 1) ∷ timeout_call ∷ clear_call ∷ []) shown (λ db. refl)
      (refl, inl refl)

delete_trip-newest_example :
    let after = delete_trip shelf (pos 1) shown in
    IsFresh shelf documented_shelf after
    × ((gone : HistoryData) × IsSame gone back × Perm (out ∷ back ∷ []) (gone ∷ newest after.db))
unfolding documented_shelf run item_at same_trip without_one str_eq
delete_trip-newest_example =
    delete_trip-newest shelf documented_shelf (pos 1) back shown (holding (out ∷ []))
      (holding (out ∷ [])) [] (out ∷ []) refl refl refl refl refl

-- 51 trips
abbrev many : List HistoryData
many = replicate 51 out

on_auto_sync_timeout-IsFresh_example :
    on_auto_sync_timeout shelf (showing many (take 50 many))
    ≡ emit
        (about_to_reset ∷ reset ∷ count_changed ∷ data_changed ∷ [])
        (showing many (take 50 many))
unfolding run documented_shelf
on_auto_sync_timeout-IsFresh_example =
    on_auto_sync_timeout-IsFresh shelf documented_shelf (showing many (take 50 many)) (51 ∷ [])
      (take 50 many) (holding many) (holding many) refl refl refl refl

-- An old table, and a table trips_new that is in the way: the migration fails.
abbrev old : Shelf
old = record {
  tables = record {
    trips = some (record { columns = utf8 "date" ∷ utf8 "cost" ∷ []; rows = out ∷ [] });
    trips_new = some empty_table;
  };
  kept = none;
}

abbrev starting : Shelf → History Shelf
starting db = record { db = db; is_open = true; list = []; interval = none; signals = [] }

create_table-IsWhole_example : IsWhole shelf old (create_table shelf (starting old))
unfolding documented_shelf
create_table-IsWhole_example = create_table-IsWhole shelf documented_shelf (starting old) refl

old_stays : create_table shelf (starting old) ≡ (false, old)
unfolding create_table update_table migrate columns_found run str_eq
old_stays = refl

-- With no table in the way an old one is brought up to date, and shown.
migrated :
    init_database shelf true
      (some (record old { tables = record old.tables { trips_new = none } }))
      (starting old)
    ≡ (
      true,
      record {
        db = holding (out ∷ []);
        is_open = true;
        list = out ∷ [];
        interval = some 5000;
        signals = about_to_reset ∷ reset ∷ count_changed ∷ [];
      },
    )
unfolding init_database create_table update_table migrate columns_found run str_eq refresh_history
    start_auto_sync
migrated = refl
