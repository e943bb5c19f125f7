-- ===== src/Car/History/Changes.antt =====
-- What a new trip and a deleted one change: insertTrip and deleteTrip of MyCarUI/HistoryDatabase.cpp.
use mathlib.Core.List.{Memᴰ, Perm}
use learningproject.Common.{
  ℕ, zero, suc, ◌≡◌, sym, ap, ◌≢◌, ◌∙◌, true, List, [], ◌∷◌, none, some, take, get_elem?, ℤ, pos,
  negsuc,
}
use learningproject.Car.History.Interface.{
  HistoryData, Sqlite, Documented, IsSame, insert, delete_one, select_latest,
}
use learningproject.Car.History.{History, VariantMap, bound, item_at, insert_trip, delete_trip}
use learningproject.Car.History.Views.{IsFresh, refresh_history-some}

none≢some : {A : Type 0} {x : A} → none ≢ some x
none≢some e = cc

Memᴰ-take :
    {A : Type 0} (n i : ℕ) (xs : List A) (x : A) → get_elem? (take n xs) i ≡ some x → Memᴰ x xs
Memᴰ-take zero i xs x e = absurd (none≢some e)
Memᴰ-take (suc n) i [] x e = absurd (none≢some e)
Memᴰ-take (suc n) zero (y ∷ ys) x e = Memᴰ.head (let same : y ≡ x = cc in sym same)
Memᴰ-take (suc n) (suc i) (y ∷ ys) x e = Memᴰ.tail (Memᴰ-take n i ys x e)

item_at-Memᴰ :
    {A : Type 0} (n : ℕ) (index : ℤ) (xs : List A) (x : A)
    → item_at (take n xs) index ≡ some x
    → Memᴰ x xs
unfolding item_at
item_at-Memᴰ n (pos i) xs x e = Memᴰ-take n i xs x e
item_at-Memᴰ n (negsuc i) xs x e = absurd (none≢some e)

module _ {Db : Type 0} (sql : Sqlite Db) (doc : Documented sql) where
  -- The database is open, and the row is inserted and the list read again without an error. Then the
  -- database holds one trip more, that with the given texts and "--" for a speed that is not given, and
  -- the list shows the 50 newest.
  insert_trip-newest :
      (trip : VariantMap) (h : History Db) (db db' : Db) (done : List Unit)
      (rows : List HistoryData)
      → h.is_open ≡ true
      → sql.exec (insert (bound trip)) h.db ≡ some (done, db)
      → sql.exec select_latest db ≡ some (rows, db')
      → let after = insert_trip sql trip h in
        IsFresh sql doc after × Perm (doc.newest after.db) (bound trip ∷ doc.newest h.db)
  unfolding insert_trip
  insert_trip-newest trip h db db' done rows opened inserted selected =
      let more = doc.exec-insert (bound trip) h.db db done inserted in
      let (fresh, same) =
        refresh_history-some sql doc (record h { db = db }) rows db' opened selected in
      rw (opened, inserted, insert_trip) (fresh, rw same more)

  -- The list shows the newest trips, the index is one of its rows, and the statements are run without an
  -- error. Then one trip goes from the database, and no other: one with the places and the date of that
  -- row. The list shows the newest of those that are left.
  pub delete_trip-newest :
      (index : ℤ) (trip : HistoryData) (h : History Db) (db db' : Db) (done : List Unit)
      (rows : List HistoryData)
      → h.is_open ≡ true
      → IsFresh sql doc h
      → item_at h.list index ≡ some trip
      → sql.exec (delete_one trip.from trip.to trip.date) h.db ≡ some (done, db)
      → sql.exec select_latest db ≡ some (rows, db')
      → let after = delete_trip sql index h in
        IsFresh sql doc after
        × ((gone : HistoryData) × IsSame gone trip
            × Perm (doc.newest h.db) (gone ∷ doc.newest after.db))
  unfolding delete_trip
  delete_trip-newest index trip h db db' done rows opened view at deleted selected =
      let shown_at : item_at (take 50 (doc.newest h.db)) index ≡ some trip =
        sym (ap (λ xs. item_at xs index) view) ∙ at in
      let shown =
        doc.exec-delete_one trip h.db db done
          (item_at-Memᴰ 50 index (doc.newest h.db) trip shown_at) deleted in
      let (fresh, same) =
        refresh_history-some sql doc (record h { db = db }) rows db' opened selected in
      rw (opened, at, deleted, delete_trip) (fresh, rw same shown)
