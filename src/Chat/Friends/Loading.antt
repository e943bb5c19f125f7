-- ===== src/Chat/Friends/Loading.antt =====
-- The arrays of load_friend_list and load_group_list in 局域网聊天/server_tool.c: what they hold, and
-- where they overflow.
use learningproject.Common.{
  Option-cases, ℕ, ◌+◌, ◌≤◌, ◌<◌, ◌≡◌, refl, List, [], ◌∷◌, none, some, arith, inl, inr, length,
  map,
}
use learningproject.Chat.Text.{before}
use learningproject.Chat.Disk.{
  or_empty, fgets_from, Disk, text_of, fgets_all, friends_path, max_username_len,
}
use learningproject.Chat.Disk.Lines.{print_lines, lines_of-print_lines}
use learningproject.Chat.Friends.{load_from, load_friend_list, max_friends}
use learningproject.Chat.Friends.Laws.{HoldsFriends}

-- No name is empty.
abbrev pub AllNamed : List (List ℕ) → Type 0
AllNamed [] = Unit
AllNamed (n ∷ ns) = (0 < length n) × AllNamed ns

load_from-lem :
    (room count : ℕ) (raw names : List (List ℕ))
    → map (before 10) raw ≡ names
    → AllNamed names
    → count + length names ≤ room
    → load_from room count raw ≡ some names
unfolding load_from
load_from-lem room count [] names e named fits = ground arith
load_from-lem room count (l ∷ ls) [] e named fits = cc
load_from-lem room count (l ∷ ls) (n ∷ ns) e named fits =
    ground (arith, load_from-lem room (count + 1) ls ns, named)

load_from-over :
    (room count : ℕ) (raw names : List (List ℕ))
    → map (before 10) raw ≡ names
    → AllNamed names
    → count ≤ room
    → room < count + length names
    → load_from room count raw ≡ none
unfolding load_from
load_from-over room count [] names e named le over = ground arith
load_from-over room count (l ∷ ls) [] e named le over = cc
load_from-over room count (l ∷ ls) (n ∷ ns) e named le over =
    ground (arith, load_from-over room (count + 1) ls ns, named)

-- With at most MAX_FRIENDS friends, load_friend_list returns their names in the order of the file.
pub load_friend_list-all :
    (u : List ℕ) (names : List (List ℕ)) (d : Disk)
    → HoldsFriends u names d
    → AllNamed names
    → length names ≤ max_friends
    → load_friend_list u d ≡ some names
unfolding load_friend_list
load_friend_list-all u names d h named fits =
    rw (h.text, load_friend_list)
      (load_from-lem max_friends 0 (fgets_all max_username_len (print_lines names)) names
        (lines_of-print_lines max_username_len names h.fit) named (omega arith))

-- With more friends it writes behind the array: the next name is stored before `count` is tested.
pub load_friend_list-overflow :
    (u : List ℕ) (names : List (List ℕ)) (d : Disk)
    → HoldsFriends u names d
    → AllNamed names
    → max_friends < length names
    → load_friend_list u d ≡ none
unfolding load_friend_list
load_friend_list-overflow u names d h named over =
    rw (h.text, load_friend_list)
      (load_from-over max_friends 0 (fgets_all max_username_len (print_lines names)) names
        (lines_of-print_lines max_username_len names h.fit) named (omega arith) (omega arith))

-- An empty file, or none, gives no names.
pub load-empty :
    (u : List ℕ) (d : Disk)
    → or_empty (text_of (friends_path u) d) ≡ []
    → load_friend_list u d ≡ some []
unfolding load_friend_list load_from fgets_from
load-empty u d e = elim (Option-cases (text_of (friends_path u) d)) [
  | inl missing ↦ rw (missing, load_friend_list) refl
  | inr (text, found) ↦
      let empty : text ≡ [] = rw found at e in rw (found, empty, load_friend_list) refl
]
