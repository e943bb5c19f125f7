-- ===== src/Chat/Client/Lists.antt =====
-- The client shows the list that the server has: 局域网聊天/client.c, MSG_TYPE_FRIEND_LIST_RESP, with
-- 局域网聊天/server.c, MSG_TYPE_FRIEND_LIST_REQ.
use learningproject.Common.{
  ℕ, ◌*◌, ◌≤◌, ◌≡◌, refl, List, [], ◌∷◌, some, arith, length, map, length-append, take-append,
  drop-append,
}
use learningproject.Chat.Text.Laws.{Without, before_of_Without}
use learningproject.Chat.Disk.{max_username_len}
use learningproject.Chat.Disk.Lines.{AllFit}
use learningproject.Chat.Friends.{max_friends}
use learningproject.Chat.Friends.Laws.{HoldsFriends}
use learningproject.Chat.Friends.Loading.{AllNamed, load_friend_list-all}
use learningproject.Chat.Kind
use learningproject.Chat.Server.{Server, list_entries, list_body}
use learningproject.Chat.Server.Replies.{packet, with_sent, send_message-packet}
use learningproject.Chat.Server.Requests.{on_friend_list, online_flag}
use learningproject.Chat.Client.{Shown, read_entries, show_list}

-- Names without a zero byte.
abbrev pub AllStrings : List (List ℕ) → Type 0
AllStrings [] = Unit
AllStrings (n ∷ ns) = Without 0 n × AllStrings ns

-- what is shown of a name
abbrev pub shown : (List ℕ → ℕ) → List ℕ → Shown
shown flag n = record { online = flag n; name = n }

read_entries-list_entries :
    (flag : List ℕ → ℕ) (names : List (List ℕ))
    → AllFit max_username_len names
    → AllStrings names
    → read_entries max_username_len (length names) (list_entries flag names)
      ≡ some (map (shown flag) names)
unfolding read_entries list_entries
read_entries-list_entries flag [] fit strings = refl
read_entries-list_entries flag (n ∷ ns) fit strings = ground (
  arith,
  fit,
  length-append n (list_entries flag ns),
  take-append n (list_entries flag ns),
  drop-append n (list_entries flag ns),
  before_of_Without 0 n strings.0,
  read_entries-list_entries flag ns fit.2 strings.1,
)

length-list_entries :
    (flag : List ℕ → ℕ) (names : List (List ℕ))
    → AllFit max_username_len names
    → length (list_entries flag names) ≤ 64 * length names
unfolding list_entries
length-list_entries flag [] fit = omega arith
length-list_entries flag (n ∷ ns) fit =
    omega (arith, fit, length-append n (list_entries flag ns), length-list_entries flag ns fit.2)

show-list_body :
    (flag : List ℕ → ℕ) (names : List (List ℕ))
    → length names ≤ max_friends
    → AllFit max_username_len names
    → AllStrings names
    → show_list max_username_len (list_body flag names) ≡ some (map (shown flag) names)
unfolding show_list
show-list_body flag names few fit strings =
    ground (arith, read_entries-list_entries flag names fit strings)

-- A user with at most MAX_FRIENDS friends, all of whose names are strings of 1 to 62 bytes, asks for the
-- list: the answer is sent, and a client that reads its body shows each friend in the order of the file,
-- with 1 for those that are online.
pub friend_list-show_list :
    (fd : ℕ) (u : List ℕ) (names : List (List ℕ)) (s : Server)
    → HoldsFriends u names s.disk
    → AllNamed names
    → AllStrings names
    → length names ≤ max_friends
    → let body = list_body (online_flag s) names in
      (on_friend_list fd u s ≡ some (with_sent s fd (packet Kind.friend_list_resp body)))
      × (show_list max_username_len body ≡ some (map (shown (online_flag s)) names))
unfolding on_friend_list
friend_list-show_list fd u names s held named strings few = (
  ground (
    arith,
    load_friend_list-all u names s.disk held named few,
    send_message-packet fd Kind.friend_list_resp (list_body (online_flag s) names) s
        (omega (arith, length-list_entries (online_flag s) names held.fit)),
  ),
  show-list_body (online_flag s) names few held.fit strings,
)
