-- ===== src/Chat/Client.antt =====
-- The chat client: receive_messages of 局域网聊天/client.c. What it prints is the result, but for the prompt;
-- `none` is a read or write outside a block of memory.
pub mod Lists
pub mod Deliveries
pub mod Befriending
pub mod Menu
use learningproject.Common.{
  ◌==◌, ◌++◌, get_elem?, ℕ, zero, suc, ◌+◌, ◌*◌, List, [], ◌∷◌, Option, none, some, ◌>>=◌,
  if◌then◌else◌, ltb, ◌||◌, leb, length, take, drop,
}
use learningproject.Chat.Text.{before, string_at}
use learningproject.Chat.Wire.{Message, recv_message}
use learningproject.Chat.Disk.{max_username_len, max_group_name_len}
use learningproject.Chat.Kind

-- A `struct friend_entry` that is printed: the flag and the name.
pub record Shown : Type 0 where
  pub online : ℕ
  pub name : List ℕ

-- The loop over `list->count` entries. A name is copied into an array of `room` bytes, with a zero
-- behind it.
unfoldable pub read_entries : ℕ → ℕ → List ℕ → Option (List Shown)
read_entries room zero bytes = some []
read_entries room (suc count) (online ∷ len ∷ bytes) =
    let rest = read_entries room count (drop len bytes) in
    if ltb (length bytes) len || leb room len then none else (do
      entries ← rest
      some (record { online = online; name = before 0 (take len bytes) } ∷ entries))
read_entries room (suc count) other = none

-- The cases MSG_TYPE_FRIEND_LIST_RESP and MSG_TYPE_GROUP_LIST_RESP, that differ in `room`.
unfoldable pub show_list : ℕ → List ℕ → Option (List Shown)
show_list room (low ∷ high ∷ bytes) = read_entries room (low + 256 * high) bytes
show_list room other = none

-- What the client prints: an answer of the server, a text from a friend, a text in a group, that a friend
-- comes or goes, or a list.
pub data Screen : Type 0 where
  server_says : (errmsg : List ℕ) → Screen
  private_text group_text : (from content : List ℕ) → Screen
  friend_status : (name : List ℕ) (is_online : ℕ) → Screen
  friend_list group_list : List Shown → Screen

-- MSG_TYPE_CHAT_DELIVER and MSG_TYPE_GROUP_DELIVER
abbrev pub read_deliver : (List ℕ → List ℕ → Screen) → List ℕ → Option (List Screen × List ℕ)
read_deliver text body = do
  from ← string_at 0 body
  content ← string_at max_username_len body
  some (text from content ∷ [], [])

abbrev pub read_answer : (requests : List ℕ) → List ℕ → Option (List Screen × List ℕ)
read_answer requests body = do errmsg ← string_at 1 body; some (server_says errmsg ∷ [], requests)

abbrev pub read_status : List ℕ → Option (List Screen × List ℕ)
read_status body = do
  name ← string_at 0 body
  is_online ← get_elem? body max_username_len
  some (friend_status name is_online ∷ [], [])

abbrev pub read_list : (List Shown → Screen) → ℕ → List ℕ → Option (List Screen × List ℕ)
read_list screen room body = do entries ← show_list room body; some (screen entries ∷ [], [])

-- The switch: what is printed, and the types of the requests that are sent, which have no body.
unfoldable pub on_receive : Message → Option (List Screen × List ℕ)
on_receive msg =
    let kind = msg.header.kind in
    let body = msg.body in
    if kind == Kind.register_resp || kind == Kind.login_resp
    then read_answer [] body
    else if kind == Kind.add_friend_resp || kind == Kind.remove_friend_resp
    then read_answer (Kind.friend_list_req ∷ []) body
    else if kind == Kind.group_create_resp
        || kind == Kind.group_join_resp
        || kind == Kind.leave_group_resp
    then read_answer (Kind.group_list_req ∷ []) body
    else if kind == Kind.chat_deliver
    then read_deliver private_text body
    else if kind == Kind.group_deliver
    then read_deliver group_text body
    else if kind == Kind.friend_online || kind == Kind.friend_offline
    then read_status body
    else if kind == Kind.friend_list_resp
    then read_list friend_list max_username_len body
    else if kind == Kind.group_list_resp
    then read_list group_list max_group_name_len body
    else some ([], [])

-- How the loop ends: `running` says that the fuel ran out, `fault` that a message was read past its end;
-- otherwise what was printed and requested.
pub data Reception : Type 0 where
  running fault : Reception
  over : List Screen → List ℕ → Reception

abbrev pub following : List Screen → List ℕ → Reception → Reception
following screens requests running = running
following screens requests fault = fault
following screens requests (over more later) = over (screens ++ more) (requests ++ later)

unfoldable pub receive_messages : ℕ → List (List ℕ) → Reception
receive_messages zero socket = running
receive_messages (suc fuel) socket = elim (recv_message socket) [
  | none ↦ over [] []
  | some (msg, left) ↦ elim (on_receive msg) [
    | none ↦ fault
    | some (screens, requests) ↦ following screens requests (receive_messages fuel left)
  ]
]
