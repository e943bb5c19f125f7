-- ===== src/Chat/Server.antt =====
-- The chat server's state and what it sends: 局域网聊天/server_tool.c (send_message to a client,
-- notify_friend_status, notify_group_members) and server.c (handle_client, in the children).
-- `none` is a fault: a read or write outside a block. A field of a message counts as a string only if a
-- zero follows before the message ends; a field without one is a fault.
pub mod Replies
pub mod Requests
pub mod GroupRequests
pub mod Session
pub mod Messaging
pub mod Entering
pub mod Racing
pub mod Faults
pub mod Groupcast
use learningproject.Common.{
  ℕ, ◌+◌, ◌%◌, ◌/◌, ◌^◌, Bool, true, false, ◌||◌, List, [], ◌∷◌, ◌++◌, Option, none, some, ◌>>=◌,
  if◌then◌else◌, ◌==◌, length, take,
}
use learningproject.Chat.Text.{str_eq, before, padded, utf8}
use learningproject.Chat.Wire.{frame, u16_bytes}
use learningproject.Chat.Disk.{
  Disk, find, text_of, fgets_all, lines_of, group_path, max_username_len,
}
use learningproject.Chat.Friends.{load_friend_list}
use learningproject.Chat.Online.{ClientNode, find_online_fd}
use learningproject.Chat.Kind

-- `sent` lists what `write` was called with, and the descriptor. Its result goes unused.
pub record Server : Type 0 where
  pub disk : Disk
  pub online : List ClientNode
  pub sent : List (ℕ × List ℕ)

abbrev pub max_content_len : ℕ
max_content_len = 1024

abbrev pub max_error_msg_len : ℕ
max_error_msg_len = 256

unfoldable pub send_message : ℕ → ℕ → List ℕ → Server → Option Server
send_message fd kind body s = do
  bytes ← frame kind body
  some (record s { sent = s.sent ++ (fd, bytes) ∷ [] })

-- `struct generic_resp`
abbrev pub generic_resp : ℕ → List ℕ → List ℕ
generic_resp status errmsg = status ∷ padded errmsg max_error_msg_len

-- `struct msg_friend_status`
abbrev pub friend_status : List ℕ → ℕ → List ℕ
friend_status username online = padded username max_username_len ++ online ∷ []

-- `struct msg_chat_deliver`
abbrev pub chat_deliver : List ℕ → List ℕ → List ℕ
chat_deliver from content = padded from max_username_len ++ padded content max_content_len

-- The loop of notify_friend_status over the friends, for a message body.
unfoldable pub send_each : ℕ → List ℕ → List (List ℕ) → Server → Option Server
send_each kind body [] s = some s
send_each kind body (friend ∷ friends) s = elim (find_online_fd friend s.online) [
  | none ↦ send_each kind body friends s
  | some fd ↦ (send_message fd kind body s >>= λ s'. send_each kind body friends s')
]

unfoldable pub notify_friend_status : List ℕ → Bool → Server → Option Server
notify_friend_status username online s = do
  friends ← load_friend_list username s.disk
  send_each (if online then Kind.friend_online else Kind.friend_offline)
      (friend_status username (if online then 1 else 0)) friends s

-- The loop of notify_group_members over the lines of the group's file.
unfoldable pub send_members : List ℕ → List ℕ → List (List ℕ) → Server → Option Server
send_members sender body [] s = some s
send_members sender body (member ∷ members) s = elim (length member == 0 || str_eq member sender) [
  | true ↦ send_members sender body members s
  | false ↦ elim (find_online_fd member s.online) [
    | none ↦ send_members sender body members s
    | some fd ↦
        (send_message fd Kind.group_deliver body s >>= λ s'. send_members sender body members s')
  ]
]

-- what a group's member is sent
abbrev pub group_message : List ℕ → List ℕ → List ℕ → List ℕ
group_message groupname sender content =
    chat_deliver groupname (take 1097 (sender ++ utf8 ": " ++ content))

unfoldable pub notify_group_members : List ℕ → List ℕ → List ℕ → Server → Option Server
notify_group_members groupname sender content s = elim (text_of (group_path groupname) s.disk) [
  | none ↦ some s
  | some text ↦
      send_members sender (group_message groupname sender content) (lines_of max_username_len text)
        s
]

-- The entries of a list that is sent: a flag, the length in a byte, and the name.
unfoldable pub list_entries : (List ℕ → ℕ) → List (List ℕ) → List ℕ
list_entries flag [] = []
list_entries flag (n ∷ ns) = flag n ∷ (length n % 256) ∷ n ++ list_entries flag ns

-- the body of the two list answers
abbrev pub list_body : (List ℕ → ℕ) → List (List ℕ) → List ℕ
list_body flag names = u16_bytes (length names) ++ list_entries flag names
