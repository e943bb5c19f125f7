-- ===== src/Chat/Tests/Client.antt =====
-- The client at small inputs: 局域网聊天/client.c, receive_messages.
use learningproject.Common.{
  ◌++◌, ◌≤◌, length, ◌+◌, ℕ, ◌≡◌, refl, true, false, List, [], ◌∷◌, some, arith, drop, map,
}
use learningproject.Chat.Text.{padded, str_eq}
use learningproject.Chat.Wire.Reading.{IsLive, stream}
use learningproject.Chat.Disk.{max_username_len, some_line}
use learningproject.Chat.Accounts.{user_exists}
use learningproject.Chat.Accounts.Login.{user_exists-book}
use learningproject.Chat.Accounts.Book.{has_name}
use learningproject.Chat.Friends.{is_friend}
use learningproject.Chat.Friends.Laws.{is_friend-among}
use learningproject.Chat.Kind
use learningproject.Chat.Resp
use learningproject.Chat.Server.{generic_resp, list_body, list_entries}
use learningproject.Chat.Wire.{header_size, recv_buf_size}
use learningproject.Chat.Server.Replies.{packet, with_sent}
use learningproject.Chat.Server.Requests.{on_add_friend, on_friend_list, online_flag}
use learningproject.Chat.Client.{
  server_says, friend_list, private_text, group_text, receive_messages, over,
}
use learningproject.Chat.Client.Lists.{shown}
use learningproject.Chat.Client.Deliveries.{
  Delivery, AllTexts, kind_of, body_of, receive_messages-written,
}
use learningproject.Chat.Client.Befriending.{added_text, befriended, add_friend-friend_list}
use learningproject.Chat.Fixture.{
  amy, bob, cat, club, accounts, disk, server, disk-HoldsBook, disk-Pair, amy-Fits, bob-Fits,
}

abbrev hi : List ℕ
hi = b'h' ∷ b'i' ∷ []

-- from bob, and in the group club
abbrev first_text : Delivery
first_text = record { in_group = false; from = bob; content = hi }

abbrev second_text : Delivery
second_text = record { in_group = true; from = club; content = hi }

abbrev first_packet : List ℕ
first_packet = packet (kind_of false) (body_of first_text)

-- The first byte comes alone.
abbrev pieces : List (List ℕ)
pieces = (0xFE ∷ []) ∷ drop 1 first_packet ∷ packet (kind_of true) (body_of second_text) ∷ []

pieces-IsLive : IsLive pieces
pieces-IsLive = ground arith

texts-AllTexts : AllTexts (first_text ∷ second_text ∷ [])
texts-AllTexts = (
  (ground arith, omega arith),
  (ground arith, omega arith),
  ((ground arith, omega arith), (ground arith, omega arith), tt),
)

receive_messages-written_example :
    receive_messages 3 pieces ≡ over (private_text bob hi ∷ group_text club hi ∷ []) []
receive_messages-written_example =
    receive_messages-written 3 (first_text ∷ second_text ∷ []) pieces texts-AllTexts pieces-IsLive
      refl (omega arith)

bob_known : user_exists bob disk ≡ true
unfolding has_name str_eq
bob_known = user_exists-book bob accounts disk disk-HoldsBook

not_friends : is_friend amy bob disk ≡ false
unfolding str_eq some_line
not_friends = is_friend-among amy bob (cat ∷ []) disk disk-Pair.left

-- what amy's client is sent, cut after the first byte
abbrev answers : List (List ℕ)
answers =
    (0xFE ∷ [])
    ∷ drop 1 (packet Kind.add_friend_resp (generic_resp Resp.ok (added_text bob)))
    ∷ packet Kind.friend_list_resp
        (list_body (online_flag (befriended 4 amy bob server)) (cat ∷ bob ∷ []))
    ∷ []

answers-IsLive : IsLive answers
answers-IsLive = ground arith

answers_sent :
    stream answers
    ≡ packet Kind.add_friend_resp (generic_resp Resp.ok (added_text bob))
      ++ packet Kind.friend_list_resp
          (list_body (online_flag (befriended 4 amy bob server)) (cat ∷ bob ∷ []))
unfolding list_entries
answers_sent = refl

short_list :
    header_size + length (list_body (online_flag (befriended 4 amy bob server)) (cat ∷ bob ∷ []))
    ≤ recv_buf_size
unfolding list_entries
short_list = omega arith

add_friend-friend_list_example :
    let s₁ = befriended 4 amy bob server in
    let body = list_body (online_flag s₁) (cat ∷ bob ∷ []) in
    (on_add_friend 4 amy (padded bob max_username_len) server ≡ some s₁)
    × (on_friend_list 4 amy s₁ ≡ some (with_sent s₁ 4 (packet Kind.friend_list_resp body)))
    × (receive_messages 3 answers
        ≡ over
            (server_says (added_text bob)
              ∷ friend_list (map (shown (online_flag s₁)) (cat ∷ bob ∷ []))
              ∷ [])
            (Kind.friend_list_req ∷ []))
add_friend-friend_list_example =
    add_friend-friend_list 4 3 amy bob (cat ∷ []) [] server answers refl refl amy-Fits bob-Fits
      disk-Pair (ground arith, omega arith) (omega arith) bob_known not_friends (omega arith, tt)
      (ground arith) (omega arith) short_list answers-IsLive answers_sent (omega arith)
