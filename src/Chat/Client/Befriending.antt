-- ===== src/Chat/Client/Befriending.antt =====
-- A new friend appears in the client's list: 局域网聊天/client.c, receive_messages, with
-- MSG_TYPE_ADD_FRIEND and MSG_TYPE_FRIEND_LIST_REQ of 局域网聊天/server.c.
use mathlib.Core.List.{append-nil}
use learningproject.Common.{
  ℕ, zero, suc, ◌+◌, ◌≤◌, ◌<◌, ◌≡◌, refl, sym, ap, ◌∙◌, true, false, List, [], ◌∷◌, ◌++◌, some,
  arith, length, map, length-append,
}
use learningproject.Chat.Text.{padded, string_at, utf8, c_string}
use learningproject.Chat.Text.Laws.{length-padded, Without, c_string-padded, str_eq_ne}
use learningproject.Chat.Wire.{Message, header_size, recv_buf_size}
use learningproject.Chat.Wire.Reading.{stream, IsLive}
use learningproject.Chat.Wire.RoundTrip.{sent_header, recv-frame, frame_lem}
use learningproject.Chat.Disk.{max_username_len, friends_path}
use learningproject.Chat.Accounts.{user_exists}
use learningproject.Chat.Friends.{max_friends, is_friend, add_friend_both}
use learningproject.Chat.Friends.Laws.{Pair, Fits, add-Pair}
use learningproject.Chat.Friends.Loading.{AllNamed}
use learningproject.Chat.Kind
use learningproject.Chat.Resp
use learningproject.Chat.Server.{Server, generic_resp, list_body, max_error_msg_len}
use learningproject.Chat.Server.Replies.{packet, with_sent, send_message-resp}
use learningproject.Chat.Server.Requests.{on_add_friend, on_friend_list, online_flag}
use learningproject.Chat.Server.Messaging.{IsField, whole_field}
use learningproject.Chat.Client.{
  Shown, server_says, friend_list, show_list, on_receive, receive_messages, over,
}
use learningproject.Chat.Client.Deliveries.{recv_message-end}
use learningproject.Chat.Client.Lists.{AllStrings, shown, friend_list-show_list}

-- a message as recv_message returns it
abbrev pub message : ℕ → List ℕ → Message
message kind body = record { header = sent_header kind (length body); body = body }

-- the text that goes with a new friend
abbrev pub added_text : List ℕ → List ℕ
added_text b = utf8 "已成功添加好友 " ++ b

-- the server after `b` has become a friend of `a`, and the answer is sent
abbrev pub befriended : ℕ → (a b : List ℕ) → Server → Server
befriended fd a b s =
    with_sent (record s { disk = add_friend_both a b s.disk }) fd
      (packet Kind.add_friend_resp (generic_resp Resp.ok (added_text b)))

AllNamed-one :
    (names : List (List ℕ)) (b : List ℕ)
    → AllNamed names
    → 0 < length b
    → AllNamed (names ++ b ∷ [])
AllNamed-one [] b h named = (named, tt)
AllNamed-one (n ∷ ns) b h named = (h.0, AllNamed-one ns b h.1 named)

AllStrings-one :
    (names : List (List ℕ)) (b : List ℕ)
    → AllStrings names
    → Without 0 b
    → AllStrings (names ++ b ∷ [])
AllStrings-one [] b h w = (w, tt)
AllStrings-one (n ∷ ns) b h w = (h.0, AllStrings-one ns b h.1 w)

added_text-Without : (b : List ℕ) → Without 0 b → Without 0 (added_text b)
added_text-Without b w = ground (arith, w)

length-added_text :
    (b : List ℕ) → length b < max_username_len → length (added_text b) < max_error_msg_len
length-added_text b h = omega (arith, length-append (utf8 "已成功添加好友 ") b)

-- The answer to a change of the friends makes the client ask for the list.
on_receive-added :
    (b : List ℕ)
    → IsField max_username_len b
    → on_receive (message Kind.add_friend_resp (generic_resp Resp.ok (added_text b)))
      ≡ some (server_says (added_text b) ∷ [], Kind.friend_list_req ∷ [])
unfolding on_receive
on_receive-added b f =
    let text : string_at 1 (generic_resp Resp.ok (added_text b)) ≡ some (added_text b) =
      ap (λ xs. c_string xs) (sym (append-nil (padded (added_text b) max_error_msg_len)))
      ∙ c_string-padded (added_text b) [] max_error_msg_len (added_text-Without b f.0)
          (length-added_text b f.1) in
    ground (arith, text)

on_receive-list :
    (body : List ℕ) (entries : List Shown)
    → show_list max_username_len body ≡ some entries
    → on_receive (message Kind.friend_list_resp body) ≡ some (friend_list entries ∷ [], [])
unfolding on_receive
on_receive-list body entries e = ground (arith, e)

-- The client is sent the answer to a new friend, and then a list.
receive_messages-added :
    (fuel : ℕ) (b body : List ℕ) (entries : List Shown) (socket : List (List ℕ))
    → IsField max_username_len b
    → show_list max_username_len body ≡ some entries
    → header_size + length body ≤ recv_buf_size
    → IsLive socket
    → stream socket
      ≡ packet Kind.add_friend_resp (generic_resp Resp.ok (added_text b))
        ++ packet Kind.friend_list_resp body
    → 3 ≤ fuel
    → receive_messages fuel socket
      ≡ over (server_says (added_text b) ∷ friend_list entries ∷ []) (Kind.friend_list_req ∷ [])
unfolding receive_messages
receive_messages-added zero b body entries socket fd_b seen fits live e h = elim h [ ]
receive_messages-added (suc zero) b body entries socket fd_b seen fits live e h =
    absurd (omega arith)
receive_messages-added (suc (suc zero)) b body entries socket fd_b seen fits live e h =
    absurd (omega arith)
receive_messages-added (suc (suc (suc fuel))) b body entries socket fd_b seen fits live e h =
    let answer = generic_resp Resp.ok (added_text b) in
    let small : header_size + length answer ≤ recv_buf_size =
      omega (arith, length-padded (added_text b) max_error_msg_len) in
    let (left, first, live', rest) =
      recv-frame Kind.add_friend_resp answer (packet Kind.friend_list_resp body)
        (packet Kind.add_friend_resp answer) socket (omega arith) small
        (frame_lem Kind.add_friend_resp answer (omega (arith, small))) live e in
    let (end, second, live'', nothing) =
      recv-frame Kind.friend_list_resp body [] (packet Kind.friend_list_resp body) left
        (omega arith) fits (frame_lem Kind.friend_list_resp body (omega (arith, fits))) live'
        (rest ∙ sym (append-nil (packet Kind.friend_list_resp body))) in
    rw
      (
        first,
        on_receive-added b fd_b,
        second,
        on_receive-list body entries seen,
        recv_message-end end nothing,
        receive_messages,
      )
      refl

-- User `a`, with fewer than MAX_FRIENDS friends, adds another user `b` who is registered and not yet a
-- friend, and the client asks for the list of friends. However the network cuts the bytes of the server's two
-- messages into pieces, the client prints the answer, asks for the list of friends, and prints the friends
-- of `a` as before, and `b` behind them, with 1 for those that are online. The names are strings of 1 to 62
-- bytes, the message with the list has at most RECV_BUF_SIZE bytes, and the friends files of both exist
-- and can be written.
pub add_friend-friend_list :
    (fd fuel : ℕ) (a b : List ℕ) (xs ys : List (List ℕ)) (s : Server) (socket : List (List ℕ))
    → s.disk.may_write (friends_path a) ≡ true
    → s.disk.may_write (friends_path b) ≡ true
    → Fits a
    → Fits b
    → Pair a b xs ys s.disk
    → IsField max_username_len b
    → 0 < length b
    → user_exists b s.disk ≡ true
    → is_friend a b s.disk ≡ false
    → AllNamed xs
    → AllStrings xs
    → length xs < max_friends
    → header_size + length (list_body (online_flag (befriended fd a b s)) (xs ++ b ∷ []))
      ≤ recv_buf_size
    → IsLive socket
    → stream socket
      ≡ packet Kind.add_friend_resp (generic_resp Resp.ok (added_text b))
        ++ packet Kind.friend_list_resp
            (list_body (online_flag (befriended fd a b s)) (xs ++ b ∷ []))
    → 3 ≤ fuel
    → let s₁ = befriended fd a b s in
      let body = list_body (online_flag s₁) (xs ++ b ∷ []) in
      (on_add_friend fd a (padded b max_username_len) s ≡ some s₁)
      × (on_friend_list fd a s₁ ≡ some (with_sent s₁ fd (packet Kind.friend_list_resp body)))
      × (receive_messages fuel socket
          ≡ over
              (server_says (added_text b)
                ∷ friend_list (map (shown (online_flag s₁)) (xs ++ b ∷ []))
                ∷ [])
              (Kind.friend_list_req ∷ []))
unfolding on_add_friend
add_friend-friend_list fd fuel a b xs ys s socket wa wb fa fb pair fd_b some_b known new named
      strings few fits live e enough =
    let s₁ = befriended fd a b s in
    let pair' = add-Pair a b xs ys s.disk wa wb fa fb pair in
    let (sent, seen) =
      friend_list-show_list fd a (xs ++ b ∷ []) s₁ pair'.left (AllNamed-one xs b named some_b)
        (AllStrings-one xs b strings fd_b.0) (omega (arith, length-append xs (b ∷ []))) in
    (
      ground (
        arith,
        whole_field b fd_b,
        str_eq_ne a b pair.apart,
        known,
        new,
        send_message-resp fd Kind.add_friend_resp Resp.ok (added_text b)
            (record s { disk = add_friend_both a b s.disk }),
      ),
      sent,
      receive_messages-added fuel b (list_body (online_flag s₁) (xs ++ b ∷ [])) _ socket fd_b seen
          fits live e enough,
    )
