-- ===== src/Chat/Client/Menu/Texting.antt =====
-- A text from one user's keyboard to another user's screen: main and receive_messages of 局域网聊天/client.c,
-- with MSG_TYPE_CHAT_SEND of 局域网聊天/server.c.
use learningproject.Common.{
  ℕ, zero, suc, ◌-◌, ◌<◌, ◌≡◌, ◌≢◌, refl, ap, ◌∙◌, true, false, List, [], ◌∷◌, ◌++◌, some, arith,
  length,
}
use learningproject.Chat.Text.{utf8, str_eq, before}
use learningproject.Chat.Text.Laws.{Without, before-append, before_of_Without}
use learningproject.Chat.Disk.{max_username_len}
use learningproject.Chat.Friends.{is_friend}
use learningproject.Chat.Online.{find_online_fd}
use learningproject.Chat.Kind
use learningproject.Chat.Server.{Server, chat_deliver, max_content_len}
use learningproject.Chat.Server.Replies.{packet, with_sent}
use learningproject.Chat.Server.Requests.{on_chat_send}
use learningproject.Chat.Server.Messaging.{IsField, deliver}
use learningproject.Chat.Client.{private_text, on_receive}
use learningproject.Chat.Client.Deliveries.{on_receive-deliver}
use learningproject.Chat.Client.Befriending.{message}
use learningproject.Chat.Client.Menu.{
  read_line, fgets, input_size, typed, Mode, private_chat, Client, again, act, chat_round, round,
}

read_line-line :
    (room : ℕ) (text rest : List ℕ)
    → Without 10 text
    → length text < room
    → read_line room (text ++ 10 ∷ rest) ≡ (text ++ 10 ∷ [], rest)
unfolding read_line
read_line-line zero text rest no_line h = elim h [ ]
read_line-line (suc room) [] rest no_line h = refl
read_line-line (suc room) (b ∷ bs) rest no_line h =
    ground (arith, read_line-line room bs rest no_line.1 (omega arith))

typed-line : (text : List ℕ) → Without 0 text → Without 10 text → typed (text ++ 10 ∷ []) ≡ text
typed-line text no_zero no_line =
    ap (before 0) (before-append 10 text [] no_line) ∙ before_of_Without 0 text no_zero

fgets-line :
    (text rest : List ℕ)
    → Without 10 text
    → length text < input_size - 1
    → 0 < length text
    → fgets input_size (text ++ 10 ∷ rest) ≡ some (text ++ 10 ∷ [], rest)
unfolding fgets
fgets-line [] rest no_line h pos = elim pos [ ]
fgets-line (b ∷ bs) rest no_line h pos =
    ap some (read_line-line (input_size - 1) (b ∷ bs) rest no_line h)

module _ (stack : ℕ → List ℕ) where
  chat_round-text :
      (c : Client) (stdin : List ℕ)
      → 0 < length c.input
      → str_eq c.input (utf8 "/back") ≡ false
      → str_eq c.input (utf8 "/quit") ≡ false
      → chat_round stack c stdin true
        ≡ again c stdin ((Kind.chat_send, chat_deliver c.target_private c.input) ∷ [])
  unfolding chat_round
  chat_round-text c stdin pos no_back no_quit = ground (arith, no_back, no_quit)

  act-private_chat :
      (mode : Mode) (c : Client) (stdin : List ℕ)
      → mode ≡ private_chat
      → act stack mode c stdin ≡ chat_round stack c stdin true
  unfolding act
  act-private_chat mode c stdin e = rw e refl

  round-line :
      (c : Client) (text rest : List ℕ)
      → Without 0 text
      → Without 10 text
      → 0 < length text
      → length text < input_size - 1
      → round stack c (text ++ 10 ∷ rest) ≡ act stack c.mode (record c { input = text }) rest
  unfolding round
  round-line c text rest no_zero no_line pos short =
      rw (fgets-line text rest no_line short pos, typed-line text no_zero no_line, round) refl

  -- A user chats with `t`, another user, who is online; each has the other as a friend. The user types a line
  -- of 1 to 1022 bytes that is neither "/back" nor "/quit". Then the client sends one message; what the
  -- server does with it is that `t`'s descriptor is sent a packet; and the client that receives this
  -- prints exactly the text that was typed, as one from the first user.
  pub round-private_text :
      (c : Client) (text rest : List ℕ) (fd tfd : ℕ) (u : List ℕ) (s : Server)
      → let t = c.target_private in
        c.mode ≡ private_chat
        → Without 0 text
        → Without 10 text
        → 0 < length text
        → length text < input_size - 1
        → str_eq text (utf8 "/back") ≡ false
        → str_eq text (utf8 "/quit") ≡ false
        → IsField max_username_len u
        → IsField max_username_len t
        → u ≢ t
        → is_friend u t s.disk ≡ true
        → is_friend t u s.disk ≡ true
        → find_online_fd t s.online ≡ some tfd
        → (round stack c (text ++ 10 ∷ rest)
            ≡ again (record c { input = text }) rest ((Kind.chat_send, chat_deliver t text) ∷ []))
          × (on_chat_send fd u (chat_deliver t text) s
              ≡ some (with_sent s tfd (packet Kind.chat_deliver (chat_deliver u text))))
          × (on_receive (message Kind.chat_deliver (chat_deliver u text))
              ≡ some (private_text u text ∷ [], []))
  round-private_text c text rest fd tfd u s mode no_zero no_line pos short no_back no_quit user
        target apart there back online =
      let content : IsField max_content_len text = (no_zero, omega (arith, short)) in
      let t = c.target_private in
      (
        round-line c text rest no_zero no_line pos short
            ∙ act-private_chat c.mode (record c { input = text }) rest mode
            ∙ chat_round-text (record c { input = text }) rest pos no_back no_quit,
        deliver fd tfd u t text s target content apart there back online,
        on_receive-deliver false u text user content,
      )
