-- ===== src/Chat/Tests/Menu.antt =====
-- The client's menus at small inputs: 局域网聊天/client.c, main.
use learningproject.Common.{
  true, some, false, replicate, length-replicate, drop, ℕ, ◌≡◌, refl, List, [], ◌∷◌, ◌++◌, arith,
  length, map,
}
use learningproject.Chat.Text.{safe_strcpy, before, utf8, str_eq, padded}
use learningproject.Chat.Wire.Reading.{IsLive}
use learningproject.Chat.Kind
use learningproject.Chat.Server.{chat_deliver}
use learningproject.Chat.Server.Entering.{credentials}
use learningproject.Chat.Fixture.{amy, bob, cat, disk, server, amy-Fits, bob-Fits, disk-Pair}
use learningproject.Chat.Friends.{is_friend, add_friend_both}
use learningproject.Chat.Friends.Laws.{is_friend-add_friend_both}
use learningproject.Chat.Online.{find_online_fd}
use learningproject.Chat.Server.{Server}
use learningproject.Chat.Server.Replies.{packet, with_sent}
use learningproject.Chat.Server.Requests.{on_chat_send}
use learningproject.Chat.Client.{private_text, on_receive}
use learningproject.Chat.Client.Befriending.{message}
use learningproject.Chat.Client.Menu.{private_chat, again}
use learningproject.Chat.Client.Menu.Texting.{round-private_text}
use learningproject.Chat.Client.Menu.{
  Client, Request, logging_in, read_line, fgets, ask, ask_password, login_round, with_name,
  chat_round, menu_round, act, at_eof, round, main, over, broken,
}
use learningproject.Chat.Client.Menu.Ending.{IsSettled, main-IsSettled}
use learningproject.Chat.Client.Menu.Heard.{written, heard, receive_all, main-receive_all}

-- a stack of zeros
abbrev zeros : ℕ → List ℕ
zeros n = replicate n 0

zeros_whole : (n : ℕ) → length (zeros n) ≡ n
zeros_whole n = length-replicate {A = ℕ} n 0

abbrev start : Client
start = record {
  mode = logging_in;
  input = [];
  my_username = [];
  target_private = [];
  target_group = [];
}

abbrev secret : List ℕ
secret = b'p' ∷ b'w' ∷ []

abbrev hello : List ℕ
hello = b'h' ∷ b'i' ∷ []

-- amy logs in, sends bob a text, and leaves
abbrev typing : List ℕ
typing =
    b'2'
    ∷ 10
    ∷ (amy
        ++ 10 ∷ secret
        ++ 10 ∷ b'3' ∷ 10 ∷ bob
        ++ 10 ∷ hello
        ++ 10 ∷ utf8 "/back"
        ++ 10 ∷ b'9' ∷ 10 ∷ [])

abbrev requests : List Request
requests = (Kind.login, credentials amy secret) ∷ (Kind.chat_send, chat_deliver bob hello) ∷ []

typing_runs : main zeros 70 start typing ≡ over requests
unfolding main round act at_eof login_round menu_round chat_round with_name ask ask_password fgets
    read_line str_eq before safe_strcpy
typing_runs = refl

-- The input ends where a password is asked for.
no_password : main zeros 70 start (b'2' ∷ 10 ∷ b'a' ∷ 10 ∷ []) ≡ broken
unfolding main round act login_round ask ask_password fgets read_line str_eq before safe_strcpy
no_password = refl

-- Of a password of 64 bytes the last is read as a choice of the main menu, where 9 ends the program.
abbrev shortened : List ℕ
shortened = replicate 63 b'p'

long_password :
    main zeros 200 start (b'2' ∷ 10 ∷ b'a' ∷ 10 ∷ shortened ++ b'9' ∷ 10 ∷ [])
    ≡ over ((Kind.login, credentials (b'a' ∷ []) shortened) ∷ [])
unfolding main round act login_round menu_round ask ask_password fgets read_line str_eq before
    safe_strcpy
long_password = refl

main-IsSettled_example : IsSettled (main zeros 70 start typing)
main-IsSettled_example = main-IsSettled zeros zeros_whole 70 start typing (omega arith)

abbrev wire : List (List ℕ)
wire = (0xFE ∷ []) ∷ drop 1 (written requests) ∷ []

wire-IsLive : IsLive wire
wire-IsLive = ground arith

main-receive_all_example : receive_all 3 wire ≡ map heard requests
unfolding padded
main-receive_all_example =
    main-receive_all zeros zeros_whole 70 3 start typing requests wire (omega arith) typing_runs
      wire-IsLive refl (omega arith)

-- amy and bob are friends, and bob is online
abbrev friends : Server
friends = record server { disk = add_friend_both amy bob disk }

amy_and_bob : (is_friend amy bob friends.disk ≡ true) × (is_friend bob amy friends.disk ≡ true)
amy_and_bob =
    let (there, back, _, _) =
      is_friend-add_friend_both amy bob (cat ∷ []) [] disk refl refl amy-Fits bob-Fits disk-Pair in
    (there, back)

bob_there : find_online_fd bob friends.online ≡ some 5
unfolding find_online_fd str_eq
bob_there = refl

no_command : (str_eq hello (utf8 "/back") ≡ false) × (str_eq hello (utf8 "/quit") ≡ false)
unfolding str_eq
no_command = (refl, refl)

abbrev to_bob : Client
to_bob = record start { mode = private_chat; target_private = bob }

round-private_text_example :
    (round zeros to_bob (hello ++ 10 ∷ [])
      ≡ again (record to_bob { input = hello }) [] ((Kind.chat_send, chat_deliver bob hello) ∷ []))
    × (on_chat_send 4 amy (chat_deliver bob hello) friends
        ≡ some (with_sent friends 5 (packet Kind.chat_deliver (chat_deliver amy hello))))
    × (on_receive (message Kind.chat_deliver (chat_deliver amy hello))
        ≡ some (private_text amy hello ∷ [], []))
round-private_text_example =
    round-private_text zeros to_bob hello [] 4 5 amy friends refl (ground arith) (ground arith)
      (omega arith) (omega arith) no_command.0 no_command.1 (ground arith, omega arith)
      (ground arith, omega arith) disk-Pair.apart amy_and_bob.0 amy_and_bob.1 bob_there
