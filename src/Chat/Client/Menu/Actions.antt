-- ===== src/Chat/Client/Menu/Actions.antt =====
-- What the rounds of the main menu and of the chats of 局域网聊天/client.c send.
use learningproject.Common.{
  ℕ, ◌<◌, ◌≡◌, Bool, true, false, List, [], ◌++◌, arith, length, length-append, if◌then◌else◌, ◌==◌,
  ◌||◌,
}
use learningproject.Chat.Text.{utf8, str_eq, padded}
use learningproject.Chat.Text.Laws.{length-padded}
use learningproject.Chat.Disk.{max_username_len, max_group_name_len}
use learningproject.Chat.Kind
use learningproject.Chat.Server.{max_content_len}
use learningproject.Chat.Client.Menu.{
  Mode, logging_in, menu, private_chat, group_chat, Client, again, quit, user_field, group_field,
  chat_round, request_group, menu_round, act,
}
use learningproject.Chat.Client.Menu.Rounds.{
  IsSmall, AllSmall, IsFine, if-IsFine, idle-IsFine, login_round-IsFine, user-AllSmall,
  with_name-IsFine,
}

module _ (stack : ℕ → List ℕ) (whole : (n : ℕ) → length (stack n) ≡ n) where
  length-group_field : (name : List ℕ) → length (group_field stack name) ≡ 64
  length-group_field name = omega (
    arith,
    length-append (padded name max_group_name_len) (stack 32),
    length-padded name max_group_name_len,
    whole 32,
  )

  text-IsSmall :
      (kind : ℕ) (field content : List ℕ)
      → kind < 256
      → length field ≡ 64
      → IsSmall (kind, field ++ padded content max_content_len)
  text-IsSmall kind field content small size = (
    small,
    omega (
      arith,
      length-append field (padded content max_content_len),
      length-padded content max_content_len,
    ),
  )

  chat_round-IsFine :
      (c : Client) (stdin : List ℕ) (private? : Bool)
      → IsFine stdin (chat_round stack c stdin private?)
  unfolding chat_round
  chat_round-IsFine c stdin private? =
      if-IsFine (str_eq c.input (utf8 "/back") || str_eq c.input (utf8 "/quit")) stdin _ _
        (idle-IsFine stdin stdin (record c { mode = menu }) (omega arith))
        (if-IsFine (length c.input == 0) stdin _ _ (idle-IsFine stdin stdin c (omega arith))
          (omega arith, (text private?, tt)))
    where
      text :
          (b : Bool)
          → IsSmall (
              if b
              then (Kind.chat_send, user_field c.target_private ++ padded c.input max_content_len)
              else (
                Kind.group_send,
                group_field stack c.target_group ++ padded c.input max_content_len,
              ))
      text true =
          text-IsSmall Kind.chat_send (padded c.target_private max_username_len) c.input
            (omega arith) (length-padded c.target_private max_username_len (omega arith))
      text false =
          text-IsSmall Kind.group_send (group_field stack c.target_group) c.input (omega arith)
            (length-group_field c.target_group)

  group-AllSmall : (kind : ℕ) (c : Client) → kind < 256 → AllSmall (request_group stack kind c)
  group-AllSmall kind c small = ((small, omega (arith, length-group_field c.input)), tt)

  menu_round-IsFine : (c : Client) (stdin : List ℕ) → IsFine stdin (menu_round stack c stdin)
  unfolding menu_round
  menu_round-IsFine c stdin =
      if-IsFine (str_eq c.input (utf8 "1")) stdin _ _
        (omega arith, ((omega arith, omega arith), tt))
        (if-IsFine (str_eq c.input (utf8 "2")) stdin _ _
          (with_name-IsFine c stdin [] _ _ tt
            (λ c'. user-AllSmall Kind.add_friend c' (omega arith)))
          (if-IsFine (str_eq c.input (utf8 "3")) stdin _ _
            (with_name-IsFine c stdin [] _ _ tt (λ c'. tt))
            (if-IsFine (str_eq c.input (utf8 "4")) stdin _ _
              (with_name-IsFine c stdin [] _ _ tt
                (λ c'. group-AllSmall Kind.group_create c' (omega arith)))
              (if-IsFine (str_eq c.input (utf8 "5")) stdin _ _
                (with_name-IsFine c stdin [] _ _ tt
                  (λ c'. group-AllSmall Kind.group_join c' (omega arith)))
                (if-IsFine (str_eq c.input (utf8 "6")) stdin _ _
                  (with_name-IsFine c stdin _ _ _ ((omega arith, omega arith), tt) (λ c'. tt))
                  (if-IsFine (str_eq c.input (utf8 "7")) stdin _ _
                    (with_name-IsFine c stdin [] _ _ tt
                      (λ c'. user-AllSmall Kind.remove_friend c' (omega arith)))
                    (if-IsFine (str_eq c.input (utf8 "8")) stdin _ _
                      (with_name-IsFine c stdin [] _ _ tt
                        (λ c'. group-AllSmall Kind.leave_group c' (omega arith)))
                      (if-IsFine (str_eq c.input (utf8 "9")) stdin quit (again c stdin []) tt
                        (idle-IsFine stdin stdin c (omega arith))))))))))

  pub act-IsFine :
      (mode : Mode) (c : Client) (stdin : List ℕ) → IsFine stdin (act stack mode c stdin)
  unfolding act
  act-IsFine logging_in c stdin = login_round-IsFine c stdin
  act-IsFine menu c stdin = menu_round-IsFine c stdin
  act-IsFine private_chat c stdin = chat_round-IsFine c stdin true
  act-IsFine group_chat c stdin = chat_round-IsFine c stdin false
