-- ===== src/Chat/Client/Menu.antt =====
-- What the user types: main of 局域网聊天/client.c, from the first menu on, with send_message of
-- client_tool.c and the globals there. The terminal's input is the list of its bytes, and a string that
-- was typed the bytes before a newline or a zero. What is printed, and the other thread, are left out.
pub mod Rounds
pub mod Actions
pub mod Ending
pub mod Heard
pub mod Texting
use learningproject.Common.{
  ℕ, zero, suc, ◌+◌, ◌-◌, Bool, true, false, ◌||◌, List, [], ◌∷◌, ◌++◌, Option, none, some,
  if◌then◌else◌, ◌==◌, length,
}
use learningproject.Chat.Text.{utf8, str_eq, before, padded, safe_strcpy}
use learningproject.Chat.Disk.{max_username_len, max_group_name_len}
use learningproject.Chat.Kind
use learningproject.Chat.Server.{max_content_len}
use learningproject.Chat.Server.Entering.{credentials}

-- `fgets` with `room` bytes left in the array: what is read, and what stays
unfoldable pub read_line : ℕ → List ℕ → List ℕ × List ℕ
read_line zero bytes = ([], bytes)
read_line (suc room) [] = ([], [])
read_line (suc room) (b ∷ bs) =
    let (line, rest) = read_line room bs in if b == 10 then (b ∷ [], bs) else (b ∷ line, rest)

unfoldable pub fgets : ℕ → List ℕ → Option (List ℕ × List ℕ)
fgets size [] = none
fgets size (b ∷ bs) = some (read_line (size - 1) (b ∷ bs))

-- the string after `s[strcspn(s, "\n")] = '\0'`
abbrev pub typed : List ℕ → List ℕ
typed line = before 0 (before 10 line)

abbrev pub input_size : ℕ
input_size = 1024

abbrev pub max_password_len : ℕ
max_password_len = 64

-- `logging_in` before the first loop ends, and then `g_mode`
pub data Mode : Type 0 where
  logging_in menu private_chat group_chat : Mode

-- `input` is the string in the array of that name.
pub record Client : Type 0 where
  pub mode : Mode
  pub input : List ℕ
  pub my_username : List ℕ
  pub target_private : List ℕ
  pub target_group : List ℕ

-- a message that is sent: its type and its body
abbrev pub Request : Type 0
Request = ℕ × List ℕ

-- How a round of one of the loops ends: with another round, with the end of the program, or in undefined
-- behaviour, where a password was not read.
pub data Round : Type 0 where
  again : Client → (stdin : List ℕ) → List Request → Round
  quit undefined : Round

-- How the program ends: not within the fuel, in undefined behaviour, or with all messages sent.
pub data Session : Type 0 where
  running broken : Session
  over : List Request → Session

abbrev pub behind : List Request → Session → Session
behind requests running = running
behind requests broken = broken
behind requests (over more) = over (requests ++ more)

-- A prompt inside a round: where `fgets` fails, `input` is as before.
unfoldable pub ask : List ℕ → List ℕ → List ℕ × List ℕ
ask input stdin = elim (fgets input_size stdin) [
  | none ↦ (input, stdin)
  | some (line, rest) ↦ (typed line, rest)
]

-- the password, and the message with it; `after` is the client then
unfoldable pub ask_password : ℕ → List ℕ → List ℕ → Client → Round
ask_password kind name stdin after = elim (fgets max_password_len stdin) [
  | none ↦ undefined
  | some (line, rest) ↦ again after rest ((kind, credentials name (typed line)) ∷ [])
]

-- the first loop, after its own `fgets`
unfoldable pub login_round : Client → List ℕ → Round
login_round c stdin =
    let (name, rest) = ask c.input stdin in
    let asked = record c { input = name } in
    let entered = record asked { mode = menu; my_username = safe_strcpy name max_username_len } in
    if str_eq c.input (utf8 "1")
    then (if length name == 0
        then again asked rest []
        else ask_password Kind.register name rest asked)
    else if str_eq c.input (utf8 "2")
    then (if length name == 0
        then again asked rest []
        else ask_password Kind.login name rest entered)
    else if str_eq c.input (utf8 "3")
    then quit
    else again c stdin []

-- `struct msg_add_friend` with a user's name
abbrev pub user_field : List ℕ → List ℕ
user_field name = padded name max_username_len

abbrev pub request_user : ℕ → Client → List Request
request_user kind c = (kind, user_field c.input) ∷ []

-- A prompt for a name, and what is done with one that is not empty; `first` is sent before it.
unfoldable pub with_name :
    Client → List ℕ → List Request → (Client → List Request) → (Client → Client) → Round
with_name c stdin first requests change =
    let (name, rest) = ask c.input stdin in
    let asked = record c { input = name } in
    if length name == 0
    then again asked rest first
    else again (change asked) rest (first ++ requests asked)

-- A group's name is copied into 32 of the 64 bytes of a field; the others are what the stack holds.
-- `stack n` are `n` bytes of it.
module _ (stack : ℕ → List ℕ) where
  -- `struct msg_add_friend` with a group's name
  abbrev pub group_field : List ℕ → List ℕ
  group_field name = padded name max_group_name_len ++ stack 32

  -- a text in a chat
  unfoldable pub chat_round : Client → List ℕ → Bool → Round
  chat_round c stdin private? =
      let to_user : Request =
        (Kind.chat_send, user_field c.target_private ++ padded c.input max_content_len) in
      let to_group : Request =
        (Kind.group_send, group_field c.target_group ++ padded c.input max_content_len) in
      if str_eq c.input (utf8 "/back") || str_eq c.input (utf8 "/quit")
      then again (record c { mode = menu }) stdin []
      else if length c.input == 0
      then again c stdin []
      else again c stdin ((if private? then to_user else to_group) ∷ [])

  abbrev pub request_group : ℕ → Client → List Request
  request_group kind c = (kind, group_field c.input) ∷ []

  -- the main menu
  unfoldable pub menu_round : Client → List ℕ → Round
  menu_round c stdin =
      let same : Client → Client = λ x. x in
      let chat_with : Client → Client = λ x. record x {
        mode = private_chat;
        target_private = safe_strcpy x.input max_username_len;
      } in
      let enter : Client → Client = λ x. record x {
        mode = group_chat;
        target_group = safe_strcpy x.input max_group_name_len;
      } in
      if str_eq c.input (utf8 "1")
      then again c stdin ((Kind.friend_list_req, []) ∷ [])
      else if str_eq c.input (utf8 "2")
      then with_name c stdin [] (request_user Kind.add_friend) same
      else if str_eq c.input (utf8 "3")
      then with_name c stdin [] (λ x. []) chat_with
      else if str_eq c.input (utf8 "4")
      then with_name c stdin [] (request_group Kind.group_create) same
      else if str_eq c.input (utf8 "5")
      then with_name c stdin [] (request_group Kind.group_join) same
      else if str_eq c.input (utf8 "6")
      then with_name c stdin ((Kind.group_list_req, []) ∷ []) (λ x. []) enter
      else if str_eq c.input (utf8 "7")
      then with_name c stdin [] (request_user Kind.remove_friend) same
      else if str_eq c.input (utf8 "8")
      then with_name c stdin [] (request_group Kind.leave_group) same
      else if str_eq c.input (utf8 "9")
      then quit
      else again c stdin []

  -- the part of a round behind `fgets`
  unfoldable pub act : Mode → Client → List ℕ → Round
  act logging_in c stdin = login_round c stdin
  act menu c stdin = menu_round c stdin
  act private_chat c stdin = chat_round c stdin true
  act group_chat c stdin = chat_round c stdin false

  -- At the end of the input the first loop is left for the second, and that for the end.
  unfoldable pub at_eof : Mode → Client → List ℕ → Round
  at_eof logging_in c stdin = again (record c { mode = menu }) stdin []
  at_eof menu c stdin = quit
  at_eof private_chat c stdin = quit
  at_eof group_chat c stdin = quit

  unfoldable pub round : Client → List ℕ → Round
  round c stdin = elim (fgets input_size stdin) [
    | none ↦ at_eof c.mode c stdin
    | some (line, rest) ↦ act c.mode (record c { input = typed line }) rest
  ]

  unfoldable pub main : ℕ → Client → List ℕ → Session
  main zero c stdin = running
  main (suc fuel) c stdin = elim (round c stdin) [
    | quit ↦ over []
    | undefined ↦ broken
    | again c' rest requests ↦ behind requests (main fuel c' rest)
  ]
