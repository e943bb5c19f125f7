-- ===== src/Chat/Server/Requests.antt =====
-- The requests on accounts, friends and private chat: the cases of the switch of handle_client in
-- 局域网聊天/server.c. Each takes the descriptor, the name that the connection is logged in under (empty
-- before), and the message's body.
use learningproject.Common.{
  ℕ, ◌-◌, drop, true, ◌||◌, not, List, ◌++◌, Option, none, some, ◌>>=◌, if◌then◌else◌,
}
use learningproject.Chat.Text.{
  str_eq, string_at, bounded_string, is_alphanumeric, safe_strcpy, utf8,
}
use learningproject.Chat.Disk.{max_username_len}
use learningproject.Chat.Accounts.{user_exists, store_user, authenticate_user}
use learningproject.Chat.Friends.{is_friend, add_friend_both, remove_friend_both, load_friend_list}
use learningproject.Chat.Online.{find_online_fd, add_online}
use learningproject.Chat.Kind
use learningproject.Chat.Resp
use learningproject.Chat.Server.{
  Server, send_message, max_content_len, generic_resp, notify_friend_status, chat_deliver,
  list_body,
}

unfoldable pub on_register : ℕ → List ℕ → Server → Option Server
on_register fd body s = do
  username ← string_at 0 body
  (if not (is_alphanumeric username)
      then send_message fd Kind.register_resp (generic_resp Resp.err_unknown (utf8 "用户名只能包含英文和数字"))
          s
      else (do
        password ← string_at 64 body
        (if not (is_alphanumeric password)
            then send_message fd Kind.register_resp
                (generic_resp Resp.err_unknown (utf8 "密码只能包含英文和数字")) s
            else if user_exists username s.disk
            then send_message fd Kind.register_resp
                (generic_resp Resp.err_user_exist (utf8 "用户名已存在")) s
            else send_message fd Kind.register_resp (generic_resp Resp.ok (utf8 "注册成功"))
                (record s { disk = store_user username password s.disk }))))

-- The answer holds the name of the connection after the request.
unfoldable pub on_login : ℕ → List ℕ → List ℕ → Server → Option (List ℕ × Server)
on_login fd username body s = do
  name ← string_at 0 body
  (if not (is_alphanumeric name) then (do s' ← refused wrong_format; some (username, s')) else (do
    password ← string_at 64 body
    (if not (is_alphanumeric password)
        then (do s' ← refused wrong_format; some (username, s'))
        else if not (authenticate_user name password s.disk)
        then (do s' ← refused (utf8 "用户名或密码错误"); some (username, s'))
        else (do
          let username' = safe_strcpy name max_username_len
          let s₁ = record s { online = add_online fd username' s.online }
          s₂ ← notify_friend_status username' true s₁
          s₃ ← send_message fd Kind.login_resp (generic_resp Resp.ok (utf8 "登录成功")) s₂
          some (username', s₃)))))
  where
    wrong_format : List ℕ
    wrong_format = utf8 "用户名或密码格式错误（只能英文数字）"

    refused : List ℕ → Option Server
    refused errmsg = send_message fd Kind.login_resp (generic_resp Resp.err_password errmsg) s

unfoldable pub on_add_friend : ℕ → List ℕ → List ℕ → Server → Option Server
on_add_friend fd username body s = do
  target ← string_at 0 body
  (if str_eq username target
      then answer Resp.err_unknown (utf8 "不能添加自己为好友") s
      else if not (user_exists target s.disk)
      then answer Resp.err_user_not_exist (utf8 "用户不存在") s
      else if is_friend username target s.disk
      then answer Resp.err_already_friend (utf8 "对方已是你的好友") s
      else answer Resp.ok (utf8 "已成功添加好友 " ++ target)
          (record s { disk = add_friend_both username target s.disk }))
  where
    answer : ℕ → List ℕ → Server → Option Server
    answer status errmsg = send_message fd Kind.add_friend_resp (generic_resp status errmsg)

unfoldable pub on_remove_friend : ℕ → List ℕ → List ℕ → Server → Option Server
on_remove_friend fd username body s = do
  target ← string_at 0 body
  (if not (user_exists target s.disk)
      then answer Resp.err_user_not_exist (utf8 "用户不存在") s
      else answer Resp.ok (utf8 "已删除好友 " ++ target)
          (record s { disk = remove_friend_both username target s.disk }))
  where
    answer : ℕ → List ℕ → Server → Option Server
    answer status errmsg = send_message fd Kind.remove_friend_resp (generic_resp status errmsg)

-- 1 if a user is online
abbrev pub online_flag : Server → List ℕ → ℕ
online_flag s name = elim (find_online_fd name s.online) [ none ↦ 0 | some fd ↦ 1 ]

unfoldable pub on_friend_list : ℕ → List ℕ → Server → Option Server
on_friend_list fd username s = do
  friends ← load_friend_list username s.disk
  send_message fd Kind.friend_list_resp (list_body (online_flag s) friends) s

unfoldable pub on_chat_send : ℕ → List ℕ → List ℕ → Server → Option Server
on_chat_send fd username body s = do
  target ← string_at 0 body
  (if str_eq username target
      then send_message fd Kind.chat_deliver (generic_resp Resp.err_unknown (utf8 "不能和自己聊天")) s
      else if not (is_friend username target s.disk) || not (is_friend target username s.disk)
      then send_message fd Kind.chat_deliver
          (generic_resp Resp.err_unknown (utf8 "你们已不是好友关系，无法发送消息")) s
      else elim (find_online_fd target s.online) [
        | none ↦ some s
        | some tfd ↦ (do
          content ← bounded_string (max_content_len - 1) (drop 64 body)
          send_message tfd Kind.chat_deliver (chat_deliver username content) s)
      ])
