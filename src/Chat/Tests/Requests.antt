-- ===== src/Chat/Tests/Requests.antt =====
-- Requests of clients at a small state: 局域网聊天/server.c, handle_client.
use learningproject.Common.{
  take, ◌||◌, ℕ, ◌≡◌, ◌≢◌, refl, true, false, List, [], ◌∷◌, ◌++◌, some, arith, if◌then◌else◌,
}
use learningproject.Chat.Text.{
  is_alphanumeric, all_alphanumeric, is_letter_or_digit, utf8, str_eq, simple_hash, padded,
}
use learningproject.Chat.Disk.{some_line, find, or_empty, text_of, friends_path, max_username_len}
use learningproject.Chat.Accounts.{user_exists}
use learningproject.Chat.Accounts.Login.{user_exists-book}
use learningproject.Chat.Accounts.Book.{has_name}
use learningproject.Chat.Friends.{is_friend}
use learningproject.Chat.Friends.Laws.{among, is_friend-among}
use learningproject.Chat.Online.{find_online_fd, add_online}
use learningproject.Chat.Kind
use learningproject.Chat.Resp
use learningproject.Chat.Server.Racing.{
  register_at_once, accepted, refused, register_at_once-accepted,
}
use learningproject.Chat.Accounts.{authenticate_user}
use learningproject.Chat.Server.{Server, generic_resp, chat_deliver, max_content_len}
use learningproject.Chat.Server.Replies.{packet, with_sent}
use learningproject.Chat.Server.Requests.{
  on_register, on_login, on_add_friend, on_remove_friend, on_chat_send,
}
use learningproject.Chat.Server.Messaging.{befriend-chat, unfriend-chat, IsField}
use learningproject.Chat.Server.Entering.{credentials, IsCredential, registered-enters}
use learningproject.Chat.Server.Session.{running, handle_client, handle_client-ends}
use learningproject.Chat.Server.GroupRequests.{on_group_send}
use learningproject.Chat.Server.Groupcast.{recipients, to_each, group_send-recipients}
use learningproject.Chat.Groups.Laws.{HoldsMembers}
use learningproject.Chat.Disk.{group_path}
use learningproject.Chat.Disk.Lines.{print_lines}
use learningproject.Chat.Fixture.{
  club, cat-Fits, amy, bob, cat, accounts, disk, server, disk-HoldsBook, disk-Pair, amy-Fits,
  bob-Fits,
}

abbrev dan : List ℕ
dan = b'd' ∷ b'a' ∷ b'n' ∷ []

abbrev hello : List ℕ
hello = b'h' ∷ b'i' ∷ []

-- a group of three, of whom one is online
abbrev group_server : Server
group_server = record server {
  disk = record disk { files = (group_path club, print_lines (cat ∷ amy ∷ bob ∷ [])) ∷ [] };
}

dan-IsCredential : IsCredential dan
unfolding is_alphanumeric all_alphanumeric is_letter_or_digit
dan-IsCredential = record { letters = refl; fits = omega arith }

hello-IsCredential : IsCredential hello
unfolding is_alphanumeric all_alphanumeric is_letter_or_digit
hello-IsCredential = record { letters = refl; fits = omega arith }

dan_free : user_exists dan disk ≡ false
unfolding has_name str_eq
dan_free = user_exists-book dan accounts disk disk-HoldsBook

dan_clean : or_empty (text_of (friends_path dan) disk) ≡ []
unfolding find str_eq
dan_clean = refl

register_at_once-accepted_example :
    ((s₁ : Server) × (on_register 4 (credentials dan hello) server ≡ some s₁)
      × (on_register 6 (credentials dan dan) s₁ ≡ some (with_sent s₁ 6 refused)))
    × ((s₂ : Server) × (register_at_once 4 6 dan hello dan server ≡ some s₂)
        × (s₂.sent ≡ (4, accepted) ∷ (6, accepted) ∷ [])
        × ((r : List ℕ)
            → authenticate_user dan r s₂.disk ≡ (
                str_eq (simple_hash hello) (simple_hash r)
                || str_eq (simple_hash dan) (simple_hash r))))
register_at_once-accepted_example =
    register_at_once-accepted 4 6 dan hello dan accounts server dan-IsCredential hello-IsCredential
      dan-IsCredential refl disk-HoldsBook dan_free

registered-enters_example :
    (s₁ : Server) × (on_register 4 (credentials dan hello) server ≡ some s₁)
    × ((fd' : ℕ) (w q : List ℕ)
        → IsCredential q
        → on_login fd' w (credentials dan q) s₁ ≡ (
            if str_eq (simple_hash hello) (simple_hash q)
            then some (
              dan,
              with_sent
                  (record s₁ { online = add_online fd' dan s₁.online })
                  fd'
                  (packet Kind.login_resp (generic_resp Resp.ok (utf8 "登录成功"))),
            )
            else some (
              w,
              with_sent s₁ fd'
                  (packet Kind.login_resp (generic_resp Resp.err_password (utf8 "用户名或密码错误"))),
            )))
registered-enters_example =
    registered-enters 4 dan hello accounts server dan-IsCredential hello-IsCredential refl
      disk-HoldsBook dan_free dan_clean

bob_known : user_exists bob disk ≡ true
unfolding has_name str_eq
bob_known = user_exists-book bob accounts disk disk-HoldsBook

strangers : is_friend amy bob disk ≡ false
unfolding str_eq some_line
strangers = is_friend-among amy bob (cat ∷ []) disk disk-Pair.left

bob_online : find_online_fd bob server.online ≡ some 5
unfolding find_online_fd str_eq
bob_online = refl

amy-IsField : IsField max_username_len amy
amy-IsField = (ground arith, omega arith)

bob-IsField : IsField max_username_len bob
bob-IsField = (ground arith, omega arith)

hello-IsField : IsField max_content_len hello
hello-IsField = (ground arith, omega arith)

befriend-chat_example :
    (s₁ : Server) × (on_add_friend 4 amy (padded bob max_username_len) server ≡ some s₁)
    × (s₁.sent
        ≡ (4, packet Kind.add_friend_resp (generic_resp Resp.ok (utf8 "已成功添加好友 " ++ bob))) ∷ [])
    × (on_chat_send 4 amy (chat_deliver bob hello) s₁
        ≡ some (with_sent s₁ 5 (packet Kind.chat_deliver (chat_deliver amy hello))))
befriend-chat_example =
    befriend-chat 4 5 amy bob hello (cat ∷ []) [] server refl refl amy-Fits bob-Fits disk-Pair
      bob-IsField hello-IsField bob_known strangers bob_online

unfriend-chat_example :
    let refusal =
      packet Kind.chat_deliver (generic_resp Resp.err_unknown (utf8 "你们已不是好友关系，无法发送消息")) in
    (s₁ : Server) × (on_remove_friend 4 amy (padded bob max_username_len) server ≡ some s₁)
    × (on_chat_send 4 amy (chat_deliver bob hello) s₁ ≡ some (with_sent s₁ 4 refusal))
    × (on_chat_send 5 bob (chat_deliver amy hello) s₁ ≡ some (with_sent s₁ 5 refusal))
unfriend-chat_example =
    unfriend-chat 4 5 amy bob hello (cat ∷ []) [] server refl refl disk-Pair amy-IsField bob-IsField
      bob_known

handle_client-ends_example : handle_client 4 6 [] ((1 ∷ 2 ∷ []) ∷ (3 ∷ []) ∷ []) server ≢ running
handle_client-ends_example =
    handle_client-ends 4 6 [] ((1 ∷ 2 ∷ []) ∷ (3 ∷ []) ∷ []) server (omega arith)

amy_and_cat : HoldsMembers club (cat ∷ amy ∷ bob ∷ []) group_server.disk
unfolding find str_eq
amy_and_cat = record {
  text = refl;
  fit = (cat-Fits.0, cat-Fits.1, (amy-Fits.0, amy-Fits.1, (bob-Fits.0, bob-Fits.1, tt)));
}

club-IsField : IsField max_username_len club
club-IsField = (ground arith, omega arith)

group_send-recipients_example :
    on_group_send 4 amy (chat_deliver club hello) group_server
    ≡ some (record group_server {
      sent =
          group_server.sent
          ++ (if among amy (cat ∷ amy ∷ bob ∷ [])
              then to_each
                  (packet Kind.group_deliver
                    (chat_deliver club (take 1023 (amy ++ utf8 ": " ++ hello))))
                  (recipients amy group_server.online (cat ∷ amy ∷ bob ∷ []))
              else (
                4,
                packet Kind.group_join_resp (generic_resp Resp.err_unknown (utf8 "你不在该群，无法发送消息")),
              )
                ∷ []);
    })
group_send-recipients_example =
    group_send-recipients 4 club amy hello (cat ∷ amy ∷ bob ∷ []) group_server amy_and_cat
      club-IsField hello-IsField

recipients-runs : recipients amy group_server.online (cat ∷ amy ∷ bob ∷ []) ≡ 5 ∷ []
unfolding recipients find_online_fd str_eq
recipients-runs = refl
