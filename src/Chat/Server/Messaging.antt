-- ===== src/Chat/Server/Messaging.antt =====
-- Private chat: who can reach whom. 局域网聊天/server.c, MSG_TYPE_CHAT_SEND, MSG_TYPE_ADD_FRIEND and
-- MSG_TYPE_REMOVE_FRIEND.
use mathlib.Core.List.{append-nil}
use learningproject.Common.{
  ℕ, ◌-◌, ◌<◌, ◌≡◌, ◌≢◌, refl, sym, ap, ◌∙◌, true, false, List, [], ◌∷◌, ◌++◌, some, arith, length,
  drop,
}
use learningproject.Chat.Text.{padded, string_at, utf8, bounded_string}
use learningproject.Chat.Text.Laws.{Without, str_eq_ne, bounded_string-padded}
use learningproject.Chat.Disk.{friends_path, max_username_len}
use learningproject.Chat.Accounts.{user_exists}
use learningproject.Chat.Friends.{is_friend, add_friend_both, remove_friend_both}
use learningproject.Chat.Friends.Laws.{Pair, Fits, is_friend-add_friend_both}
use learningproject.Chat.Friends.Removing.{is_friend-remove_friend_both}
use learningproject.Chat.Online.{find_online_fd}
use learningproject.Chat.Kind
use learningproject.Chat.Resp
use learningproject.Chat.Server.{Server, generic_resp, chat_deliver, max_content_len}
use learningproject.Chat.Server.Replies.{
  packet, with_sent, send_message-resp, send_message-deliver, string_at-first, drop-field,
}
use learningproject.Chat.Server.Requests.{on_chat_send, on_add_friend, on_remove_friend}

-- A text that a field of `size` bytes holds as a string.
abbrev pub IsField : ℕ → List ℕ → Type 0
IsField size text = Without 0 text × (length text < size)

content_of :
    (t c : List ℕ)
    → IsField max_content_len c
    → bounded_string (max_content_len - 1) (drop 64 (chat_deliver t c)) ≡ some c
content_of t c f =
    ap (bounded_string (max_content_len - 1))
      (drop-field t (padded c max_content_len) ∙ sym (append-nil (padded c max_content_len)))
    ∙ bounded_string-padded c [] max_content_len f.0 f.1

pub whole_field :
    (t : List ℕ) → IsField max_username_len t → string_at 0 (padded t max_username_len) ≡ some t
whole_field t f =
    ap (string_at 0) (sym (append-nil (padded t max_username_len))) ∙ string_at-first t [] f.0 f.1

pub deliver :
    (fd tfd : ℕ) (u t c : List ℕ) (s : Server)
    → IsField max_username_len t
    → IsField max_content_len c
    → u ≢ t
    → is_friend u t s.disk ≡ true
    → is_friend t u s.disk ≡ true
    → find_online_fd t s.online ≡ some tfd
    → on_chat_send fd u (chat_deliver t c) s
      ≡ some (with_sent s tfd (packet Kind.chat_deliver (chat_deliver u c)))
unfolding on_chat_send
deliver fd tfd u t c s ft fc ne there back on = ground (
  arith,
  string_at-first t (padded c max_content_len) ft.0 ft.1,
  str_eq_ne u t ne,
  there,
  back,
  on,
  content_of t c fc,
  send_message-deliver tfd Kind.chat_deliver u c s,
)

-- User `a` adds `b`, who is another user, registered, online and not yet a friend, and then sends a text
-- of at most 1023 bytes: the request is answered with success, and `b`'s descriptor is sent exactly that
-- text, from `a`. The names have at most 62 bytes, and the friends files of both exist, hold names of
-- such a length and can be written.
pub befriend-chat :
    (fd tfd : ℕ) (a b c : List ℕ) (xs ys : List (List ℕ)) (s : Server)
    → s.disk.may_write (friends_path a) ≡ true
    → s.disk.may_write (friends_path b) ≡ true
    → Fits a
    → Fits b
    → Pair a b xs ys s.disk
    → IsField max_username_len b
    → IsField max_content_len c
    → user_exists b s.disk ≡ true
    → is_friend a b s.disk ≡ false
    → find_online_fd b s.online ≡ some tfd
    → (s₁ : Server) × (on_add_friend fd a (padded b max_username_len) s ≡ some s₁)
      × (s₁.sent
          ≡ s.sent
            ++ (fd, packet Kind.add_friend_resp (generic_resp Resp.ok (utf8 "已成功添加好友 " ++ b))) ∷ [])
      × (on_chat_send fd a (chat_deliver b c) s₁
          ≡ some (with_sent s₁ tfd (packet Kind.chat_deliver (chat_deliver a c))))
unfolding on_add_friend
befriend-chat fd tfd a b c xs ys s wa wb fa fb pair ft fc known new on =
    let (there, back, _, _) = is_friend-add_friend_both a b xs ys s.disk wa wb fa fb pair in
    (
      s₁,
      ground (
        arith,
        whole_field b ft,
        str_eq_ne a b pair.apart,
        known,
        new,
        send_message-resp fd Kind.add_friend_resp Resp.ok (utf8 "已成功添加好友 " ++ b)
            (record s { disk = add_friend_both a b s.disk }),
      ),
      refl,
      deliver fd tfd a b c s₁ ft fc pair.apart there back on,
    )
  where
    s₁ : Server
    s₁ =
        with_sent (record s { disk = add_friend_both a b s.disk }) fd
          (packet Kind.add_friend_resp (generic_resp Resp.ok (utf8 "已成功添加好友 " ++ b)))

-- User `a` removes `b`, another user who is registered: after that a text from either to the other is
-- answered with a refusal to its sender, and nothing else is sent. The names have at most 63 bytes, the
-- friends files of both exist and hold names of at most 62 bytes, and their temporary copies can be
-- written.
pub unfriend-chat :
    (fd other : ℕ) (a b c : List ℕ) (xs ys : List (List ℕ)) (s : Server)
    → s.disk.may_write (friends_path a ++ utf8 ".tmp") ≡ true
    → s.disk.may_write (friends_path b ++ utf8 ".tmp") ≡ true
    → Pair a b xs ys s.disk
    → IsField max_username_len a
    → IsField max_username_len b
    → user_exists b s.disk ≡ true
    → let refusal =
        packet Kind.chat_deliver (generic_resp Resp.err_unknown (utf8 "你们已不是好友关系，无法发送消息")) in
      (s₁ : Server) × (on_remove_friend fd a (padded b max_username_len) s ≡ some s₁)
      × (on_chat_send fd a (chat_deliver b c) s₁ ≡ some (with_sent s₁ fd refusal))
      × (on_chat_send other b (chat_deliver a c) s₁ ≡ some (with_sent s₁ other refusal))
unfolding on_remove_friend on_chat_send
unfriend-chat fd other a b c xs ys s wa wb pair fa fb known =
    let (there, back, _, _) = is_friend-remove_friend_both a b xs ys s.disk wa wb pair in
    (
      s₁,
      ground (
        arith,
        whole_field b fb,
        known,
        send_message-resp fd Kind.remove_friend_resp Resp.ok (utf8 "已删除好友 " ++ b)
            (record s { disk = remove_friend_both a b s.disk }),
      ),
      ground (
        arith,
        string_at-first b (padded c max_content_len) fb.0 fb.1,
        str_eq_ne a b pair.apart,
        there,
        send_message-resp fd Kind.chat_deliver Resp.err_unknown (utf8 "你们已不是好友关系，无法发送消息") s₁,
      ),
      ground (
        arith,
        string_at-first a (padded c max_content_len) fa.0 fa.1,
        str_eq_ne b a (λ e. pair.apart (sym e)),
        back,
        send_message-resp other Kind.chat_deliver Resp.err_unknown (utf8 "你们已不是好友关系，无法发送消息") s₁,
      ),
    )
  where
    s₁ : Server
    s₁ =
        with_sent (record s { disk = remove_friend_both a b s.disk }) fd
          (packet Kind.remove_friend_resp (generic_resp Resp.ok (utf8 "已删除好友 " ++ b)))
