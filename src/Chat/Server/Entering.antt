-- ===== src/Chat/Server/Entering.antt =====
-- Registering and logging in through messages: 局域网聊天/server.c, MSG_TYPE_REGISTER and
-- MSG_TYPE_LOGIN.
use learningproject.Common.{
  ℕ, ◌<◌, ◌≡◌, ◌∙◌, true, false, List, [], ◌++◌, some, arith, inl, inr, length, Bool-cases,
}
use learningproject.Chat.Text.{padded, string_at, str_eq, utf8, is_alphanumeric, simple_hash}
use learningproject.Chat.Text.Laws.{is_alphanumeric-Without, safe_strcpy_of_lt}
use learningproject.Chat.Disk.{text_of, friends_path, users_path, max_username_len, or_empty}
use learningproject.Chat.Accounts.{user_exists, store_user, authenticate_user}
use learningproject.Chat.Accounts.Book.{Entry, IsName, HoldsBook}
use learningproject.Chat.Accounts.Login.{register-login}
use learningproject.Chat.Friends.{load_friend_list}
use learningproject.Chat.Friends.Loading.{load-empty}
use learningproject.Chat.Accounts.Login.{or_empty-store_user}
use learningproject.Common.{if◌then◌else◌}
use learningproject.Chat.Online.{add_online}
use learningproject.Chat.Kind
use learningproject.Chat.Resp
use learningproject.Chat.Server.{Server, generic_resp, notify_friend_status, send_each}
use learningproject.Chat.Server.Replies.{
  packet, with_sent, send_message-resp, string_at-first, string_at-second,
}
use learningproject.Chat.Server.Requests.{on_register, on_login}

-- `struct msg_register` and `struct msg_login`, as the client fills them
abbrev pub credentials : List ℕ → List ℕ → List ℕ
credentials u p = padded u max_username_len ++ padded p max_username_len

-- A name or password that the server accepts, and that its field holds whole.
pub record IsCredential (t : List ℕ) : Type 0 where
  pub letters : is_alphanumeric t ≡ true
  pub fits : length t < max_username_len

first_field : (u p : List ℕ) → IsCredential u → string_at 0 (credentials u p) ≡ some u
first_field u p h =
    string_at-first u (padded p max_username_len) (is_alphanumeric-Without u h.letters).1 h.fits

second_field : (u p : List ℕ) → IsCredential p → string_at 64 (credentials u p) ≡ some p
second_field u p h =
    string_at-second u p max_username_len (is_alphanumeric-Without p h.letters).1 h.fits

pub credential-IsName : (u : List ℕ) → IsCredential u → IsName u
credential-IsName u h =
    let (some_byte, _, no_colon, no_newline) = is_alphanumeric-Without u h.letters in
    record {
      some_byte = some_byte;
      fits = omega (arith, h.fits);
      no_colon = no_colon;
      no_newline = no_newline;
    }

-- `on_register` on well-formed fields: only a free name is stored.
pub register_lem :
    (fd : ℕ) (u p : List ℕ) (s : Server)
    → IsCredential u
    → IsCredential p
    → (user_exists u s.disk ≡ true
        → on_register fd (credentials u p) s
          ≡ some (
              with_sent s fd
                (packet Kind.register_resp (generic_resp Resp.err_user_exist (utf8 "用户名已存在")))))
      × (user_exists u s.disk ≡ false
          → on_register fd (credentials u p) s
            ≡ some (
                with_sent
                  (record s { disk = store_user u p s.disk })
                  fd
                  (packet Kind.register_resp (generic_resp Resp.ok (utf8 "注册成功")))))
unfolding on_register
register_lem fd u p s hu hp = (
  λ e. ground (
    arith,
    fields,
    e,
    send_message-resp fd Kind.register_resp Resp.err_user_exist (utf8 "用户名已存在") s,
  ),
  λ e. ground (
    arith,
    fields,
    e,
    send_message-resp fd Kind.register_resp Resp.ok (utf8 "注册成功")
        (record s { disk = store_user u p s.disk }),
  ),
)
  where
    fields :
        (string_at 0 (credentials u p) ≡ some u)
        × (string_at 64 (credentials u p) ≡ some p)
        × (is_alphanumeric u ≡ true)
        × (is_alphanumeric p ≡ true)
    fields = (first_field u p hu, second_field u p hp, hu.letters, hp.letters)

no_friends :
    (u : List ℕ) (s : Server)
    → load_friend_list u s.disk ≡ some []
    → notify_friend_status u true s ≡ some s
unfolding notify_friend_status send_each
no_friends u s e = ground (arith, e)

login-right :
    (fd : ℕ) (w u p : List ℕ) (s : Server)
    → IsCredential u
    → IsCredential p
    → authenticate_user u p s.disk ≡ true
    → load_friend_list u s.disk ≡ some []
    → on_login fd w (credentials u p) s
      ≡ some (
        u,
        with_sent
            (record s { online = add_online fd u s.online })
            fd
            (packet Kind.login_resp (generic_resp Resp.ok (utf8 "登录成功"))),
      )
unfolding on_login
login-right fd w u p s hu hp auth none_yet = ground (
  arith,
  first_field u p hu,
  second_field u p hp,
  hu.letters,
  hp.letters,
  auth,
  safe_strcpy_of_lt u max_username_len hu.fits,
  no_friends u (record s { online = add_online fd u s.online }) none_yet,
  send_message-resp fd Kind.login_resp Resp.ok (utf8 "登录成功")
      (record s { online = add_online fd u s.online }),
)

login-wrong :
    (fd : ℕ) (w u p : List ℕ) (s : Server)
    → IsCredential u
    → IsCredential p
    → authenticate_user u p s.disk ≡ false
    → on_login fd w (credentials u p) s
      ≡ some (
        w,
        with_sent s fd (packet Kind.login_resp (generic_resp Resp.err_password (utf8 "用户名或密码错误"))),
      )
unfolding on_login
login-wrong fd w u p s hu hp auth = ground (
  arith,
  first_field u p hu,
  second_field u p hp,
  hu.letters,
  hp.letters,
  auth,
  send_message-resp fd Kind.login_resp Resp.err_password (utf8 "用户名或密码错误") s,
)

-- A client registers under a free name, with no friends file left over; name and passwords are 1 to 63
-- letters and digits, and users.txt is well-formed and can be written. From then on a login under that
-- name, on any connection, is answered with success and puts the name and the descriptor into the list
-- of users if the password has the hash of the registered one; otherwise it is refused, and the
-- connection keeps its name.
pub registered-enters :
    (fd : ℕ) (u p : List ℕ) (es : List Entry) (s : Server)
    → IsCredential u
    → IsCredential p
    → s.disk.may_write users_path ≡ true
    → HoldsBook s.disk es
    → user_exists u s.disk ≡ false
    → or_empty (text_of (friends_path u) s.disk) ≡ []
    → (s₁ : Server) × (on_register fd (credentials u p) s ≡ some s₁)
      × ((fd' : ℕ) (w q : List ℕ)
          → IsCredential q
          → on_login fd' w (credentials u q) s₁ ≡ (
              if str_eq (simple_hash p) (simple_hash q)
              then some (
                u,
                with_sent
                    (record s₁ { online = add_online fd' u s₁.online })
                    fd'
                    (packet Kind.login_resp (generic_resp Resp.ok (utf8 "登录成功"))),
              )
              else some (
                w,
                with_sent s₁ fd'
                    (packet Kind.login_resp (generic_resp Resp.err_password (utf8 "用户名或密码错误"))),
              )))
registered-enters fd u p es s hu hp w book free clean =
    let (_, auth, _, _) = register-login u p es s.disk w (credential-IsName u hu) book free in
    (
      s₁,
      (register_lem fd u p s hu hp).1 free,
      λ fd' v q hq. elim (Bool-cases (str_eq (simple_hash p) (simple_hash q))) [
        | inl right ↦ rw right (login-right fd' v u q s₁ hu hq (auth q ∙ right) still)
        | inr wrong ↦ rw wrong (login-wrong fd' v u q s₁ hu hq (auth q ∙ wrong))
      ],
    )
  where
    s₁ : Server
    s₁ =
        with_sent (record s { disk = store_user u p s.disk }) fd
          (packet Kind.register_resp (generic_resp Resp.ok (utf8 "注册成功")))

    still : load_friend_list u s₁.disk ≡ some []
    still = load-empty u s₁.disk (or_empty-store_user u p u s.disk w ∙ clean)
