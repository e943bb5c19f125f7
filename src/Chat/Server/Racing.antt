-- ===== src/Chat/Server/Racing.antt =====
-- Two threads of handle_client in 局域网聊天/server.c register one name: user_exists and store_user each take
-- file_io_mutex for themselves, so that another thread can run between them.
use learningproject.Common.{
  ℕ, ◌≡◌, sym, ap, ◌∙◌, Bool, true, false, ◌||◌, List, [], ◌∷◌, ◌++◌, Option, some, ◌>>=◌,
  if◌then◌else◌, Bool-cases, inl, inr,
}
use mathlib.Core.List.{append_assoc}
use learningproject.Chat.Text.{str_eq, utf8, simple_hash}
use learningproject.Chat.Disk.{users_path}
use learningproject.Chat.Accounts.{user_exists, store_user, authenticate_user}
use learningproject.Chat.Accounts.Book.{Entry, HoldsBook}
use learningproject.Chat.Accounts.Login.{register-login}
use learningproject.Chat.Accounts.Twice.{authenticate-stored_twice}
use learningproject.Chat.Kind
use learningproject.Chat.Resp
use learningproject.Chat.Server.{Server, generic_resp, send_message}
use learningproject.Chat.Server.Replies.{packet, with_sent, send_message-resp}
use learningproject.Chat.Server.Requests.{on_register}
use learningproject.Chat.Server.Entering.{
  credentials, IsCredential, credential-IsName, register_lem,
}

-- What follows user_exists, with its result.
unfoldable pub after_user_exists :
    (fd : ℕ) (username password : List ℕ) (exists : Bool) → Server → Option Server
after_user_exists fd username password exists s =
    if exists
    then send_message fd Kind.register_resp (generic_resp Resp.err_user_exist (utf8 "用户名已存在")) s
    else send_message fd Kind.register_resp (generic_resp Resp.ok (utf8 "注册成功"))
        (record s { disk = store_user username password s.disk })

-- Two threads call user_exists for a name, and then each goes on.
unfoldable pub register_at_once : (fd fd' : ℕ) (username p q : List ℕ) → Server → Option Server
register_at_once fd fd' username p q s =
    let exists = user_exists username s.disk in
    let exists' = user_exists username s.disk in
    do s' ← after_user_exists fd username p exists s; after_user_exists fd' username q exists' s'

abbrev pub accepted : List ℕ
accepted = packet Kind.register_resp (generic_resp Resp.ok (utf8 "注册成功"))

abbrev pub refused : List ℕ
refused = packet Kind.register_resp (generic_resp Resp.err_user_exist (utf8 "用户名已存在"))

after_user_exists-known :
    (fd : ℕ) (u p : List ℕ) (s : Server)
    → after_user_exists fd u p true s ≡ some (with_sent s fd refused)
unfolding after_user_exists
after_user_exists-known fd u p s =
    send_message-resp fd Kind.register_resp Resp.err_user_exist (utf8 "用户名已存在") s

after_user_exists-free :
    (fd : ℕ) (u p : List ℕ) (s : Server)
    → after_user_exists fd u p false s
      ≡ some (with_sent (record s { disk = store_user u p s.disk }) fd accepted)
unfolding after_user_exists
after_user_exists-free fd u p s =
    send_message-resp fd Kind.register_resp Resp.ok (utf8 "注册成功")
      (record s { disk = store_user u p s.disk })

-- Alone, a request is user_exists and then the rest.
on_register-after_user_exists :
    (fd : ℕ) (u p : List ℕ) (s : Server)
    → IsCredential u
    → IsCredential p
    → on_register fd (credentials u p) s ≡ after_user_exists fd u p (user_exists u s.disk) s
on_register-after_user_exists fd u p s hu hp = elim (Bool-cases (user_exists u s.disk)) [
  | inl known ↦
      (register_lem fd u p s hu hp).0 known
      ∙ sym (after_user_exists-known fd u p s)
      ∙ ap (λ b. after_user_exists fd u p b s) (sym known)
  | inr free ↦
      (register_lem fd u p s hu hp).1 free
      ∙ sym (after_user_exists-free fd u p s)
      ∙ ap (λ b. after_user_exists fd u p b s) (sym free)
]

-- Two connections ask to register one name that is free, with two passwords; name and passwords are 1 to
-- 63 letters and digits, and users.txt is well-formed and can be written. One after the other, the second
-- is refused. If both threads call user_exists before either stores the user, both are told that they
-- have registered, and from then on the name can be entered with the password of either.
pub register_at_once-accepted :
    (fd fd' : ℕ) (u p q : List ℕ) (es : List Entry) (s : Server)
    → IsCredential u
    → IsCredential p
    → IsCredential q
    → s.disk.may_write users_path ≡ true
    → HoldsBook s.disk es
    → user_exists u s.disk ≡ false
    → ((s₁ : Server) × (on_register fd (credentials u p) s ≡ some s₁)
        × (on_register fd' (credentials u q) s₁ ≡ some (with_sent s₁ fd' refused)))
      × ((s₂ : Server) × (register_at_once fd fd' u p q s ≡ some s₂)
          × (s₂.sent ≡ s.sent ++ (fd, accepted) ∷ (fd', accepted) ∷ [])
          × ((r : List ℕ)
              → authenticate_user u r s₂.disk ≡ (
                  str_eq (simple_hash p) (simple_hash r)
                  || str_eq (simple_hash q) (simple_hash r))))
unfolding register_at_once
register_at_once-accepted fd fd' u p q es s hu hp hq w book free =
    let name = credential-IsName u hu in
    let first = with_sent (record s { disk = store_user u p s.disk }) fd accepted in
    let second = with_sent (record first { disk = store_user u q first.disk }) fd' accepted in
    let (known, _, _, _) = register-login u p es s.disk w name book free in
    (
      (
        first,
        on_register-after_user_exists fd u p s hu hp
            ∙ ap (λ b. after_user_exists fd u p b s) free
            ∙ after_user_exists-free fd u p s,
        on_register-after_user_exists fd' u q first hu hq
            ∙ ap (λ b. after_user_exists fd' u q b first) known
            ∙ after_user_exists-known fd' u q first,
      ),
      (
        second,
        rw (free, after_user_exists-free fd u p s) (after_user_exists-free fd' u q first),
        append_assoc s.sent ((fd, accepted) ∷ []) ((fd', accepted) ∷ []),
        λ r. authenticate-stored_twice u p q r es s.disk w name book free,
      ),
    )
