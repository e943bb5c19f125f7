-- ===== src/Chat/Server/Session.antt =====
-- One connection: the loop of handle_client in 局域网聊天/server.c. Between two requests of a
-- connection those of others run; `s` is the server's state as this connection sees it without them.
use learningproject.Common.{
  ℕ, zero, suc, ◌<◌, ◌≢◌, false, List, Option, none, some, ◌>>=◌, if◌then◌else◌, ◌==◌, length,
  arith, Option-cases, inl, inr,
}
use learningproject.Chat.Wire.Reading.{stream}
use learningproject.Chat.Wire.RoundTrip.{recv_message-shortens}
use learningproject.Chat.Wire.{Message, recv_message}
use learningproject.Chat.Online.{remove_online}
use learningproject.Chat.Kind
use learningproject.Chat.Server.{Server, notify_friend_status}
use learningproject.Chat.Server.Requests.{
  on_register, on_login, on_add_friend, on_remove_friend, on_friend_list, on_chat_send,
}
use learningproject.Chat.Server.GroupRequests.{
  on_group_create, on_group_join, on_leave_group, on_group_list, on_group_send,
}

-- a request that leaves the connection's name
abbrev keep : List ℕ → Option Server → Option (List ℕ × Server)
keep username r = r >>= λ s. some (username, s)

-- the switch
unfoldable pub on_message : ℕ → List ℕ → Message → Server → Option (List ℕ × Server)
on_message fd username msg s =
    let kind = msg.header.kind in
    let body = msg.body in
    if kind == Kind.register
    then keep username (on_register fd body s)
    else if kind == Kind.login
    then on_login fd username body s
    else if kind == Kind.add_friend
    then keep username (on_add_friend fd username body s)
    else if kind == Kind.remove_friend
    then keep username (on_remove_friend fd username body s)
    else if kind == Kind.friend_list_req
    then keep username (on_friend_list fd username s)
    else if kind == Kind.chat_send
    then keep username (on_chat_send fd username body s)
    else if kind == Kind.group_create
    then keep username (on_group_create fd username body s)
    else if kind == Kind.group_join
    then keep username (on_group_join fd username body s)
    else if kind == Kind.leave_group
    then keep username (on_leave_group fd username body s)
    else if kind == Kind.group_list_req
    then keep username (on_group_list fd username s)
    else if kind == Kind.group_send
    then keep username (on_group_send fd username body s)
    else some (username, s)

-- How a connection ends: by a fault, or with this state; `running` says that the fuel ran out.
pub data Outcome : Type 0 where
  running fault : Outcome
  closed : Server → Outcome

-- what follows the loop
unfoldable pub on_close : ℕ → List ℕ → Server → Outcome
on_close fd username s =
    if length username == 0 then closed s else elim (notify_friend_status username false s) [
      | none ↦ fault
      | some s' ↦ closed (record s' { online = remove_online fd s'.online })
    ]

unfoldable pub handle_client : ℕ → ℕ → List ℕ → List (List ℕ) → Server → Outcome
handle_client zero fd username socket s = running
handle_client (suc fuel) fd username socket s = elim (recv_message socket) [
  | none ↦ on_close fd username s
  | some (msg, left) ↦ elim (on_message fd username msg s) [
    | none ↦ fault
    | some (username', s') ↦ handle_client fuel fd username' left s'
  ]
]

on_close-ends : (fd : ℕ) (u : List ℕ) (s : Server) → on_close fd u s ≢ running
unfolding on_close
on_close-ends fd u s = ground arith

-- A connection comes to its end, by a fault or by closing, within one round more than the client sends
-- bytes.
pub handle_client-ends :
    (fuel fd : ℕ) (username : List ℕ) (socket : List (List ℕ)) (s : Server)
    → length (stream socket) < fuel
    → handle_client fuel fd username socket s ≢ running
unfolding handle_client
handle_client-ends zero fd u socket s h = elim h [ ]
handle_client-ends (suc fuel) fd u socket s h = elim (Option-cases (recv_message socket)) [
  | inl over ↦ rw (over, handle_client) (on_close-ends fd u s)
  | inr ((msg, left), got) ↦ elim (Option-cases (on_message fd u msg s)) [
    | inl failed ↦ rw (got, failed, handle_client) (λ e. cc)
    | inr ((u', s'), done) ↦
        rw (got, done, handle_client)
          (handle_client-ends fuel fd u' left s'
            (omega (arith, recv_message-shortens socket left msg got)))
  ]
]
