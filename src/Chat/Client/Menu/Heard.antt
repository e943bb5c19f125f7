-- ===== src/Chat/Client/Menu/Heard.antt =====
-- The server hears what the client sends: main and send_message of 局域网聊天/client.c, with recv_message of
-- 局域网聊天/protocol.h.
use learningproject.Common.{
  ◌*◌, ℕ, zero, suc, ◌+◌, ◌<◌, ◌≡◌, refl, List, [], ◌∷◌, ◌++◌, none, some, arith, length, map,
}
use learningproject.Chat.Wire.{Message, recv_message}
use learningproject.Chat.Wire.Reading.{stream, IsLive}
use learningproject.Chat.Wire.RoundTrip.{recv-frame, frame_lem}
use learningproject.Chat.Server.Replies.{packet}
use learningproject.Chat.Client.Deliveries.{recv_message-end}
use learningproject.Chat.Client.Befriending.{message}
use learningproject.Chat.Client.Menu.{Client, Request, over, main}
use learningproject.Chat.Client.Menu.Rounds.{AllSmall}
use learningproject.Chat.Client.Menu.Ending.{to_leave, main-IsSettled}

-- the bytes of the messages
abbrev pub written : List Request → List ℕ
written [] = []
written ((kind, body) ∷ rs) = packet kind body ++ written rs

abbrev pub heard : Request → Message
heard (kind, body) = message kind body

-- the messages that recv_message reads one after the other, up to `limit` of them
unfoldable pub receive_all : ℕ → List (List ℕ) → List Message
receive_all zero socket = []
receive_all (suc limit) socket = elim (recv_message socket) [
  | none ↦ []
  | some (msg, left) ↦ msg ∷ receive_all limit left
]

receive_all-written :
    (limit : ℕ) (rs : List Request) (socket : List (List ℕ))
    → AllSmall rs
    → IsLive socket
    → stream socket ≡ written rs
    → length rs < limit
    → receive_all limit socket ≡ map heard rs
unfolding receive_all
receive_all-written zero rs socket small live e h = elim h [ ]
receive_all-written (suc limit) [] socket small live e h =
    rw (recv_message-end socket e, receive_all) refl
receive_all-written (suc limit) ((kind, body) ∷ rs) socket small live e h =
    let (left, got, live', rest) =
      recv-frame kind body (written rs) (packet kind body) socket small.0.0 small.0.1
        (frame_lem kind body (omega (arith, small.0.1))) live e in
    let later = receive_all-written limit rs left small.1 live' rest (omega arith) in
    rw (got, later, receive_all) refl

module _ (stack : ℕ → List ℕ) (whole : (n : ℕ) → length (stack n) ≡ n) where
  -- The user types any bytes, and the program ends. However the network cuts what it has sent into pieces,
  -- recv_message of the server returns each message with its type and its whole body, in their order, and
  -- no other.
  pub main-receive_all :
      (fuel limit : ℕ) (c : Client) (stdin : List ℕ) (sent : List Request) (socket : List (List ℕ))
      → 2 * length stdin + to_leave c.mode < fuel
      → main stack fuel c stdin ≡ over sent
      → IsLive socket
      → stream socket ≡ written sent
      → length sent < limit
      → receive_all limit socket ≡ map heard sent
  main-receive_all fuel limit c stdin sent socket h ended live e lt =
      let settled = main-IsSettled stack whole fuel c stdin h in
      let small : AllSmall sent = rw ended at settled in
      receive_all-written limit sent socket small live e lt
