-- ===== src/Chat/Client/Deliveries.antt =====
-- Texts that the server passes on appear at the client: 局域网聊天/client.c, receive_messages, with
-- MSG_TYPE_CHAT_DELIVER and MSG_TYPE_GROUP_DELIVER of 局域网聊天/protocol.h.
use learningproject.Common.{
  ℕ, zero, suc, ◌<◌, ◌≡◌, ◌≢◌, refl, ap, Bool, true, false, List, [], ◌∷◌, ◌++◌, none, some,
  if◌then◌else◌, arith, length, map, length-append, Option-cases, inl, inr,
}
use learningproject.Chat.Text.{padded}
use learningproject.Chat.Text.Laws.{length-padded}
use learningproject.Chat.Wire.{recv_message, header_size}
use learningproject.Chat.Wire.Reading.{stream, IsLive, recv_full-short}
use learningproject.Chat.Wire.RoundTrip.{recv-frame, frame_lem, sent_header, recv_message-shortens}
use learningproject.Chat.Disk.{max_username_len}
use learningproject.Chat.Kind
use learningproject.Chat.Server.{chat_deliver, max_content_len}
use learningproject.Chat.Server.Replies.{packet, string_at-first, string_at-second}
use learningproject.Chat.Server.Messaging.{IsField}
use learningproject.Chat.Client.{
  Screen, private_text, group_text, on_receive, Reception, running, fault, over, following,
  receive_messages,
}

-- a text on its way to a client, from a friend or in a group
pub record Delivery : Type 0 where
  pub in_group : Bool
  pub from : List ℕ
  pub content : List ℕ

abbrev pub AllTexts : List Delivery → Type 0
AllTexts [] = Unit
AllTexts (d ∷ ds) =
    IsField max_username_len d.from × IsField max_content_len d.content × AllTexts ds

abbrev pub kind_of : Bool → ℕ
kind_of true = Kind.group_deliver
kind_of false = Kind.chat_deliver

abbrev pub body_of : Delivery → List ℕ
body_of d = chat_deliver d.from d.content

-- the bytes that the server writes
abbrev pub written : List Delivery → List ℕ
written [] = []
written (d ∷ ds) = packet (kind_of d.in_group) (body_of d) ++ written ds

-- what it should look like
abbrev pub screen_of : Delivery → Screen
screen_of d = if d.in_group then group_text d.from d.content else private_text d.from d.content

length-body_of : (d : Delivery) → length (body_of d) ≡ 1088
length-body_of d = omega (
  arith,
  length-append (padded d.from max_username_len) (padded d.content max_content_len),
  length-padded d.from max_username_len,
  length-padded d.content max_content_len,
)

pub on_receive-deliver :
    (in_group : Bool) (from content : List ℕ)
    → IsField max_username_len from
    → IsField max_content_len content
    → on_receive (record {
      header = sent_header (kind_of in_group) (length (chat_deliver from content));
      body = chat_deliver from content;
    })
      ≡ some (screen_of (record { in_group = in_group; from = from; content = content }) ∷ [], [])
unfolding on_receive
on_receive-deliver true from content f c = ground (
  arith,
  string_at-first from (padded content max_content_len) f.0 f.1,
  string_at-second from content max_content_len c.0 c.1,
)
on_receive-deliver false from content f c = ground (
  arith,
  string_at-first from (padded content max_content_len) f.0 f.1,
  string_at-second from content max_content_len c.0 c.1,
)

pub recv_message-end : (socket : List (List ℕ)) → stream socket ≡ [] → recv_message socket ≡ none
unfolding recv_message
recv_message-end socket e =
    ground (arith, recv_full-short header_size socket (omega (arith, ap length e)))

-- The client comes to the end of what it is sent, or to a fault, within one round more than there are
-- bytes.
pub receive_messages-ends :
    (fuel : ℕ) (socket : List (List ℕ))
    → length (stream socket) < fuel
    → receive_messages fuel socket ≢ running
unfolding receive_messages
receive_messages-ends zero socket h = elim h [ ]
receive_messages-ends (suc fuel) socket h = elim (Option-cases (recv_message socket)) [
  | inl end ↦ rw (end, receive_messages) (λ e. cc)
  | inr ((msg, left), got) ↦ elim (Option-cases (on_receive msg)) [
    | inl failed ↦ rw (got, failed, receive_messages) (λ e. cc)
    | inr ((screens, requests), done) ↦
        rw (got, done, receive_messages)
          (goes_on screens requests (receive_messages fuel left) (
            receive_messages-ends fuel left
              (omega (arith, recv_message-shortens socket left msg got))))
  ]
]
  where
    goes_on :
        (screens : List Screen) (requests : List ℕ) (r : Reception)
        → r ≢ running
        → following screens requests r ≢ running
    goes_on screens requests running ne = ne
    goes_on screens requests fault ne = λ e. cc
    goes_on screens requests (over more later) ne = λ e. cc

-- The server writes texts from friends and in groups to a client, whose senders, groups and contents fit
-- their fields. However the network cuts the bytes into pieces, the client prints each of them, in their
-- order, as a text of its kind with its sender or group and its content, asks for nothing, and ends
-- when the connection does.
pub receive_messages-written :
    (fuel : ℕ) (ds : List Delivery) (socket : List (List ℕ))
    → AllTexts ds
    → IsLive socket
    → stream socket ≡ written ds
    → length ds < fuel
    → receive_messages fuel socket ≡ over (map screen_of ds) []
unfolding receive_messages
receive_messages-written zero ds socket all live e h = elim h [ ]
receive_messages-written (suc fuel) [] socket all live e h =
    rw (recv_message-end socket e, receive_messages) refl
receive_messages-written (suc fuel) (d ∷ ds) socket all live e h =
    let kind = kind_of d.in_group in
    let size = length-body_of d in
    let (left, got, live', rest) =
      recv-frame kind (body_of d) (written ds) (packet kind (body_of d)) socket (small d.in_group)
        (omega (arith, size)) (frame_lem kind (body_of d) (omega (arith, size))) live e in
    let shown = on_receive-deliver d.in_group d.from d.content all.0 all.1 in
    let later = receive_messages-written fuel ds left all.2 live' rest (omega arith) in
    rw (got, shown, later, receive_messages) refl
  where
    small : (in_group : Bool) → kind_of in_group < 256
    small true = omega arith
    small false = omega arith
