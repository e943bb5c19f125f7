-- ===== src/Chat/Server/Replies.antt =====
-- Messages of a fixed size: how they are laid out and that sending them does not fault.
-- 局域网聊天/protocol.h, struct msg_register, msg_add_friend, msg_chat_send and generic_resp.
use learningproject.Common.{
  ℕ, ◌+◌, ◌^◌, ◌<◌, ◌≡◌, sym, ap, ◌∙◌, List, [], ◌∷◌, ◌++◌, some, arith, length, length-append,
  drop, drop-append,
}
use mathlib.Core.List.{append-nil}
use learningproject.Chat.Text.{padded, string_at, c_string}
use learningproject.Chat.Text.Laws.{Without, c_string-padded, length-padded}
use learningproject.Chat.Wire.{header_bytes, header_size}
use learningproject.Chat.Wire.RoundTrip.{sent_header, frame_lem}
use learningproject.Chat.Disk.{max_username_len}
use learningproject.Chat.Server.{
  Server, send_message, generic_resp, chat_deliver, max_content_len, max_error_msg_len,
}

-- the bytes of a message
abbrev pub packet : ℕ → List ℕ → List ℕ
packet kind body = header_bytes (sent_header kind (length body)) ++ body

-- the state after one more message
abbrev pub with_sent : Server → ℕ → List ℕ → Server
with_sent s fd bytes = record s { sent = s.sent ++ (fd, bytes) ∷ [] }

pub send_message-packet :
    (fd kind : ℕ) (body : List ℕ) (s : Server)
    → header_size + length body < 2 ^ 16
    → send_message fd kind body s ≡ some (with_sent s fd (packet kind body))
unfolding send_message
send_message-packet fd kind body s h = ground (arith, frame_lem kind body h)

pub send_message-resp :
    (fd kind status : ℕ) (errmsg : List ℕ) (s : Server)
    → send_message fd kind (generic_resp status errmsg) s
      ≡ some (with_sent s fd (packet kind (generic_resp status errmsg)))
send_message-resp fd kind status errmsg s =
    send_message-packet fd kind (generic_resp status errmsg) s
      (omega (arith, length-padded errmsg max_error_msg_len))

pub send_message-deliver :
    (fd kind : ℕ) (from content : List ℕ) (s : Server)
    → send_message fd kind (chat_deliver from content) s
      ≡ some (with_sent s fd (packet kind (chat_deliver from content)))
send_message-deliver fd kind from content s =
    send_message-packet fd kind (chat_deliver from content) s (
      omega (
        arith,
        length-append (padded from max_username_len) (padded content max_content_len),
        length-padded from max_username_len,
        length-padded content max_content_len,
      ))

-- A string that was put into a field of 64 bytes at the start of a body is read from there.
pub string_at-first :
    (u rest : List ℕ)
    → Without 0 u
    → length u < max_username_len
    → string_at 0 (padded u max_username_len ++ rest) ≡ some u
string_at-first u rest w h = c_string-padded u rest max_username_len w h

pub drop-field : (u rest : List ℕ) → drop 64 (padded u max_username_len ++ rest) ≡ rest
drop-field u rest =
    ap (λ k. drop k (padded u max_username_len ++ rest))
      (sym (length-padded u max_username_len (omega arith)))
    ∙ drop-append (padded u max_username_len) rest

-- And so is the string of a second field.
pub string_at-second :
    (u p : List ℕ) (size : ℕ)
    → Without 0 p
    → length p < size
    → string_at 64 (padded u max_username_len ++ padded p size) ≡ some p
string_at-second u p size w h =
    ap c_string (drop-field u (padded p size))
    ∙ ap c_string (sym (append-nil (padded p size)))
    ∙ c_string-padded p [] size w h
