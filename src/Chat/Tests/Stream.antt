-- ===== src/Chat/Tests/Stream.antt =====
-- Messages in sockets that cut the bytes: 局域网聊天/server_tool.c, recv_full and recv_message.
use learningproject.Common.{
  ℕ, ◌+◌, ◌≡◌, refl, List, [], ◌∷◌, ◌++◌, some, none, arith, length, replicate, length-replicate,
}
use learningproject.Chat.Wire.{frame, read_header, accepts, header_bytes, recv_full, recv_message}
use learningproject.Chat.Wire.Reading.{stream, IsLive}
use learningproject.Chat.Wire.RoundTrip.{sent_header, recv-frame, recv-frame_long, frame_lem}
use learningproject.Chat.Text.Decimal.{decimal-injective}

abbrev body : List ℕ
body = b'h' ∷ b'i' ∷ []

-- a message of type 8 with the body "hi", and the first byte of the next one, in three pieces
abbrev socket : List (List ℕ)
socket = (0xFE ∷ []) ∷ (0xCA ∷ 1 ∷ 8 ∷ 8 ∷ 0 ∷ b'h' ∷ []) ∷ (b'i' ∷ 0xFE ∷ []) ∷ []

socket-IsLive : IsLive socket
socket-IsLive = ground arith

recv_message-runs :
    recv_message socket ≡ some (record { header = sent_header 8 2; body = body }, (0xFE ∷ []) ∷ [])
unfolding recv_message recv_full read_header accepts
recv_message-runs = refl

frame_lem_example : frame 8 body ≡ some (header_bytes (sent_header 8 2) ++ body)
frame_lem_example = frame_lem 8 body (omega arith)

recv-frame_example :
    (left : List (List ℕ)) × (recv_message socket
      ≡ some (record { header = sent_header 8 2; body = body }, left))
    × IsLive left
    × (stream left ≡ 0xFE ∷ [])
recv-frame_example =
    recv-frame 8 body (0xFE ∷ []) (header_bytes (sent_header 8 2) ++ body) socket (omega arith)
      (omega arith) frame_lem_example socket-IsLive refl

abbrev long : List ℕ
long = replicate 4091 0

abbrev long_bytes : List ℕ
long_bytes = header_bytes (sent_header 11 (length long)) ++ long

long-frame : frame 11 long ≡ some long_bytes
long-frame = frame_lem 11 long (omega (arith, length-replicate {A = ℕ} 4091 0))

recv-frame_long_example : recv_message (long_bytes ∷ []) ≡ none
recv-frame_long_example =
    recv-frame_long 11 long [] long_bytes (long_bytes ∷ []) (omega arith)
      (omega (arith, length-replicate {A = ℕ} 4091 0))
      (omega (arith, length-replicate {A = ℕ} 4091 0)) long-frame (omega arith, tt) refl

decimal-injective_example : 40 + 2 ≡ 42
decimal-injective_example = decimal-injective 20 (40 + 2) 42 (omega arith) (omega arith) refl
