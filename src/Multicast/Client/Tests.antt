-- ===== src/Multicast/Client/Tests.antt =====
-- The client of 流媒体组播/client/client.c at small inputs.
use learningproject.Common.{
  ◌≤◌, length, ℕ, ◌≡◌, refl, true, false, List, [], ◌∷◌, some, replicate, length-replicate, map,
  arith,
}
use learningproject.Chat.Text.{utf8, before}
use learningproject.Multicast.Channels.{Channel, send_chn_list}
use learningproject.Multicast.Channels.RoundTrip.{encode}
use learningproject.Multicast.Player.{on_packet}
use learningproject.Multicast.Client.{
  recv_size, on_received, on_packet, at_start, digits, atoi, follow, packet, line, on_receive,
}
use learningproject.Multicast.Client.Watching.{arriving, watching, follow-choice}

abbrev news : Channel
news = record { chnid = 1; descrp = utf8 "news" }

abbrev songs : Channel
songs = record { chnid = 2; descrp = utf8 "songs" }

-- three packets of songs and news, and one of a channel that is not in the list
abbrev packets : List (List ℕ)
packets = (2 ∷ 7 ∷ 8 ∷ []) ∷ (1 ∷ 9 ∷ []) ∷ (5 ∷ 1 ∷ []) ∷ (2 ∷ 6 ∷ []) ∷ []

second : atoi (before 0 (before 10 (b'2' ∷ 10 ∷ []))) ≡ 2
unfolding atoi digits before
second = refl

short_list : length (0 ∷ encode (news ∷ songs ∷ [])) ≤ recv_size
unfolding encode
short_list = omega arith

follow-choice_example :
    (bytes : List ℕ) × (send_chn_list (λ n. replicate n 170) (news ∷ songs ∷ [])
      ≡ some (some bytes))
    × (follow (packet bytes [] false ∷ line (b'2' ∷ 10 ∷ []) ∷ map arriving packets) at_start
        ≡ some (true, watching 2 (7 ∷ 8 ∷ 6 ∷ []) (news ∷ songs ∷ [])))
follow-choice_example =
    follow-choice (λ n. replicate n 170) news (songs ∷ []) [] (b'2' ∷ 10 ∷ []) 1 songs packets
      (λ n. length-replicate {A = ℕ} n 170) (ground arith) (omega arith) short_list second refl
      (omega arith) (omega arith)

-- A player that has ended is started again, and the packet that found it so is lost.
restarted :
    follow
      (packet (2 ∷ 7 ∷ []) [] true ∷ packet (2 ∷ 8 ∷ []) [] false ∷ [])
      (watching 2 (1 ∷ []) (songs ∷ []))
    ≡ some (true, watching 2 (8 ∷ []) (songs ∷ []))
unfolding follow on_receive on_received on_packet
restarted = refl
