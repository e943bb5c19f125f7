-- ===== src/Multicast/Channels/Tests.antt =====
-- Runs of the channel list of 流媒体组播/server/server.c and client/client.c.
use learningproject.Common.{
  ℕ, ◌≡◌, refl, List, [], ◌∷◌, some, none, arith, length, replicate, length-replicate,
}
use learningproject.Multicast.Channels.{
  Channel, send_chn_list, entries_size, advance, write_at, write_entries,
}
use learningproject.Multicast.Channels.RoundTrip.{AllChannels, send_chn_list-long}

abbrev music : Channel
music = record { chnid = 1; descrp = b'p' ∷ b'o' ∷ b'p' ∷ 10 ∷ [] }

abbrev radio : Channel
radio = record { chnid = 2; descrp = b'f' ∷ b'm' ∷ [] }

abbrev memory : ℕ → List ℕ
memory n = replicate n 0xAA

sized : (n : ℕ) → length (memory n) ≡ n
sized n = length-replicate {A = ℕ} n 0xAA

both : AllChannels (music ∷ radio ∷ [])
both = ground arith

send_chn_list-runs :
    send_chn_list memory (music ∷ radio ∷ [])
    ≡ some (some (0 ∷ 1 ∷ 5 ∷ b'p' ∷ b'o' ∷ b'p' ∷ 10 ∷ 0 ∷ 2 ∷ 3 ∷ b'f' ∷ b'm' ∷ 0 ∷ []))
unfolding send_chn_list entries_size advance write_at write_entries
send_chn_list-runs = refl

abbrev wordy : Channel
wordy = record { chnid = 1; descrp = replicate 127 b'x' }

send_chn_list-long_example : send_chn_list memory (wordy ∷ radio ∷ []) ≡ none
send_chn_list-long_example =
    send_chn_list-long memory wordy radio [] sized
      (omega (arith, length-replicate {A = ℕ} 127 b'x'))
      (omega (arith, length-replicate {A = ℕ} 127 b'x'))
