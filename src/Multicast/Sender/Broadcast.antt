-- ===== src/Multicast/Sender/Broadcast.antt =====
-- From the files of a channel to a player: chn_sender of 流媒体组播/server/server.c with
-- 流媒体组播/client/client.c.
use learningproject.Common.{
  ℕ, ◌+◌, ◌-◌, ◌*◌, ◌^◌, ◌≤◌, ◌<◌, ◌≡◌, ◌≢◌, refl, true, List, ◌∷◌, ◌++◌, Option, arith, length,
  pos,
}
use learningproject.Multicast.Tbf.{Buckets}
use learningproject.Multicast.Tbf.Fetch.{Holds, bucket}
use learningproject.Multicast.Mlib.{ChnContext, got, mlib_read_chn_data}
use learningproject.Multicast.Mlib.Playing.{IsReader}
use learningproject.Multicast.Mlib.Ending.{IsPlayable, mlib_read_chn_data-Plays}
use learningproject.Multicast.Sender.{chn_sender, sent, msg_size, Turn}
use learningproject.Multicast.Sender.Waiting.{IsSchedule, collect_lem}
use learningproject.Multicast.Player.{Player, on_packet, chn_list_id, no_channel}

on_packet-tuned :
    (k : ℕ) (bytes : List ℕ) (p : Player)
    → k ≢ chn_list_id
    → k ≢ no_channel
    → 0 < length bytes
    → p.piped ≡ true
    → p.current_chnid ≡ k
    → on_packet (k ∷ bytes) p ≡ record p { heard = p.heard ++ bytes }
unfolding on_packet
on_packet-tuned k bytes p list none_such some_byte piped tuned = ground arith

on_packet-other :
    (k : ℕ) (bytes : List ℕ) (p : Player) → p.current_chnid ≢ k → on_packet (k ∷ bytes) p ≡ p
unfolding on_packet
on_packet-other k bytes p other = ground arith

-- Of a channel, the files can all be opened, one of them is not empty, and the bucket, that no one
-- else uses, has a positive rate and burst. The senders of other channels call tbf_fetch_token on their buckets
-- in between, but each time the sender asks for tokens it is the first of all to ask in that second, and it
-- asks MSG_SIZE times if need be; and no refill overflows an `int` by then. Then a pass of chn_sender sends a
-- packet with at least one and at most MSG_SIZE bytes, which are those that mlib_read_chn_data returned. A
-- client that plays this channel passes exactly these bytes on to its player, and a client with another
-- channel does nothing.
pub chn_sender-on_packet :
    (open_file : List ℕ → Option (List ℕ)) (read_some : List ℕ → ℕ → Option (List ℕ))
    (reader : IsReader read_some) (fuel chnid n i : ℕ) (paths : List (List ℕ))
    (fd : Option (List ℕ)) (j c t b h : ℕ) (turns : List Turn) (s : Buckets) (p q : Player)
    → IsPlayable open_file read_some reader paths n
    → i < length paths
    → length paths < fuel
    → IsSchedule j s.last_update h turns
    → msg_size ≤ length turns
    → 0 < c
    → 0 < b
    → t ≤ b
    → b + (h - s.last_update) * c < 2 ^ 31
    → Holds j (bucket c t b) s
    → chnid ≢ chn_list_id
    → chnid ≢ no_channel
    → p.piped ≡ true
    → p.current_chnid ≡ chnid
    → q.current_chnid ≢ chnid
    → let context : ChnContext = record { mp3_path = paths; cur_ind = i; fd = fd } in
      (bytes : List ℕ) × (context' : ChnContext) × (s' : Buckets) × (mlib_read_chn_data open_file
          read_some fuel msg_size context
        ≡ got bytes context')
      × (chn_sender open_file read_some fuel chnid (pos j) turns context s
          ≡ sent (chnid ∷ bytes) context' s')
      × (0 < length bytes)
      × (length bytes ≤ msg_size)
      × (on_packet (chnid ∷ bytes) p ≡ record p { heard = p.heard ++ bytes })
      × (on_packet (chnid ∷ bytes) q ≡ q)
unfolding chn_sender
chn_sender-on_packet open_file read_some reader fuel chnid n i paths fd j c t b h turns s p q
      playable lt enough schedule long cp bp le fits held list none_such piped tuned other =
    let context : ChnContext = record { mp3_path = paths; cur_ind = i; fd = fd } in
    let (bytes, context', read, some_byte, few) =
      mlib_read_chn_data-Plays open_file read_some reader fuel msg_size n i paths fd (omega arith)
        playable lt enough in
    let (s', collected) =
      collect_lem j c t b h (length bytes) 0 turns s schedule cp bp le fits held (omega arith)
        (omega (arith, few, long)) in
    (
      bytes,
      context',
      s',
      read,
      rw (read, collected, chn_sender) refl,
      some_byte,
      few,
      on_packet-tuned chnid bytes p list none_such some_byte piped tuned,
      on_packet-other chnid bytes q other,
    )
