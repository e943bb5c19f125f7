-- ===== src/Multicast/Sender.antt =====
-- A pass of chn_sender in 流媒体组播/server/server.c: it reads a channel's data, asks the channel's bucket for
-- tokens until it has as many as it wants to send bytes, and sends a packet. All channels' senders use the same
-- buckets and their one clock.
pub mod Waiting
pub mod Broadcast
mod Tests
use learningproject.Common.{
  ℕ, ◌+◌, ◌-◌, List, [], ◌∷◌, Option, none, some, ℤ, pos, negsuc, if◌then◌else◌, ltb, pos_part,
  length,
}
use learningproject.Multicast.Tbf.{Buckets, tbf_fetch_token}
use learningproject.Multicast.Tbf.Rate.{Request, run}
use learningproject.Multicast.Mlib.{
  ChnContext, Reading, got, failed, fault, running, mlib_read_chn_data,
}

-- A call of tbf_fetch_token by the loop at a time, after those calls that other threads have made since the
-- loop's call before.
pub record Turn : Type 0 where
  pub others : List Request
  pub now : ℕ

-- The loop, with a turn for each call; `none` if it still runs after the last of them. Only a positive
-- `ret` is added.
unfoldable pub collect : List Turn → ℤ → ℕ → ℕ → Buckets → Option (ℕ × Buckets)
collect [] tbf len fetched s = if ltb fetched len then none else some (fetched, s)
collect (turn ∷ turns) tbf len fetched s =
    let (ret, s') = tbf_fetch_token turn.now tbf (pos (len - fetched)) (run turn.others s) in
    let rest = collect turns tbf len (fetched + pos_part ret) s' in
    if ltb fetched len then rest else some (fetched, s)

-- How a pass ends: with a packet for the group, with a pause, by a fault in the library, or not within
-- the fuel and the turns.
pub data Pass : Type 0 where
  sent : (packet : List ℕ) → ChnContext → Buckets → Pass
  paused : ChnContext → Buckets → Pass
  broken waiting : Pass

abbrev pub msg_size : ℕ
msg_size = 8192

-- `chnid` is the byte of an int8_t.
unfoldable pub chn_sender :
    (open_file : List ℕ → Option (List ℕ)) (read_some : List ℕ → ℕ → Option (List ℕ))
    → (fuel chnid : ℕ) → (tbf : ℤ) → (turns : List Turn) → ChnContext
    → Buckets
    → Pass
chn_sender open_file read_some fuel chnid tbf turns c s =
    elim (mlib_read_chn_data open_file read_some fuel msg_size c) [
      | got bytes c' ↦ elim (collect turns tbf (length bytes) 0 s) [
        | none ↦ waiting
        | some (fetched, s') ↦ sent (chnid ∷ bytes) c' s'
      ]
      | failed c' ↦ paused c' s
      | fault ↦ broken
      | running ↦ waiting
    ]
