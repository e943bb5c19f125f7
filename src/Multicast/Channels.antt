-- ===== src/Multicast/Channels.antt =====
-- The list of channels on the wire: send_chn_list of 流媒体组播/server/server.c writes it, and the main
-- loop of 流媒体组播/client/client.c reads it. The layout is that of 流媒体组播/proto/proto.h.
-- Bytes are numbers below 256; `none` is a read or write outside a block of memory.
pub mod RoundTrip
mod Tests
use Prim.Native.Nat.{min}
use learningproject.Common.{
  ℕ, zero, suc, ◌+◌, ◌-◌, ◌%◌, List, [], ◌∷◌, ◌++◌, Option, none, some, ◌>>=◌, if◌then◌else◌, ltb,
  leb, length, take, drop,
}
use learningproject.Chat.Text.{c_string}

-- `struct mlib_st`, the channel's number as the byte of an int8_t
pub record Channel : Type 0 where
  pub chnid : ℕ
  pub descrp : List ℕ

-- `len` of the loops
abbrev pub sent_len : Channel → ℕ
sent_len c = min 255 (length c.descrp)

-- the first loop, with the byte of the packet's own `chnid`
unfoldable pub entries_size : List Channel → ℕ
entries_size [] = 0
entries_size (c ∷ cs) = 2 + (sent_len c + 1) + entries_size cs

-- `p += sizeof(int8_t) + sizeof(int8_t) + entry->len`, where `len` is an int8_t of this byte; `none` is a
-- position in front of the block.
unfoldable pub advance : ℕ → ℕ → Option ℕ
advance pos len =
    if ltb len 128
    then some (pos + 2 + len)
    else if ltb (pos + 2 + len) 256
    then none
    else some (pos + 2 + len - 256)

-- some bytes into a block
unfoldable pub write_at : ℕ → List ℕ → List ℕ → Option (List ℕ)
write_at pos bytes block =
    if ltb (length block) (pos + length bytes)
    then none
    else some (take pos block ++ (bytes ++ drop (pos + length bytes) block))

-- the bytes of an entry
abbrev pub entry_bytes : Channel → List ℕ
entry_bytes c = c.chnid ∷ ((sent_len c + 1) % 256) ∷ (take (sent_len c) c.descrp ++ 0 ∷ [])

-- the second loop
unfoldable pub write_entries : Option ℕ → List Channel → List ℕ → Option (List ℕ)
write_entries p [] block = some block
write_entries none (c ∷ cs) block = none
write_entries (some pos) (c ∷ cs) block = write_at pos (entry_bytes c) block >>= λ block'.
    write_entries (advance pos ((sent_len c + 1) % 256)) cs block'

-- `memory` is what the block from malloc holds. With no channel nothing is sent.
unfoldable pub send_chn_list : (ℕ → List ℕ) → List Channel → Option (Option (List ℕ))
send_chn_list memory [] = some none
send_chn_list memory (c ∷ cs) = do
  start ← write_at 0 (0 ∷ []) (memory (1 + entries_size (c ∷ cs)))
  packet ← write_entries (some 1) (c ∷ cs) start
  some (some packet)

-- MAX_CHN of client.c
abbrev pub max_chn : ℕ
max_chn = 200

-- The entry at the start of some bytes: its channel, as it is kept, and `len`.
unfoldable pub entry_at : List ℕ → Option (Channel × ℕ)
entry_at (chnid ∷ len ∷ rest) = do
  descr ← c_string rest
  some (record { chnid = chnid; descrp = take 255 descr }, len)
entry_at other = none

-- The loop from position `p` of `buf`, of which the last packet fills `len` bytes, with `room` channels
-- left.
unfoldable pub read_list : ℕ → Option ℕ → ℕ → List ℕ → Option (List Channel)
read_list zero p len buf = some []
read_list (suc room) none len buf = none
read_list (suc room) (some pos) len buf = if leb len pos then some [] else (do
  (c, entry_len) ← entry_at (drop pos buf)
  rest ← read_list room (advance pos entry_len) len buf
  some (c ∷ rest))

-- a packet whose first byte is CHN_LIST_ID
abbrev pub read_chn_list : ℕ → List ℕ → Option (List Channel)
read_chn_list len buf = read_list max_chn (some 1) len buf
