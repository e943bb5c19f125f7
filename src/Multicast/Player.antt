-- ===== src/Multicast/Player.antt =====
-- The client of the streaming server while it plays a channel: the packets in the loop of main in
-- 流媒体组播/client/client.c. The player takes all that is written to its pipe.
use learningproject.Common.{
  ℕ, Bool, ◌&&◌, not, List, [], ◌∷◌, ◌++◌, if◌then◌else◌, ◌==◌, length, leb,
}

-- `CHN_LIST_ID`, and -1 in a byte
abbrev pub chn_list_id : ℕ
chn_list_id = 0

abbrev pub no_channel : ℕ
no_channel = 255

-- `piped` says that `pipe_fd[1]` is open, and `heard` is what was written to it.
pub record Player : Type 0 where
  pub current_chnid : ℕ
  pub piped : Bool
  pub heard : List ℕ

-- What a packet does to the player. The list of channels has no part in it.
unfoldable pub on_packet : List ℕ → Player → Player
on_packet [] p = p
on_packet (chnid ∷ content) p =
    if leb (length (chnid ∷ content)) 1
    then p
    else if chnid == chn_list_id
    then p
    else if not (p.current_chnid == no_channel) && chnid == p.current_chnid && p.piped
    then record p { heard = p.heard ++ content }
    else p
