-- ===== src/Multicast/Client.antt =====
-- The loop of main in 流媒体组播/client/client.c: packets of the group, and lines from the keyboard. What
-- select reports is a list of events. A player is a child process behind a pipe; pipe and fork are taken
-- to succeed, and what is printed is left out. `none` is a read outside the buffer.
pub mod Watching
mod Tests
use learningproject.Common.{
  take, ℕ, zero, suc, ◌+◌, ◌-◌, ◌*◌, Bool, true, false, not, ◌&&◌, ◌||◌, List, [], ◌∷◌, ◌++◌,
  Option, none, some, ◌>>=◌, if◌then◌else◌, ◌==◌, ltb, leb, length, get_elem?,
}
use learningproject.Chat.Text.{utf8, before, str_eq}
use learningproject.Multicast.Channels.{Channel, read_chn_list}
use learningproject.Multicast.Player.{Player, no_channel, chn_list_id, on_packet}

-- `valid_chns` and `chn_descrs`, with `chn_count` channels
pub record Client : Type 0 where
  pub player : Player
  pub valid_chns : List Channel
  pub list_received : Bool

-- the statics when the program starts
abbrev pub at_start : Client
at_start = record {
  player = record { current_chnid = no_channel; piped = false; heard = [] };
  valid_chns = [];
  list_received = false;
}

-- The one that plays is stopped, and its pipe closed.
abbrev pub stop_player : Player → Player
stop_player p = record p { piped = false; heard = [] }

-- A new player has heard nothing.
abbrev pub start_player : ℕ → Player → Player
start_player chnid p = record (stop_player p) { current_chnid = chnid; piped = true }

-- a digit's place in "0123456789"
abbrev pub is_digit : ℕ → Bool
is_digit c = leb b'0' c && leb c b'9'

abbrev pub is_space : ℕ → Bool
is_space c = c == 32 || (leb 9 c && leb c 13)

unfoldable pub digits : ℕ → List ℕ → ℕ
digits value [] = value
digits value (c ∷ cs) =
    let rest = digits (10 * value + (c - b'0')) cs in if is_digit c then rest else value

-- `atoi`, with 0 for a negative number: either is no choice. A number that no `int` holds is none too.
unfoldable pub atoi : List ℕ → ℕ
atoi [] = 0
atoi (c ∷ cs) =
    let rest = atoi cs in
    if is_space c then rest else if c == b'+' then digits 0 cs else digits 0 (c ∷ cs)

-- the size of `buf`
abbrev pub recv_size : ℕ
recv_size = 8202

-- What is done with the packet, that stands at the start of `buf`, with `stale` behind it; `epipe` says that
-- the player has ended.
unfoldable pub on_received : (packet stale : List ℕ) (epipe : Bool) → Client → Option Client
on_received [] stale epipe c = some c
on_received (chnid ∷ content) stale epipe c =
    let packet = chnid ∷ content in
    let p = c.player in
    let tuned = not (p.current_chnid == no_channel) && chnid == p.current_chnid && p.piped in
    if leb (length packet) 1
    then some c
    else if chnid == chn_list_id
    then (if c.list_received then some c else (do
      channels ← read_chn_list (length packet) (packet ++ stale)
      some (record c { valid_chns = channels; list_received = true })))
    else some (record c {
      player = if tuned && epipe then start_player p.current_chnid p else on_packet packet p;
    })

-- recvfrom puts no more of a packet into `buf` than it holds.
unfoldable pub on_receive : (packet stale : List ℕ) (epipe : Bool) → Client → Option Client
on_receive packet stale epipe c =
    on_received (take recv_size packet) (take (recv_size - length packet) stale) epipe c

-- a choice between 1 and `chn_count`
unfoldable pub choose : ℕ → Client → Client
choose choice c = if choice == 0 then c else elim (get_elem? c.valid_chns (choice - 1)) [
  | none ↦ c
  | some channel ↦
      if channel.chnid == c.player.current_chnid
      then c
      else record c { player = start_player channel.chnid c.player }
]

-- The line that fgets returns; `none` ends the loop.
unfoldable pub on_line : List ℕ → Client → Option Client
on_line line c =
    let input = before 0 (before 10 line) in
    if str_eq input (utf8 "q") || str_eq input (utf8 "quit")
    then none
    else some (choose (atoi input) c)

pub data Event : Type 0 where
  packet : (bytes stale : List ℕ) (epipe : Bool) → Event
  line : List ℕ → Event

-- The loop over the events; the Boolean says that it goes on.
unfoldable pub follow : List Event → Client → Option (Bool × Client)
follow [] c = some (true, c)
follow (packet bytes stale epipe ∷ events) c = do
  c' ← on_receive bytes stale epipe c
  follow events c'
follow (line text ∷ events) c = elim (on_line text c) [
  | none ↦ some (false, record c { player = stop_player c.player })
  | some c' ↦ follow events c'
]
