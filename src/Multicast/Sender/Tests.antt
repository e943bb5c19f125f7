-- ===== src/Multicast/Sender/Tests.antt =====
-- A run of a pass of chn_sender, 流媒体组播/server/server.c, with a file of three bytes.
use learningproject.Common.{
  ℕ, zero, suc, ◌+◌, ◌≤◌, ◌<◌, ◌≡◌, refl, List, [], ◌∷◌, Option, some, none, true, arith, pos,
  replicate, length, take,
}
use learningproject.Multicast.Tbf.{Buckets}
use learningproject.Multicast.Tbf.Fetch.{bucket}
use learningproject.Multicast.Mlib.{ChnContext, got, descriptor, mlib_read_chn_data}
use learningproject.Multicast.Mlib.Playing.{IsReader}
use learningproject.Multicast.Mlib.Ending.{closed, IsPlayable}
use learningproject.Multicast.Sender.{chn_sender, sent, msg_size, Turn}
use learningproject.Multicast.Sender.Waiting.{IsSchedule}
use learningproject.Multicast.Sender.Broadcast.{chn_sender-on_packet}
use learningproject.Multicast.Player.{Player, on_packet}

abbrev slow : Buckets
slow = record {
  tbf_lib = some (bucket 1 0 5) ∷ some (bucket 1 0 5) ∷ replicate 1022 none;
  inited = true;
  last_update = 100;
}

-- A call in each second, and another sender's after it.
abbrev ticks : ℕ → ℕ → List Turn
ticks zero last = []
ticks (suc n) last =
    record { others = record { now = last; tb = pos 1; ntokens = 3 } ∷ []; now = suc last }
    ∷ ticks n (suc last)

ticks-IsSchedule : (n last h : ℕ) → last + n ≤ h → IsSchedule 0 last h (ticks n last)
ticks-IsSchedule zero last h le = tt
ticks-IsSchedule (suc n) last h le = (
  (refl, omega arith, tt),
  omega arith,
  omega arith,
  ticks-IsSchedule n (suc last) h (omega arith),
)

length-ticks : (n last : ℕ) → length (ticks n last) ≡ n
length-ticks zero last = refl
length-ticks (suc n) last = omega (arith, length-ticks n (suc last))

abbrev open_file : List ℕ → Option (List ℕ)
open_file path = some (7 ∷ 8 ∷ 9 ∷ [])

-- a byte at a time
abbrev read_some : List ℕ → ℕ → Option (List ℕ)
read_some rest size = some (take 1 rest)

reader : IsReader read_some
reader = record {
  eof = λ size. refl;
  some_bytes = λ b rest size h. ([], rest, refl, omega arith, refl);
}

abbrev paths : List (List ℕ)
paths = (1 ∷ []) ∷ []

opens :
    (i : ℕ) → i < 1 → (text : List ℕ) × (descriptor open_file (closed paths i) ≡ some (some text))
unfolding descriptor
opens zero lt = (7 ∷ 8 ∷ 9 ∷ [], refl)
opens (suc n) lt = absurd (omega arith)

playable : IsPlayable open_file read_some reader paths 0
unfolding descriptor
playable = record { inside = omega arith; opens = opens; filled = (7, 8 ∷ 9 ∷ [], refl) }

abbrev listener : Player
listener = record { current_chnid = 3; piped = true; heard = 1 ∷ [] }

abbrev elsewhere : Player
elsewhere = record { current_chnid = 4; piped = true; heard = [] }

chn_sender-on_packet_example :
    let context = closed paths 0 in
    (bytes : List ℕ) × (context' : ChnContext) × (s' : Buckets) × (mlib_read_chn_data open_file
        read_some 2 msg_size context
      ≡ got bytes context')
    × (chn_sender open_file read_some 2 3 (pos 0) (ticks msg_size 100) context slow
        ≡ sent (3 ∷ bytes) context' s')
    × (0 < length bytes)
    × (length bytes ≤ msg_size)
    × (on_packet (3 ∷ bytes) listener ≡ record listener { heard = 1 ∷ bytes })
    × (on_packet (3 ∷ bytes) elsewhere ≡ elsewhere)
chn_sender-on_packet_example =
    chn_sender-on_packet open_file read_some reader 2 3 0 0 paths none 0 1 0 5 8292
      (ticks msg_size 100) slow listener elsewhere playable (omega arith) (omega arith)
      (ticks-IsSchedule msg_size 100 8292 (omega arith)) (omega (arith, length-ticks msg_size 100))
      (omega arith) (omega arith) (omega arith) (omega arith) (omega arith, refl) (omega arith)
      (omega arith) refl refl (omega arith)
