-- ===== src/Multicast/Mlib/Tests.antt =====
-- Runs of mlib_read_chn_data of 流媒体组播/server/mlib.c, with a kernel that reads as much as it can.
mod Listing
use learningproject.Common.{
  ℕ, zero, suc, ◌+◌, ◌≤◌, ◌<◌, ◌≡◌, refl, sym, List, [], ◌∷◌, ◌++◌, Option, some, arith, length,
  take, drop, length-take, take-append-drop,
}
use learningproject.Multicast.Mlib.Stream.{joined_up, upcoming, play, play-upcoming}
use learningproject.Multicast.Mlib.{ChnContext, got, running, descriptor, mlib_read_chn_data}
use learningproject.Multicast.Mlib.Playing.{IsReader, ahead}
use learningproject.Multicast.Mlib.Ending.{
  closed, IsPlayable, Plays, mlib_read_chn_data-Plays, mlib_read_chn_data-running,
}

-- the empty path names an empty file, all others one of three bytes
abbrev open_file : List ℕ → Option (List ℕ)
open_file [] = some []
open_file (b ∷ bs) = some (7 ∷ 8 ∷ 9 ∷ [])

abbrev read_some : List ℕ → ℕ → Option (List ℕ)
read_some rest size = some (take size rest)

take_none : (size : ℕ) → read_some [] size ≡ some []
take_none zero = refl
take_none (suc n) = refl

first_bytes :
    (b : ℕ) (rest : List ℕ) (size : ℕ)
    → 0 < size
    → (bytes tail : List ℕ) × (read_some (b ∷ rest) size ≡ some (b ∷ bytes))
      × (length (b ∷ bytes) ≤ size)
      × (rest ≡ bytes ++ tail)
first_bytes b rest zero pos = absurd (omega arith)
first_bytes b rest (suc n) pos = (
  take n rest,
  drop n rest,
  refl,
  omega (arith, length-take n rest),
  sym (take-append-drop n rest),
)

reader : IsReader read_some
reader = record { eof = take_none; some_bytes = first_bytes }

-- an empty file, then one of three bytes
abbrev paths : List (List ℕ)
paths = [] ∷ (1 ∷ []) ∷ []

opens :
    (i : ℕ) → i < 2 → (text : List ℕ) × (descriptor open_file (closed paths i) ≡ some (some text))
unfolding descriptor
opens zero lt = ([], refl)
opens (suc zero) lt = (7 ∷ 8 ∷ 9 ∷ [], refl)
opens (suc (suc n)) lt = absurd (omega arith)

playable : IsPlayable open_file read_some reader paths 1
unfolding descriptor
playable = record { inside = omega arith; opens = opens; filled = (7, 8 ∷ 9 ∷ [], refl) }

read_twice :
    mlib_read_chn_data open_file read_some 3 2 (closed paths 0)
    ≡ got (7 ∷ 8 ∷ []) (record { mp3_path = paths; cur_ind = 1; fd = some (9 ∷ []) })
unfolding mlib_read_chn_data descriptor
read_twice = refl

-- the file twice, in four calls
play-upcoming_example :
    (chunks : List (List ℕ)) × (c' : ChnContext) × (m : ℕ) × (play open_file read_some 4 3 2
        (closed paths 0)
      ≡ some (chunks, c'))
    × (4 ≤ length (joined_up chunks))
    × ((n : ℕ)
        → joined_up chunks ++ upcoming open_file n c' ≡ upcoming open_file (m + n) (closed paths 0))
play-upcoming_example =
    play-upcoming open_file read_some reader 4 3 2 1 (closed paths 0) (omega arith) playable
      (omega arith) (omega arith)

played :
    play open_file read_some 4 3 2 (closed paths 0)
    ≡ some (
      (7 ∷ 8 ∷ []) ∷ (9 ∷ []) ∷ (7 ∷ 8 ∷ []) ∷ (9 ∷ []) ∷ [],
      record { mp3_path = paths; cur_ind = 1; fd = some [] },
    )
unfolding play mlib_read_chn_data descriptor
played = refl

all_empty : (j : ℕ) → j < 1 → descriptor open_file (closed ([] ∷ []) j) ≡ some (some [])
unfolding descriptor
all_empty zero lt = refl
all_empty (suc j) lt = absurd (omega arith)

mlib_read_chn_data-running_example :
    mlib_read_chn_data open_file read_some 100 8192 (closed ([] ∷ []) 0) ≡ running
mlib_read_chn_data-running_example =
    mlib_read_chn_data-running open_file read_some 100 8192 0 ([] ∷ []) reader (omega arith)
      all_empty
