-- ===== src/Multicast/Mlib/Tests/Listing.antt =====
-- The table of channels of 流媒体组播/server/mlib.c for small folders.
use learningproject.Common.{
  ℕ, zero, suc, ◌≤◌, ◌<◌, ◌≡◌, refl, true, List, [], ◌∷◌, Option, none, some, arith, length, take,
  get_elem?, replicate,
}
use learningproject.Chat.Text.{str_eq}
use learningproject.Multicast.Channels.{Channel}
use learningproject.Multicast.Mlib.{ChnContext, got, descriptor, mlib_read_chn_data}
use learningproject.Multicast.Mlib.Playing.{IsReader}
use learningproject.Multicast.Mlib.Ending.{closed, IsPlayable}
use learningproject.Multicast.Mlib.Library.{
  Entry, Library, at_start, names, joined, get_chn_info, read_entries, mlib_get_chn_list,
  read_channel, store,
}
use learningproject.Multicast.Mlib.Numbers.{read_channel-listed, read_channel-outside}

-- Each folder has a description, and one file, of two bytes.
abbrev first_line : List ℕ → Option (List ℕ)
first_line path = some (b'x' ∷ [])

abbrev glob : List ℕ → Option (List (List ℕ))
glob pattern = some ((b'f' ∷ []) ∷ [])

abbrev open_file : List ℕ → Option (List ℕ)
open_file path = some (7 ∷ 8 ∷ [])

-- a byte at a time
abbrev read_some : List ℕ → ℕ → Option (List ℕ)
read_some rest size = some (take 1 rest)

reader : IsReader read_some
reader = record {
  eof = λ size. refl;
  some_bytes = λ b rest size h. ([], rest, refl, omega arith, refl);
}

abbrev table : List (List ℕ) → Library
table entries = elim (mlib_get_chn_list first_line glob (names entries true) at_start) [
  | none ↦ at_start
  | some x ↦ x.1
]

abbrev channels : List (List ℕ) → List Channel
channels entries = elim (mlib_get_chn_list first_line glob (names entries true) at_start) [
  | none ↦ []
  | some x ↦ elim x.0 [ none ↦ [] | some cs ↦ cs ]
]

abbrev entry : ℕ → Entry
entry chnid = record {
  mlib_list = record { chnid = chnid; descrp = b'x' ∷ [] };
  context = closed ((b'f' ∷ []) ∷ []) 0;
}

-- Besides `.` there are two folders.
abbrev two : List (List ℕ)
two = (b'.' ∷ []) ∷ (b'a' ∷ []) ∷ (b'b' ∷ []) ∷ []

two-listed :
    mlib_get_chn_list first_line glob (names two true) at_start
    ≡ some (some (channels two), table two)
unfolding mlib_get_chn_list read_entries get_chn_info joined str_eq
two-listed = refl

second : get_elem? (table two).contexts 1 ≡ some (entry 2)
unfolding mlib_get_chn_list read_entries get_chn_info joined str_eq
second = refl

opens :
    (i : ℕ)
    → i < 1
    → (text : List ℕ) × (descriptor open_file (closed ((b'f' ∷ []) ∷ []) i) ≡ some (some text))
unfolding descriptor
opens zero lt = (7 ∷ 8 ∷ [], refl)
opens (suc n) lt = absurd (omega arith)

playable : IsPlayable open_file read_some reader ((b'f' ∷ []) ∷ []) 0
unfolding descriptor
playable = record { inside = omega arith; opens = opens; filled = (7, 8 ∷ [], refl) }

read_channel-listed_example :
    (c : Channel) × (bytes : List ℕ) × (context : ChnContext) × (get_elem? (channels two) 1
      ≡ some c)
    × (mlib_read_chn_data open_file read_some 2 100 (entry 2).context ≡ got bytes context)
    × (read_channel open_file read_some 2 100 c.chnid (table two)
        ≡ some (got bytes context, store 1 (entry 2) context (table two)))
    × (0 < length bytes)
    × (length bytes ≤ 100)
read_channel-listed_example =
    read_channel-listed first_line glob open_file read_some reader two (channels two) (table two) 1
      2 100 0 (entry 2) two-listed second (omega arith) (omega arith) playable (omega arith)

-- 128 folders
abbrev many : List (List ℕ)
many = replicate 128 (b'a' ∷ [])

many-listed :
    mlib_get_chn_list first_line glob (names many true) at_start
    ≡ some (some (channels many), table many)
unfolding mlib_get_chn_list read_entries get_chn_info joined str_eq
many-listed = refl

last_one : get_elem? (table many).contexts 127 ≡ some (entry 128)
unfolding mlib_get_chn_list read_entries get_chn_info joined str_eq
last_one = refl

read_channel-outside_example : read_channel open_file read_some 2 100 128 (table many) ≡ none
read_channel-outside_example =
    read_channel-outside first_line glob open_file read_some reader many (channels many)
      (table many) 127 2 100 (entry 128) many-listed last_one (omega arith) (omega arith)

-- A name of 107 bytes does not fit the array with /descr.txt behind it.
long_name : read_entries first_line glob (replicate 107 b'a' ∷ []) at_start ≡ none
unfolding read_entries get_chn_info joined str_eq
long_name = refl
