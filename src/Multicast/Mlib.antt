-- ===== src/Multicast/Mlib.antt =====
-- The media library: mlib_read_chn_data of 流媒体组播/server/mlib.c, that hands out the files of a channel
-- one after another, round and round.
-- The calls of the kernel are parameters: `open_file path` is what the file at `path` holds, or `none` if
-- `open` fails, and `read_some rest size` the bytes that one `read` returns where `rest` is left of the
-- file, or `none` for an error. An open descriptor is what is left of its file.
pub mod Playing
pub mod Ending
pub mod Library
pub mod Numbers
pub mod Stream
mod Tests
use learningproject.Common.{
  ℕ, zero, suc, ◌+◌, List, [], ◌∷◌, Option, none, some, if◌then◌else◌, leb, ◌==◌, length, drop,
  get_elem?,
}

-- `struct chn_context_st`, without what mlib_get_chn_list alone reads
pub record ChnContext : Type 0 where
  pub mp3_path : List (List ℕ)
  pub cur_ind : ℕ
  pub fd : Option (List ℕ)

-- How the call ends: with bytes, with -1, by a read outside `gl_pathv`, or not within the fuel.
pub data Reading : Type 0 where
  got : List ℕ → ChnContext → Reading
  failed : ChnContext → Reading
  fault running : Reading

-- the file after the present one
abbrev pub next_ind : ChnContext → ℕ
next_ind c = if leb (length c.mp3_path) (c.cur_ind + 1) then 0 else c.cur_ind + 1

-- the channel once its file is at an end
abbrev pub next_file : ChnContext → ChnContext
next_file c = record c { cur_ind = next_ind c; fd = none }

module _ (open_file : List ℕ → Option (List ℕ)) where
  -- the first part of a round: the descriptor, that is opened if there is none
  unfoldable pub descriptor : ChnContext → Option (Option (List ℕ))
  descriptor c = elim c.fd [
    | some rest ↦ some (some rest)
    | none ↦ elim (get_elem? c.mp3_path c.cur_ind) [
      | none ↦ none
      | some path ↦ some (open_file path)
    ]
  ]

module _ (open_file : List ℕ → Option (List ℕ)) (read_some : List ℕ → ℕ → Option (List ℕ)) where
  unfoldable pub mlib_read_chn_data : ℕ → ℕ → ChnContext → Reading
  mlib_read_chn_data zero size c = running
  mlib_read_chn_data (suc fuel) size c =
      let again = mlib_read_chn_data fuel size (next_file c) in
      elim (descriptor open_file c) [
        | none ↦ fault
        | some none ↦ failed c
        | some (some rest) ↦ elim (read_some rest size) [
          | none ↦ failed (record c { fd = none })
          | some [] ↦ again
          | some (b ∷ bytes) ↦
              got (b ∷ bytes) (record c { fd = some (drop (length (b ∷ bytes)) rest) })
        ]
      ]
