-- ===== src/Multicast/Mlib/Library.antt =====
-- The table of channels of 流媒体组播/server/mlib.c: mlib_get_chn_list and __get_chn_info, that fill it from
-- the folder of the library, and the read of a channel by its number. What the kernel and the C library
-- say is a parameter: `first_line path` is the line that getline reads from a file, or `none` if it can
-- not be opened or read, and `glob pattern` the paths, or `none` if glob fails. Memory is taken to be
-- there. `none` is a write or read outside an array.
use learningproject.Common.{
  ℕ, ◌+◌, ◌-◌, ◌%◌, Bool, true, false, ◌||◌, List, [], ◌∷◌, ◌++◌, Option, none, some, ◌>>=◌,
  if◌then◌else◌, ◌==◌, ltb, leb, length, get_elem?, set, map,
}
use learningproject.Chat.Text.{utf8, str_eq}
use learningproject.Multicast.Channels.{Channel}
use learningproject.Multicast.Mlib.{
  ChnContext, Reading, got, failed, fault, running, mlib_read_chn_data,
}

abbrev pub bufsize : ℕ
bufsize = 128

abbrev pub mlib_path : List ℕ
mlib_path = utf8 "./medialib/"

-- `struct chn_context_st`
pub record Entry : Type 0 where
  pub mlib_list : Channel
  pub context : ChnContext

-- `chn_context_p` with `chn_nr` entries, and the static `index`
pub record Library : Type 0 where
  pub contexts : List Entry
  pub index : ℕ

abbrev pub at_start : Library
at_start = record { contexts = []; index = 1 }

-- What opendir and readdir say: an error at once, or some names, and whether they end without an error.
pub data Directory : Type 0 where
  unopened : Directory
  names : (entries : List (List ℕ)) (ended : Bool) → Directory

-- strcpy and strcat into an array of BUFSIZE bytes
unfoldable pub joined : List ℕ → List ℕ → Option (List ℕ)
joined a b = if ltb (length (a ++ b)) bufsize then some (a ++ b) else none

-- the last part of __get_chn_info
abbrev pub add_channel : (descrp : List ℕ) (paths : List (List ℕ)) → Library → Library
add_channel descrp paths lib = record {
  contexts =
      lib.contexts
      ++ record {
        mlib_list = record { chnid = lib.index % 256; descrp = descrp };
        context = record { mp3_path = paths; cur_ind = 0; fd = none };
      }
        ∷ [];
  index = lib.index + 1;
}

module _ (first_line : List ℕ → Option (List ℕ)) (glob : List ℕ → Option (List (List ℕ))) where
  -- The Boolean says that the result is 0.
  unfoldable pub get_chn_info : List ℕ → Library → Option (Bool × Library)
  get_chn_info path lib = do
    descr_path ← joined path (utf8 "/descr.txt")
    elim (first_line descr_path) [
      | none ↦ some (false, lib)
      | some descrp ↦ do
        pattern ← joined path (utf8 "/*.mp3")
        elim (glob pattern) [
          | none ↦ some (false, lib)
          | some [] ↦ some (false, lib)
          | some (p ∷ ps) ↦ some (true, add_channel descrp (p ∷ ps) lib)
        ]
    ]

  -- the loop over the folder
  unfoldable pub read_entries : List (List ℕ) → Library → Option Library
  read_entries [] lib = some lib
  read_entries (name ∷ more) lib =
      let skipped = read_entries more lib in
      if str_eq name (utf8 ".") || str_eq name (utf8 "..") then skipped else (do
        path ← joined mlib_path name
        (_, lib') ← get_chn_info path lib
        read_entries more lib')

  -- The result is -1, or 0 and what is stored for the caller.
  unfoldable pub mlib_get_chn_list : Directory → Library → Option (Option (List Channel) × Library)
  mlib_get_chn_list unopened lib = some (none, lib)
  mlib_get_chn_list (names entries ended) lib = do
    lib' ← read_entries entries lib
    some (if ended then some (map (λ e. e.mlib_list) lib'.contexts) else none, lib')

-- `chn_context_p[chnid - 1]`, where `chnid` is the byte of an int8_t
abbrev pub index_of : ℕ → Option ℕ
index_of chnid = if chnid == 0 || leb 128 chnid then none else some (chnid - 1)

-- the channel's entry after a call
abbrev pub store : ℕ → Entry → ChnContext → Library → Library
store k e c lib = record lib { contexts = set lib.contexts k (record e { context = c }) }

module _ (open_file : List ℕ → Option (List ℕ)) (read_some : List ℕ → ℕ → Option (List ℕ)) where
  -- mlib_read_chn_data on the table
  unfoldable pub read_channel : (fuel size chnid : ℕ) → Library → Option (Reading × Library)
  read_channel fuel size chnid lib = do
    k ← index_of chnid
    e ← get_elem? lib.contexts k
    elim (mlib_read_chn_data open_file read_some fuel size e.context) [
      | got bytes c ↦ some (got bytes c, store k e c lib)
      | failed c ↦ some (failed c, store k e c lib)
      | fault ↦ none
      | running ↦ some (running, lib)
    ]
