-- ===== src/Multicast/Mlib/Numbers.antt =====
-- The numbers of the channels lead to their entries: mlib_get_chn_list and mlib_read_chn_data of
-- 流媒体组播/server/mlib.c.
use learningproject.Common.{
  ◌||◌, ◌⊎◌, ℕ, zero, suc, ◌+◌, ◌%◌, ◌<◌, ◌≤◌, ◌≡◌, refl, ap, ◌∙◌, Bool, true, List, [], ◌∷◌, ◌++◌,
  Option, none, some, arith, length, get_elem?, map, Option-cases, Bool-cases, inl, inr,
  length-append, >>=-eq-some,
}
use learningproject.Chat.Text.{utf8, str_eq}
use learningproject.Multicast.Channels.{Channel}
use learningproject.Multicast.Mlib.{ChnContext, got, mlib_read_chn_data}
use learningproject.Multicast.Mlib.Playing.{IsReader}
use learningproject.Multicast.Mlib.Ending.{closed, IsPlayable, mlib_read_chn_data-Plays}
use learningproject.Multicast.Mlib.Library.{
  Entry, Library, at_start, names, joined, add_channel, mlib_path, get_chn_info, read_entries,
  mlib_get_chn_list, index_of, store, read_channel,
}

-- An entry at index `k` as __get_chn_info leaves it.
pub record IsEntry (k : ℕ) (e : Entry) : Type 0 where
  pub number : e.mlib_list.chnid ≡ (k + 1) % 256
  pub some_file : 0 < length e.context.mp3_path
  pub fresh : e.context ≡ closed e.context.mp3_path 0

pub record IsNumbered (lib : Library) : Type 0 where
  pub index : lib.index ≡ length lib.contexts + 1
  pub entries : (k : ℕ) (e : Entry) → get_elem? lib.contexts k ≡ some e → IsEntry k e

-- an element of a list with one more at its end
elem-append_one :
    (es : List Entry) (x : Entry) (k : ℕ) (e : Entry)
    → get_elem? (es ++ x ∷ []) k ≡ some e
    → (get_elem? es k ≡ some e) ⊎ ((k ≡ length es) × (e ≡ x))
elem-append_one [] x zero e h = inr (refl, ground arith)
elem-append_one [] x (suc k) e h = ground arith
elem-append_one (y ∷ ys) x zero e h = inl h
elem-append_one (y ∷ ys) x (suc k) e h = elim (elem-append_one ys x k e h) [
  | inl old ↦ inl old
  | inr (p, q) ↦ inr (ap suc p, q)
]

add_channel-IsNumbered :
    (descrp p : List ℕ) (ps : List (List ℕ)) (lib : Library)
    → IsNumbered lib
    → IsNumbered (add_channel descrp (p ∷ ps) lib)
add_channel-IsNumbered descrp p ps lib h = record {
  index = omega (arith, h.index, length-append lib.contexts (new ∷ []));
  entries = λ k e at_k. elim (elem-append_one lib.contexts new k e at_k) [
    | inl old ↦ h.entries k e old
    | inr (last, same) ↦
        rw (same, last)
          (record { number = ap (λ n. n % 256) h.index; some_file = omega arith; fresh = refl })
  ];
}
  where
    new : Entry
    new = record {
      mlib_list = record { chnid = lib.index % 256; descrp = descrp };
      context = record { mp3_path = p ∷ ps; cur_ind = 0; fd = none };
    }

module _ (first_line : List ℕ → Option (List ℕ)) (glob : List ℕ → Option (List (List ℕ))) where
  get_chn_info-IsNumbered :
      (path : List ℕ) (lib : Library) (done : Bool) (lib' : Library)
      → IsNumbered lib
      → get_chn_info first_line glob path lib ≡ some (done, lib')
      → IsNumbered lib'
  unfolding get_chn_info
  get_chn_info-IsNumbered path lib done lib' h e =
      elim (Option-cases (joined path (utf8 "/descr.txt"))) [
        | inl long ↦ absurd (ground (arith, rw long at e))
        | inr (descr_path, fits) ↦ elim (Option-cases (first_line descr_path)) [
          | inl no_line ↦ same (ground (arith, rw (fits, no_line) at e))
          | inr (descrp, line) ↦ elim (Option-cases (joined path (utf8 "/*.mp3"))) [
            | inl long ↦ absurd (ground (arith, rw (fits, line, long) at e))
            | inr (pattern, fits') ↦ elim (Option-cases (glob pattern)) [
              | inl no_match ↦ same (ground (arith, rw (fits, line, fits', no_match) at e))
              | inr ([], found) ↦ same (ground (arith, rw (fits, line, fits', found) at e))
              | inr (p ∷ ps, found) ↦
                  let result : lib' ≡ add_channel descrp (p ∷ ps) lib =
                    ground (arith, rw (fits, line, fits', found) at e) in
                  rw result (add_channel-IsNumbered descrp p ps lib h)
            ]
          ]
        ]
      ]
    where
      same : lib' ≡ lib → IsNumbered lib'
      same e = rw e h

  read_entries-IsNumbered :
      (entries : List (List ℕ)) (lib lib' : Library)
      → IsNumbered lib
      → read_entries first_line glob entries lib ≡ some lib'
      → IsNumbered lib'
  unfolding read_entries
  read_entries-IsNumbered [] lib lib' h e = let same : lib' ≡ lib = ground arith in rw same h
  read_entries-IsNumbered (name ∷ more) lib lib' h e =
      elim (Bool-cases (str_eq name (utf8 ".") || str_eq name (utf8 ".."))) [
        | inl skip ↦ read_entries-IsNumbered more lib lib' h (rw skip at e)
        | inr taken ↦
            let (path, _, after_path) = >>=-eq-some (joined mlib_path name) _ (rw taken at e) in
            let ((done, between), info, rest) =
              >>=-eq-some (get_chn_info first_line glob path lib) _ after_path in
            read_entries-IsNumbered more between lib'
              (get_chn_info-IsNumbered path lib done between h info) rest
      ]

  start-IsNumbered : IsNumbered at_start
  start-IsNumbered = record { index = refl; entries = λ k e h. ground (arith, h) }

  -- what the caller of mlib_get_chn_list is given, and the table behind it
  list-cases :
      (entries : List (List ℕ)) (channels : List Channel) (lib : Library)
      → mlib_get_chn_list first_line glob (names entries true) at_start ≡ some (some channels, lib)
      → IsNumbered lib × (channels ≡ map (λ e. e.mlib_list) lib.contexts)
  unfolding mlib_get_chn_list
  list-cases entries channels lib e =
      let (lib', filled, rest) = >>=-eq-some (read_entries first_line glob entries at_start) _ e in
      let same : lib ≡ lib' = ground (arith, rest) in
      let listed : channels ≡ map (λ x. x.mlib_list) lib'.contexts = ground (arith, rest) in
      rw same (read_entries-IsNumbered entries at_start lib' start-IsNumbered filled, listed)

index_of-small : (k : ℕ) → k < 127 → index_of ((k + 1) % 256) ≡ some k
index_of-small k h = ground arith

index_of-large : (k : ℕ) → 127 ≤ k → k < 255 → index_of ((k + 1) % 256) ≡ none
index_of-large k low high = ground arith

map-elem :
    (es : List Entry) (k : ℕ) (e : Entry)
    → get_elem? es k ≡ some e
    → get_elem? (map (λ x. x.mlib_list) es) k ≡ some e.mlib_list
map-elem [] k e h = ground arith
map-elem (x ∷ xs) zero e h = ground arith
map-elem (x ∷ xs) (suc k) e h = map-elem xs k e h

module _ (first_line : List ℕ → Option (List ℕ)) (glob : List ℕ → Option (List (List ℕ)))
    (open_file : List ℕ → Option (List ℕ)) (read_some : List ℕ → ℕ → Option (List ℕ))
    (reader : IsReader read_some) where
  -- mlib_get_chn_list has filled the table, and the channel at place `k` of the list, one of the first
  -- 127, has files that can all be opened, of which one is not empty. Then a read of its number returns
  -- at least one and at most `size` bytes, which mlib_read_chn_data got from that channel's own files,
  -- and the other channels stay as they are. A round for each file and one more are enough.
  pub read_channel-listed :
      (entries : List (List ℕ)) (channels : List Channel) (lib : Library) (k fuel size n : ℕ)
      (e : Entry)
      → mlib_get_chn_list first_line glob (names entries true) at_start ≡ some (some channels, lib)
      → get_elem? lib.contexts k ≡ some e
      → k < 127
      → 0 < size
      → IsPlayable open_file read_some reader e.context.mp3_path n
      → length e.context.mp3_path < fuel
      → (c : Channel) × (bytes : List ℕ) × (context : ChnContext) × (get_elem? channels k ≡ some c)
        × (mlib_read_chn_data open_file read_some fuel size e.context ≡ got bytes context)
        × (read_channel open_file read_some fuel size c.chnid lib
            ≡ some (got bytes context, store k e context lib))
        × (0 < length bytes)
        × (length bytes ≤ size)
  unfolding read_channel
  read_channel-listed entries channels lib k fuel size n e made at_k few pos plays enough =
      let (numbered, listed) = list-cases first_line glob entries channels lib made in
      let entry = numbered.entries k e at_k in
      let (bytes, context, read, some_byte, fits) =
        mlib_read_chn_data-Plays open_file read_some reader fuel size n 0 e.context.mp3_path none
          pos plays entry.some_file enough in
      let reads : mlib_read_chn_data open_file read_some fuel size e.context ≡ got bytes context =
        ap (mlib_read_chn_data open_file read_some fuel size) entry.fresh ∙ read in
      let found : index_of e.mlib_list.chnid ≡ some k =
        ap index_of entry.number ∙ index_of-small k few in
      (
        e.mlib_list,
        bytes,
        context,
        rw listed (map-elem lib.contexts k e at_k),
        reads,
        ground (arith, found, at_k, reads),
        some_byte,
        fits,
      )

  -- From the 128th channel of the list on, up to the 255th, the number that the channel is given is that of
  -- a place outside the table: a read of it is a read outside the array.
  pub read_channel-outside :
      (entries : List (List ℕ)) (channels : List Channel) (lib : Library) (k fuel size : ℕ)
      (e : Entry)
      → mlib_get_chn_list first_line glob (names entries true) at_start ≡ some (some channels, lib)
      → get_elem? lib.contexts k ≡ some e
      → 127 ≤ k
      → k < 255
      → read_channel open_file read_some fuel size e.mlib_list.chnid lib ≡ none
  unfolding read_channel
  read_channel-outside entries channels lib k fuel size e made at_k low high =
      let (numbered, _) = list-cases first_line glob entries channels lib made in
      let lost : index_of e.mlib_list.chnid ≡ none =
        ap index_of (numbered.entries k e at_k).number ∙ index_of-large k low high in
      rw (lost, read_channel) refl
