-- ===== src/Multicast/Mlib/Ending.antt =====
-- The loop of mlib_read_chn_data in 流媒体组播/server/mlib.c comes to its end.
use learningproject.Common.{
  ℕ, zero, suc, ◌+◌, ◌-◌, ◌≤◌, ◌<◌, ◌≡◌, ◌≢◌, refl, ◌∙◌, List, [], ◌∷◌, Option, none, some, arith,
  length, if◌then◌else◌, leb,
}
use learningproject.Multicast.Mlib.{
  ChnContext, got, running, next_ind, next_file, descriptor, mlib_read_chn_data,
}
use learningproject.Multicast.Mlib.Playing.{IsReader, read_now, read_past}

-- a channel with no open descriptor
abbrev pub closed : List (List ℕ) → ℕ → ChnContext
closed paths i = record { mp3_path = paths; cur_ind = i; fd = none }

-- the files between the present one and the file `k`, round a list of `n`
abbrev pub distance : ℕ → ℕ → ℕ → ℕ
distance n i k = if leb i k then k - i else n - i + k

module _ (open_file : List ℕ → Option (List ℕ)) (read_some : List ℕ → ℕ → Option (List ℕ))
    (reader : IsReader read_some) where
  -- All files can be opened, and the file `k` is not empty.
  pub record IsPlayable (paths : List (List ℕ)) (k : ℕ) : Type 0 where
    pub inside : k < length paths
    pub opens :
        (i : ℕ)
        → i < length paths
        → (text : List ℕ) × (descriptor open_file (closed paths i) ≡ some (some text))
    pub filled :
        (b : ℕ) × (rest : List ℕ) × (descriptor open_file (closed paths k) ≡ some (some (b ∷ rest)))

  -- The call returns bytes.
  abbrev pub Plays : ℕ → ℕ → ChnContext → Type 0
  Plays fuel size c =
      (bytes : List ℕ) × (c' : ChnContext) × (mlib_read_chn_data open_file read_some fuel size c
        ≡ got bytes c')
      × (0 < length bytes)
      × (length bytes ≤ size)

  one_round :
      (fuel size : ℕ) (text : List ℕ) (c : ChnContext)
      → 0 < size
      → descriptor open_file c ≡ some (some text)
      → (text ≡ [] → Plays fuel size (next_file c))
      → Plays (suc fuel) size c
  one_round fuel size [] c pos e more =
      let (bytes, c', eq, some_byte, fits) = more refl in
      (bytes, c', read_past open_file read_some reader fuel size c e ∙ eq, some_byte, fits)
  one_round fuel size (b ∷ rest) c pos e more =
      let (bytes, left, eq, _, some_byte, fits) =
        read_now open_file read_some reader fuel size b rest c pos e in
      (bytes, record c { fd = some left }, eq, some_byte, fits)

  closed-Plays :
      (fuel size k i : ℕ) (paths : List (List ℕ))
      → 0 < size
      → IsPlayable paths k
      → i < length paths
      → distance (length paths) i k < fuel
      → Plays fuel size (closed paths i)
  closed-Plays zero size k i paths pos p lt enough = absurd (omega arith)
  closed-Plays (suc fuel) size k i paths pos p lt enough =
      let (text, e) = p.opens i lt in
      one_round fuel size text (closed paths i) pos e (λ empty.
        let apart : i ≢ k = λ same. ground (arith, e, empty, same, p.filled.2) in
        closed-Plays fuel size k (next_ind (closed paths i)) paths pos p (ground arith)
          (ground (arith, apart, p.inside)))

  -- In a channel whose files can all be opened, and of which one is not empty, a call for at least one
  -- byte returns at least one and at most `size` bytes; a round for each file and one more are enough.
  pub mlib_read_chn_data-Plays :
      (fuel size k i : ℕ) (paths : List (List ℕ)) (fd : Option (List ℕ))
      → 0 < size
      → IsPlayable paths k
      → i < length paths
      → length paths < fuel
      → Plays fuel size (record { mp3_path = paths; cur_ind = i; fd = fd })
  unfolding descriptor
  mlib_read_chn_data-Plays fuel size k i paths none pos p lt enough =
      closed-Plays fuel size k i paths pos p lt (ground (arith, p.inside))
  mlib_read_chn_data-Plays zero size k i paths (some rest) pos p lt enough = absurd (omega arith)
  mlib_read_chn_data-Plays (suc fuel) size k i paths (some rest) pos p lt enough =
      one_round fuel size rest (record { mp3_path = paths; cur_ind = i; fd = some rest }) pos refl
        (λ empty.
          closed-Plays fuel size k (next_ind (closed paths i)) paths pos p (ground arith)
            (ground (arith, p.inside)))

-- If every file of a channel is empty, the call goes round for ever.
pub mlib_read_chn_data-running :
    (open_file : List ℕ → Option (List ℕ)) (read_some : List ℕ → ℕ → Option (List ℕ))
    (fuel size i : ℕ) (paths : List (List ℕ))
    → IsReader read_some
    → i < length paths
    → ((j : ℕ) → j < length paths → descriptor open_file (closed paths j) ≡ some (some []))
    → mlib_read_chn_data open_file read_some fuel size (closed paths i) ≡ running
unfolding mlib_read_chn_data
mlib_read_chn_data-running open_file read_some zero size i paths reader lt empty = refl
mlib_read_chn_data-running open_file read_some (suc fuel) size i paths reader lt empty =
    read_past open_file read_some reader fuel size (closed paths i) (empty i lt)
    ∙ mlib_read_chn_data-running open_file read_some fuel size (next_ind (closed paths i)) paths
        reader (ground arith) empty
