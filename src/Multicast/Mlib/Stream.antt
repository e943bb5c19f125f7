-- ===== src/Multicast/Mlib/Stream.antt =====
-- The files of a channel come one after the other: calls of mlib_read_chn_data of 流媒体组播/server/mlib.c.
use mathlib.Core.List.{append_assoc}
use learningproject.Common.{
  ◌≢◌, ℕ, zero, suc, ◌+◌, ◌≤◌, ◌<◌, ◌≡◌, refl, sym, ap, ◌∙◌, List, [], ◌∷◌, ◌++◌, Option, none,
  some, arith, length, length-append, if◌then◌else◌, ◌==◌,
}
use learningproject.Multicast.Mlib.{
  ChnContext, got, failed, fault, running, next_ind, next_file, descriptor, mlib_read_chn_data,
}
use learningproject.Multicast.Mlib.Playing.{IsReader, read_now, read_past}
use learningproject.Multicast.Mlib.Ending.{IsPlayable, distance, closed}

abbrev pub joined_up : List (List ℕ) → List ℕ
joined_up [] = []
joined_up (chunk ∷ chunks) = chunk ++ joined_up chunks

-- what is left of the present file, all of it if it is still to be opened
unfoldable pub text_at : (List ℕ → Option (List ℕ)) → ChnContext → List ℕ
text_at open_file c = elim (descriptor open_file c) [
  | none ↦ []
  | some none ↦ []
  | some (some text) ↦ text
]

-- the file that should follow file `i` of `n`
abbrev pub following : ℕ → ℕ → ℕ
following n i = if i + 1 == n then 0 else i + 1

-- what is left of it, and the next `m` files of the channel, that start again behind the last
unfoldable pub upcoming : (List ℕ → Option (List ℕ)) → ℕ → ChnContext → List ℕ
upcoming open_file zero c = text_at open_file c
upcoming open_file (suc m) c =
    text_at open_file c
    ++ upcoming open_file m (closed c.mp3_path (following (length c.mp3_path) c.cur_ind))

module _ (open_file : List ℕ → Option (List ℕ)) (read_some : List ℕ → ℕ → Option (List ℕ)) where
  -- some calls, if all of them return bytes
  unfoldable pub play : ℕ → (fuel size : ℕ) → ChnContext → Option (List (List ℕ) × ChnContext)
  play zero fuel size c = some ([], c)
  play (suc r) fuel size c = elim (mlib_read_chn_data open_file read_some fuel size c) [
    | got bytes c' ↦ elim (play r fuel size c') [
      | none ↦ none
      | some (chunks, c'') ↦ some (bytes ∷ chunks, c'')
    ]
    | failed c' ↦ none
    | fault ↦ none
    | running ↦ none
  ]

module _ (open_file : List ℕ → Option (List ℕ)) (read_some : List ℕ → ℕ → Option (List ℕ))
    (reader : IsReader read_some) where
  -- A call that returns some bytes, with the channel left at an open file.
  abbrev Reads : (fuel size : ℕ) → ChnContext → Type 0
  Reads fuel size c =
      (bytes : List ℕ) × (i : ℕ) × (left : List ℕ) × (m : ℕ) × (mlib_read_chn_data open_file
          read_some fuel size c
        ≡ got bytes (record c { cur_ind = i; fd = some left }))
      × (i < length c.mp3_path)
      × (0 < length bytes)
      × ((k : ℕ)
          → bytes ++ upcoming open_file k (record c { cur_ind = i; fd = some left })
            ≡ upcoming open_file (m + k) c)

  text_at-some :
      (text : List ℕ) (c : ChnContext)
      → descriptor open_file c ≡ some (some text)
      → text_at open_file c ≡ text
  unfolding text_at
  text_at-some text c e = rw (e, text_at) refl

  next_file-following :
      (c : ChnContext)
      → c.cur_ind < length c.mp3_path
      → next_file c ≡ closed c.mp3_path (following (length c.mp3_path) c.cur_ind)
  next_file-following c inside =
      let same : next_ind c ≡ following (length c.mp3_path) c.cur_ind = ground (arith, inside) in
      ap (closed c.mp3_path) same

  upcoming-next :
      (k : ℕ) (c : ChnContext)
      → c.cur_ind < length c.mp3_path
      → descriptor open_file c ≡ some (some [])
      → upcoming open_file k (next_file c) ≡ upcoming open_file (suc k) c
  unfolding upcoming
  upcoming-next k c inside e =
      rw (text_at-some [] c e) (ap (upcoming open_file k) (next_file-following c inside))

  upcoming-now :
      (k : ℕ) (bytes left text : List ℕ) (c : ChnContext)
      → descriptor open_file c ≡ some (some text)
      → bytes ++ left ≡ text
      → bytes ++ upcoming open_file k (record c { fd = some left }) ≡ upcoming open_file k c
  unfolding upcoming text_at descriptor
  upcoming-now zero bytes left text c e split = split ∙ sym (text_at-some text c e)
  upcoming-now (suc k) bytes left text c e split =
      let later =
        upcoming open_file k (closed c.mp3_path (following (length c.mp3_path) c.cur_ind)) in
      sym (append_assoc bytes left later)
      ∙ ap (λ t. t ++ later) (split ∙ sym (text_at-some text c e))

  one_round :
      (fuel size : ℕ) (text : List ℕ) (c : ChnContext)
      → 0 < size
      → c.cur_ind < length c.mp3_path
      → descriptor open_file c ≡ some (some text)
      → (text ≡ [] → Reads fuel size (next_file c))
      → Reads (suc fuel) size c
  one_round fuel size [] c pos inside e more =
      let (bytes, i, left, m, read, lt, some_byte, same) = more refl in
      (
        bytes,
        i,
        left,
        suc m,
        read_past open_file read_some reader fuel size c e ∙ read,
        lt,
        some_byte,
        λ k.
            same k
            ∙ upcoming-next (m + k) c inside e
            ∙ ap (λ n. upcoming open_file n c) (omega arith),
      )
  one_round fuel size (b ∷ rest) c pos inside e more =
      let (bytes, left, read, split, some_byte, fits) =
        read_now open_file read_some reader fuel size b rest c pos e in
      (
        bytes,
        c.cur_ind,
        left,
        0,
        read,
        inside,
        some_byte,
        λ k.
            upcoming-now k bytes left (b ∷ rest) c e split
            ∙ ap (λ n. upcoming open_file n c) (omega arith),
      )

  closed-Reads :
      (fuel size k i : ℕ) (paths : List (List ℕ))
      → 0 < size
      → IsPlayable open_file read_some reader paths k
      → i < length paths
      → distance (length paths) i k < fuel
      → Reads fuel size (closed paths i)
  closed-Reads zero size k i paths pos p lt enough = absurd (omega arith)
  closed-Reads (suc fuel) size k i paths pos p lt enough =
      let (text, e) = p.opens i lt in
      one_round fuel size text (closed paths i) pos lt e (λ empty.
        let apart : i ≢ k = λ same. ground (arith, e, empty, same, p.filled.2) in
        closed-Reads fuel size k (next_ind (closed paths i)) paths pos p (ground arith)
          (ground (arith, apart, p.inside)))

  call-Reads :
      (fuel size k i : ℕ) (paths : List (List ℕ)) (fd : Option (List ℕ))
      → 0 < size
      → IsPlayable open_file read_some reader paths k
      → i < length paths
      → length paths < fuel
      → Reads fuel size (record { mp3_path = paths; cur_ind = i; fd = fd })
  unfolding descriptor
  call-Reads fuel size k i paths none pos p lt enough =
      closed-Reads fuel size k i paths pos p lt (ground (arith, p.inside))
  call-Reads zero size k i paths (some rest) pos p lt enough = absurd (omega arith)
  call-Reads (suc fuel) size k i paths (some rest) pos p lt enough =
      one_round fuel size rest (record { mp3_path = paths; cur_ind = i; fd = some rest }) pos lt
        refl
        (λ empty.
          closed-Reads fuel size k (next_ind (closed paths i)) paths pos p (ground arith)
            (ground (arith, p.inside)))

  -- All files of a channel can be opened, and one is not empty; each call asks for at least one byte, and
  -- has a round for each file and one more. Then any number of calls return bytes, at least one each. What
  -- they return is what was left of the present file, and then the next files whole, in the order of the
  -- list and from its start again behind its end, up to a place in a file, where the next call goes on: no
  -- byte is lost, and none comes twice.
  pub play-upcoming :
      (r fuel size k : ℕ) (c : ChnContext)
      → 0 < size
      → IsPlayable open_file read_some reader c.mp3_path k
      → c.cur_ind < length c.mp3_path
      → length c.mp3_path < fuel
      → (chunks : List (List ℕ)) × (c' : ChnContext) × (m : ℕ) × (play open_file read_some r fuel
            size c
          ≡ some (chunks, c'))
        × (r ≤ length (joined_up chunks))
        × ((n : ℕ) → joined_up chunks ++ upcoming open_file n c' ≡ upcoming open_file (m + n) c)
  unfolding play
  play-upcoming zero fuel size k c pos p lt enough =
      ([], c, 0, refl, omega arith, λ n. ap (λ j. upcoming open_file j c) (omega arith))
  play-upcoming (suc r) fuel size k c pos p lt enough =
      let (bytes, i, left, m, read, inside, some_byte, same) =
        call-Reads fuel size k c.cur_ind c.mp3_path c.fd pos p lt enough in
      let between = record c { cur_ind = i; fd = some left } in
      let (chunks, c', m', played, many, more) =
        play-upcoming r fuel size k between pos p inside enough in
      (
        bytes ∷ chunks,
        c',
        m + m',
        rw (read, played, play) refl,
        omega (arith, many, some_byte, length-append bytes (joined_up chunks)),
        λ n.
            append_assoc bytes (joined_up chunks) (upcoming open_file n c')
            ∙ ap (λ t. bytes ++ t) (more n)
            ∙ same (m' + n)
            ∙ ap (λ j. upcoming open_file j c) (omega arith),
      )
