-- ===== src/Multicast/Mlib/Playing.antt =====
-- What mlib_read_chn_data of 流媒体组播/server/mlib.c hands out.
use learningproject.Common.{
  ℕ, zero, suc, ◌≤◌, ◌<◌, ◌≡◌, refl, sym, ap, ◌∙◌, List, [], ◌∷◌, ◌++◌, Option, some, arith, length,
  drop, drop-append,
}
use learningproject.Multicast.Mlib.{ChnContext, got, next_file, descriptor, mlib_read_chn_data}

-- What the kernel promises of `read`: at the end of a file it returns nothing, and before that at least
-- one and at most `size` of the next bytes.
pub record IsReader (read_some : List ℕ → ℕ → Option (List ℕ)) : Type 0 where
  pub eof : (size : ℕ) → read_some [] size ≡ some []
  pub some_bytes :
      (b : ℕ) (rest : List ℕ) (size : ℕ)
      → 0 < size
      → (bytes tail : List ℕ) × (read_some (b ∷ rest) size ≡ some (b ∷ bytes))
        × (length (b ∷ bytes) ≤ size)
        × (rest ≡ bytes ++ tail)

-- the channel after some files
unfoldable pub ahead : ℕ → ChnContext → ChnContext
ahead zero c = c
ahead (suc d) c = ahead d (next_file c)

module _ (open_file : List ℕ → Option (List ℕ)) (read_some : List ℕ → ℕ → Option (List ℕ))
    (reader : IsReader read_some) where
  pub read_now :
      (fuel size b : ℕ) (rest : List ℕ) (c : ChnContext)
      → 0 < size
      → descriptor open_file c ≡ some (some (b ∷ rest))
      → (bytes left : List ℕ) × (mlib_read_chn_data open_file read_some (suc fuel) size c
          ≡ got bytes (record c { fd = some left }))
        × (bytes ++ left ≡ b ∷ rest)
        × (0 < length bytes)
        × (length bytes ≤ size)
  unfolding mlib_read_chn_data
  read_now fuel size b rest c pos e =
      let (bytes, tail, read, fits, split) = reader.some_bytes b rest size pos in
      (
        b ∷ bytes,
        tail,
        rw (e, read, mlib_read_chn_data)
            (ap (λ left. got (b ∷ bytes) (record c { fd = some left }))
              (ap (λ r. drop (length bytes) r) split ∙ drop-append bytes tail)),
        ap (λ r. b ∷ r) (sym split),
        omega arith,
        fits,
      )

  pub read_past :
      (fuel size : ℕ) (c : ChnContext)
      → descriptor open_file c ≡ some (some [])
      → mlib_read_chn_data open_file read_some (suc fuel) size c
        ≡ mlib_read_chn_data open_file read_some fuel size (next_file c)
  unfolding mlib_read_chn_data
  read_past fuel size c e = rw (e, reader.eof size, mlib_read_chn_data) refl

  -- A call skips the files of the channel that are at an end, in their order and round the list, opens
  -- the first that is not, and returns at least one and at most `size` of its next bytes; what is left of
  -- that file stays for the next call.
  mlib_read_chn_data_lem :
      (d fuel size b : ℕ) (rest : List ℕ) (c : ChnContext)
      → d < fuel
      → 0 < size
      → ((k : ℕ) → k < d → descriptor open_file (ahead k c) ≡ some (some []))
      → descriptor open_file (ahead d c) ≡ some (some (b ∷ rest))
      → (bytes left : List ℕ) × (mlib_read_chn_data open_file read_some fuel size c
          ≡ got bytes (record (ahead d c) { fd = some left }))
        × (bytes ++ left ≡ b ∷ rest)
        × (0 < length bytes)
        × (length bytes ≤ size)
  unfolding ahead
  mlib_read_chn_data_lem d zero size b rest c lt pos empty e = absurd (omega arith)
  mlib_read_chn_data_lem zero (suc fuel) size b rest c lt pos empty e =
      read_now fuel size b rest c pos e
  mlib_read_chn_data_lem (suc d) (suc fuel) size b rest c lt pos empty e =
      rw (read_past fuel size c (empty 0 (omega arith))) (
        mlib_read_chn_data_lem d fuel size b rest (next_file c) (omega arith) pos
          (λ k h. empty (suc k) (omega arith)) e)
