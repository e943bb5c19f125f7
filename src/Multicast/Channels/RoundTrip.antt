-- ===== src/Multicast/Channels/RoundTrip.antt =====
-- The client reads the channels that the server sends: 流媒体组播/server/server.c, send_chn_list, with the
-- main loop of 流媒体组播/client/client.c.
use mathlib.Core.List.{append_assoc}
use learningproject.Common.{
  length-take, ℕ, zero, suc, ◌+◌, ◌%◌, ◌≤◌, ◌≡◌, refl, sym, ap, ◌∙◌, List, [], ◌∷◌, ◌++◌, none,
  some, arith, length, take, drop, length-append, length-drop, take-append, drop-append, take_of_le,
  ◌>>=◌,
}
use learningproject.Chat.Text.Laws.{Without, c_string-append}
use learningproject.Multicast.Channels.{
  Channel, entries_size, advance, write_at, write_entries, send_chn_list, entry_at, entry_bytes,
  sent_len, read_list, read_chn_list, max_chn,
}

-- A description that is a string and whose length, with its zero, fits into an int8_t.
abbrev pub IsChannel : Channel → Type 0
IsChannel c = Without 0 c.descrp × (length c.descrp ≤ 126)

abbrev pub AllChannels : List Channel → Type 0
AllChannels [] = Unit
AllChannels (c ∷ cs) = IsChannel c × AllChannels cs

-- how an entry is laid out, and the list of them
abbrev pub entry : Channel → List ℕ
entry c = c.chnid ∷ (length c.descrp + 1) ∷ (c.descrp ++ 0 ∷ [])

unfoldable pub encode : List Channel → List ℕ
encode [] = []
encode (c ∷ cs) = entry c ++ encode cs

sent_whole : (c : Channel) → IsChannel c → sent_len c ≡ length c.descrp
sent_whole c h = omega (arith, h)

entry_bytes-entry : (c : Channel) → IsChannel c → entry_bytes c ≡ entry c
entry_bytes-entry c h =
    rw (sent_whole c h, take_of_le (length c.descrp) c.descrp (omega arith))
      (ap (λ l. c.chnid ∷ l ∷ (c.descrp ++ 0 ∷ [])) (omega (arith, h)))

length-entry : (c : Channel) → length (entry c) ≡ 3 + length c.descrp
length-entry c = omega (arith, length-append c.descrp (0 ∷ []))

advance-entry :
    (pos : ℕ) (c : Channel)
    → IsChannel c
    → advance pos (length c.descrp + 1) ≡ some (pos + length (entry c))
unfolding advance
advance-entry pos c h = ground (arith, h, length-entry c)

drop-append_add : (pre rest : List ℕ) (k : ℕ) → drop (length pre + k) (pre ++ rest) ≡ drop k rest
drop-append_add [] rest k = let same : 0 + k ≡ k = omega arith in ap (λ n. drop n rest) same
drop-append_add (b ∷ pre) rest k =
    let same : suc (length pre) + k ≡ suc (length pre + k) = omega arith in
    ap (λ n. drop n (b ∷ (pre ++ rest))) same ∙ drop-append_add pre rest k

write_at-append :
    (pre bytes memory : List ℕ)
    → length bytes ≤ length memory
    → write_at (length pre) bytes (pre ++ memory)
      ≡ some ((pre ++ bytes) ++ drop (length bytes) memory)
unfolding write_at
write_at-append pre bytes memory h = ground (
  arith,
  length-append pre memory,
  take-append pre memory,
  drop-append_add pre memory (length bytes),
  append_assoc pre bytes (drop (length bytes) memory),
)

write_entries-encode :
    (pre memory : List ℕ) (cs : List Channel)
    → AllChannels cs
    → length memory ≡ entries_size cs
    → write_entries (some (length pre)) cs (pre ++ memory) ≡ some (pre ++ encode cs)
unfolding write_entries entries_size encode
write_entries-encode pre [] [] h e = refl
write_entries-encode pre (b ∷ bs) [] h e = absurd (omega arith)
write_entries-encode pre memory (c ∷ cs) h e =
    rw
      (
        entry_bytes-entry c h.0,
        write_at-append pre (entry c) memory (omega (arith, length-entry c, sent_whole c h.0)),
        next,
      )
      (write_entries-encode (pre ++ entry c) (drop (length (entry c)) memory) cs h.1 left
        ∙ ap some (append_assoc pre (entry c) (encode cs)))
  where
    next : advance (length pre) ((sent_len c + 1) % 256) ≡ some (length (pre ++ entry c))
    next =
        ap (advance (length pre)) (omega (arith, sent_whole c h.0))
        ∙ advance-entry (length pre) c h.0
        ∙ ap some (sym (length-append pre (entry c)))

    left : length (drop (length (entry c)) memory) ≡ entries_size cs
    left = omega (arith, length-drop (length (entry c)) memory, length-entry c, sent_whole c h.0)

entry_at-entry :
    (c : Channel) (rest : List ℕ)
    → IsChannel c
    → entry_at (entry c ++ rest) ≡ some (c, length c.descrp + 1)
unfolding entry_at
entry_at-entry c rest h = ground (
  arith,
  append_assoc c.descrp (0 ∷ []) rest,
  c_string-append c.descrp rest h.0,
  take_of_le 255 c.descrp (omega arith),
)

pub read_list-encode :
    (room : ℕ) (pre stale : List ℕ) (cs : List Channel)
    → AllChannels cs
    → length cs ≤ room
    → read_list room (some (length pre)) (length (pre ++ encode cs)) (pre ++ (encode cs ++ stale))
      ≡ some cs
unfolding read_list encode
read_list-encode zero pre stale [] h few = refl
read_list-encode (suc room) pre stale [] h few = ground (arith, length-append pre [])
read_list-encode zero pre stale (c ∷ cs) h few = absurd (omega arith)
read_list-encode (suc room) pre stale (c ∷ cs) h few =
    let rest : read_list room (advance (length pre) (length c.descrp + 1))
          (length (pre ++ (entry c ++ encode cs))) (pre ++ ((entry c ++ encode cs) ++ stale))
        ≡ some cs =
      rw
        (
          advance-entry (length pre) c h.0,
          ← length-append pre (entry c),
          append_assoc (entry c) (encode cs) stale,
          ← append_assoc pre (entry c) (encode cs),
          ← append_assoc pre (entry c) (encode cs ++ stale),
        )
        (read_list-encode room (pre ++ entry c) stale cs h.1 (omega arith)) in
    ground (
      arith,
      append_assoc (entry c) (encode cs) stale,
      drop-append pre (entry c ++ (encode cs ++ stale)),
      entry_at-entry c (encode cs ++ stale) h.0,
      length-append pre (entry c ++ encode cs),
      length-append (entry c) (encode cs),
      length-entry c,
      rest,
    )

pub sent :
    (memory : ℕ → List ℕ) (c : Channel) (cs : List Channel)
    → ((n : ℕ) → length (memory n) ≡ n)
    → AllChannels (c ∷ cs)
    → send_chn_list memory (c ∷ cs) ≡ some (some (0 ∷ encode (c ∷ cs)))
unfolding send_chn_list
sent memory c cs sized h =
    rw (write_at-append [] (0 ∷ []) block (omega (arith, sized (1 + entries_size (c ∷ cs))))) (
      ap (λ p. p >>= (λ packet. some (some packet)))
        (write_entries-encode (0 ∷ []) (drop 1 block) (c ∷ cs) h
          (omega (arith, length-drop 1 block, sized (1 + entries_size (c ∷ cs))))))
  where
    block : List ℕ
    block = memory (1 + entries_size (c ∷ cs))

-- With 1 to 200 channels whose descriptions are strings of at most 126 bytes, send_chn_list writes within
-- its block, whatever malloc left there, and sends a packet. A client that has the packet whole at the
-- start of its buffer reads exactly those channels, whatever stands behind the packet.
read-send_chn_list :
    (memory : ℕ → List ℕ) (c : Channel) (cs : List Channel) (stale : List ℕ)
    → ((n : ℕ) → length (memory n) ≡ n)
    → AllChannels (c ∷ cs)
    → length (c ∷ cs) ≤ max_chn
    → (packet : List ℕ) × (send_chn_list memory (c ∷ cs) ≡ some (some packet))
      × (read_chn_list (length packet) (packet ++ stale) ≡ some (c ∷ cs))
read-send_chn_list memory c cs stale sized h few = (
  0 ∷ encode (c ∷ cs),
  sent memory c cs sized h,
  read_list-encode max_chn (0 ∷ []) stale (c ∷ cs) h few,
)

-- If the first of several channels has a description of 127 to 251 bytes, the length in its entry is
-- negative, and send_chn_list writes the next entry in front of its block.
pub send_chn_list-long :
    (memory : ℕ → List ℕ) (c d : Channel) (cs : List Channel)
    → ((n : ℕ) → length (memory n) ≡ n)
    → 127 ≤ length c.descrp
    → length c.descrp ≤ 251
    → send_chn_list memory (c ∷ d ∷ cs) ≡ none
unfolding send_chn_list write_entries entries_size advance
send_chn_list-long memory c d cs sized low high = ground (
  arith,
  write_at-append [] (0 ∷ []) block (omega (arith, size)),
  write_at-append (0 ∷ []) (entry_bytes c) (drop 1 block)
      (omega (arith, size, length-drop 1 block, long)),
  behind,
)
  where
    block : List ℕ
    block = memory (1 + entries_size (c ∷ d ∷ cs))

    size :
        (length block ≡ 1 + entries_size (c ∷ d ∷ cs))
        × (entries_size (c ∷ d ∷ cs) ≡ 2 + (sent_len c + 1) + entries_size (d ∷ cs))
    size = (sized (1 + entries_size (c ∷ d ∷ cs)), refl)

    long : length (entry_bytes c) ≤ 3 + sent_len c
    long = omega (
      arith,
      length-append (take (sent_len c) c.descrp) (0 ∷ []),
      length-take (sent_len c) c.descrp,
    )

    behind : advance 1 ((sent_len c + 1) % 256) ≡ none
    behind = ground (arith)
