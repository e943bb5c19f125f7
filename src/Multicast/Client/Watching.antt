-- ===== src/Multicast/Client/Watching.antt =====
-- A channel that the user chooses is played: main of 流媒体组播/client/client.c, with send_chn_list of
-- 流媒体组播/server/server.c.
use learningproject.Common.{
  take_of_le, take, ℕ, zero, suc, ◌-◌, take, ◌≤◌, ◌≡◌, ◌≢◌, refl, sym, ap, ◌∙◌, Bool, true, false,
  List, [], ◌∷◌, ◌++◌, some, if◌then◌else◌, ◌==◌, leb, length, get_elem?, map, arith, inl, inr,
  Bool-cases,
}
use mathlib.Core.List.{append_assoc, append-nil}
use learningproject.Chat.Text.{utf8, before, str_eq}
use learningproject.Chat.Text.Laws.{eq_of_str_eq}
use learningproject.Multicast.Channels.{Channel, max_chn, send_chn_list}
use learningproject.Multicast.Channels.RoundTrip.{AllChannels, encode, sent, read_list-encode}
use learningproject.Multicast.Player.{no_channel, chn_list_id, on_packet}
use learningproject.Multicast.Client.{
  recv_size, on_received, Client, at_start, digits, atoi, on_receive, choose, on_line, Event,
  packet, line, follow,
}

-- the contents of the packets of a channel
abbrev pub contents : ℕ → List (List ℕ) → List ℕ
contents chnid [] = []
contents chnid ([] ∷ more) = contents chnid more
contents chnid ((k ∷ content) ∷ more) =
    if k == chnid then content ++ contents chnid more else contents chnid more

abbrev pub arriving : List ℕ → Event
arriving bytes = packet bytes [] false

-- what recvfrom puts into the buffer
abbrev pub received : List ℕ → List ℕ
received bytes = take recv_size bytes

-- the client that plays a channel
abbrev pub watching : ℕ → List ℕ → List Channel → Client
watching chnid heard channels = record {
  player = record { current_chnid = chnid; piped = true; heard = heard };
  valid_chns = channels;
  list_received = true;
}

take_none : (n : ℕ) → take {A = ℕ} n [] ≡ []
take_none zero = refl
take_none (suc n) = refl

-- a packet that has been cut to the buffer
on_received-watching :
    (cut heard : List ℕ) (chnid : ℕ) (channels : List Channel)
    → chnid ≢ chn_list_id
    → chnid ≢ no_channel
    → on_received cut [] false (watching chnid heard channels)
      ≡ some (watching chnid (heard ++ contents chnid (cut ∷ [])) channels)
unfolding on_received on_packet
on_received-watching [] heard chnid channels list none_such = rw (append-nil heard) refl
on_received-watching (k ∷ []) heard chnid channels list none_such =
    ground (arith, append-nil heard, Bool-cases (k == chnid))
on_received-watching (k ∷ b ∷ bs) heard chnid channels list none_such =
    ground (arith, append-nil heard, append-nil (b ∷ bs), Bool-cases (k == chnid))

on_receive-watching :
    (bytes heard : List ℕ) (chnid : ℕ) (channels : List Channel)
    → chnid ≢ chn_list_id
    → chnid ≢ no_channel
    → on_receive bytes [] false (watching chnid heard channels)
      ≡ some (watching chnid (heard ++ contents chnid (take recv_size bytes ∷ [])) channels)
unfolding on_receive
on_receive-watching bytes heard chnid channels list none_such =
    rw (take_none (recv_size - length bytes))
      (on_received-watching (take recv_size bytes) heard chnid channels list none_such)

contents-more :
    (chnid : ℕ) (cut : List ℕ) (more : List (List ℕ))
    → contents chnid (cut ∷ more) ≡ contents chnid (cut ∷ []) ++ contents chnid more
contents-more chnid [] more = refl
contents-more chnid (k ∷ content) more = ground (arith, append-nil content, Bool-cases (k == chnid))

follow-packet :
    (bytes stale : List ℕ) (epipe : Bool) (events : List Event) (c c' : Client)
    → on_receive bytes stale epipe c ≡ some c'
    → follow (packet bytes stale epipe ∷ events) c ≡ follow events c'
unfolding follow
follow-packet bytes stale epipe events c c' e = rw (e, follow) refl

follow-line :
    (text : List ℕ) (events : List Event) (c c' : Client)
    → on_line text c ≡ some c'
    → follow (line text ∷ events) c ≡ follow events c'
unfolding follow
follow-line text events c c' e = rw (e, follow) refl

follow-arriving :
    (packets : List (List ℕ)) (chnid : ℕ) (heard : List ℕ) (channels : List Channel)
    → chnid ≢ chn_list_id
    → chnid ≢ no_channel
    → follow (map arriving packets) (watching chnid heard channels)
      ≡ some (true, watching chnid (heard ++ contents chnid (map received packets)) channels)
unfolding follow
follow-arriving [] chnid heard channels list none_such = rw (append-nil heard) refl
follow-arriving (bytes ∷ more) chnid heard channels list none_such =
    let now = contents chnid (take recv_size bytes ∷ []) in
    let later = contents chnid (map received more) in
    rw (on_receive-watching bytes heard chnid channels list none_such, follow)
      (follow-arriving more chnid (heard ++ now) channels list none_such
        ∙ rw
            (
              append_assoc heard now later,
              contents-more chnid (take recv_size bytes) (map received more),
            )
            refl)

length-encode : (c : Channel) (cs : List Channel) → leb (length (0 ∷ encode (c ∷ cs))) 1 ≡ false
unfolding encode
length-encode c cs = ground arith

on_received-list :
    (c : Channel) (cs : List Channel) (stale : List ℕ)
    → AllChannels (c ∷ cs)
    → length (c ∷ cs) ≤ max_chn
    → on_received (0 ∷ encode (c ∷ cs)) stale false at_start
      ≡ some (record at_start { valid_chns = c ∷ cs; list_received = true })
unfolding on_received
on_received-list c cs stale all few =
    rw (length-encode c cs, read_list-encode max_chn (0 ∷ []) stale (c ∷ cs) all few) refl

on_receive-list :
    (c : Channel) (cs : List Channel) (stale : List ℕ)
    → AllChannels (c ∷ cs)
    → length (c ∷ cs) ≤ max_chn
    → length (0 ∷ encode (c ∷ cs)) ≤ recv_size
    → on_receive (0 ∷ encode (c ∷ cs)) stale false at_start
      ≡ some (record at_start { valid_chns = c ∷ cs; list_received = true })
unfolding on_receive
on_receive-list c cs stale all few fits =
    let behind = take (recv_size - length (0 ∷ encode (c ∷ cs))) stale in
    ap (λ bytes. on_received bytes behind false at_start) (take_of_le recv_size _ fits)
    ∙ on_received-list c cs behind all few

-- A number is not the word that ends the program.
not_word :
    (text word : List ℕ) (k : ℕ) → atoi text ≡ suc k → atoi word ≡ 0 → str_eq text word ≡ false
not_word text word k number none_there = elim (Bool-cases (str_eq text word)) [
  | inr other ↦ other
  | inl same ↦ absurd (
      let no : suc k ≡ 0 = sym number ∙ ap atoi (eq_of_str_eq text word same) ∙ none_there in
      omega (arith, no))
]

words : (atoi (utf8 "q") ≡ 0) × (atoi (utf8 "quit") ≡ 0)
unfolding atoi digits
words = (refl, refl)

on_line-choice :
    (text : List ℕ) (k : ℕ) (d : Channel) (channels : List Channel)
    → atoi (before 0 (before 10 text)) ≡ suc k
    → get_elem? channels k ≡ some d
    → d.chnid ≢ no_channel
    → on_line text (record at_start { valid_chns = channels; list_received = true })
      ≡ some (watching d.chnid [] channels)
unfolding on_line choose
on_line-choice text k d channels number there some_such =
    let input = before 0 (before 10 text) in
    let not_q = not_word input (utf8 "q") k number words.0 in
    let not_quit = not_word input (utf8 "quit") k number words.1 in
    ground (arith, not_q, not_quit, number, there)

-- The server sends the list of 1 to 200 channels, whose descriptions have at most 126 bytes, in a packet of
-- at most 8,202 bytes. A client that starts gets this packet, and then the user types a line with the number
-- of a place in the list, from 1 on. Of all packets that follow, whatever they are, the player of the client
-- is given the contents of those of the channel at that place, in their order, and nothing else, as long as
-- the player does not end. Of a packet with more than 8,202 bytes these are the first, since the client
-- receives no more.
pub follow-choice :
    (memory : ℕ → List ℕ) (c : Channel) (cs : List Channel) (stale text : List ℕ) (k : ℕ)
    (d : Channel) (packets : List (List ℕ))
    → ((n : ℕ) → length (memory n) ≡ n)
    → AllChannels (c ∷ cs)
    → length (c ∷ cs) ≤ max_chn
    → length (0 ∷ encode (c ∷ cs)) ≤ recv_size
    → atoi (before 0 (before 10 text)) ≡ suc k
    → get_elem? (c ∷ cs) k ≡ some d
    → d.chnid ≢ chn_list_id
    → d.chnid ≢ no_channel
    → (bytes : List ℕ) × (send_chn_list memory (c ∷ cs) ≡ some (some bytes))
      × (follow (packet bytes stale false ∷ line text ∷ map arriving packets) at_start
          ≡ some (true, watching d.chnid (contents d.chnid (map received packets)) (c ∷ cs)))
follow-choice memory c cs stale text k d packets sized all few fits number there list some_such =
    let listed = record at_start { valid_chns = c ∷ cs; list_received = true } in
    let plays = map arriving packets in
    (
      0 ∷ encode (c ∷ cs),
      sent memory c cs sized all,
      follow-packet (0 ∷ encode (c ∷ cs)) stale false (line text ∷ plays) at_start listed
            (on_receive-list c cs stale all few fits)
          ∙ follow-line text plays listed (watching d.chnid [] (c ∷ cs))
              (on_line-choice text k d (c ∷ cs) number there some_such)
          ∙ follow-arriving packets d.chnid [] (c ∷ cs) list some_such,
    )
