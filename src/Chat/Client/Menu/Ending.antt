-- ===== src/Chat/Client/Menu/Ending.antt =====
-- The client comes to its end with the terminal's input: main of 局域网聊天/client.c.
use learningproject.Common.{
  ℕ, zero, suc, ◌+◌, ◌-◌, ◌*◌, ◌<◌, ◌≤◌, ◌≡◌, refl, List, [], ◌∷◌, some, arith, length,
}
use learningproject.Chat.Client.Menu.{
  read_line, read_line, fgets, input_size, Mode, logging_in, menu, private_chat, group_chat, Client,
  Request, Round, again, quit, undefined, act, at_eof, round, Session, running, broken, over,
  behind, main, typed,
}
use learningproject.Chat.Client.Menu.Actions.{act-IsFine}
use learningproject.Chat.Client.Menu.Rounds.{fgets-Consumes, AllSmall, AllSmall-append, IsFine}

-- the round that leaves the first loop at the end of the input
abbrev pub to_leave : Mode → ℕ
to_leave logging_in = 1
to_leave _ = 0

-- what a round promises of the loop's measure, and of what is sent
abbrev Advances : Client → List ℕ → Round → Type 0
Advances c stdin (again c' rest requests) =
    (2 * length rest + to_leave c'.mode < 2 * length stdin + to_leave c.mode) × AllSmall requests
Advances c stdin quit = Unit
Advances c stdin undefined = Unit

to_leave_le : (mode : Mode) → to_leave mode ≤ 1
to_leave_le logging_in = omega arith
to_leave_le menu = omega arith
to_leave_le private_chat = omega arith
to_leave_le group_chat = omega arith

fine-Advances :
    (c : Client) (stdin rest : List ℕ) (r : Round)
    → length rest < length stdin
    → IsFine rest r
    → Advances c stdin r
fine-Advances c stdin rest (again c' left requests) lt h =
    (omega (arith, to_leave_le c'.mode, h.0), h.1)
fine-Advances c stdin rest quit lt h = tt
fine-Advances c stdin rest undefined lt h = tt

fgets-cons : (size b : ℕ) (bs : List ℕ) → fgets size (b ∷ bs) ≡ some (read_line (size - 1) (b ∷ bs))
unfolding fgets
fgets-cons size b bs = refl

-- The fuel was enough, and the server accepts each message that was sent.
abbrev pub IsSettled : Session → Type 0
IsSettled running = ⊥
IsSettled broken = Unit
IsSettled (over sent) = AllSmall sent

behind-IsSettled :
    (requests : List Request) (s : Session)
    → AllSmall requests
    → IsSettled s
    → IsSettled (behind requests s)
behind-IsSettled requests running small h = h
behind-IsSettled requests broken small h = tt
behind-IsSettled requests (over more) small h = AllSmall-append requests more small h

module _ (stack : ℕ → List ℕ) (whole : (n : ℕ) → length (stack n) ≡ n) where
  at_eof-Advances :
      (mode : Mode) (c : Client) → c.mode ≡ mode → Advances c [] (at_eof stack mode c [])
  unfolding at_eof
  at_eof-Advances logging_in c e = rw e (omega arith, tt)
  at_eof-Advances menu c e = tt
  at_eof-Advances private_chat c e = tt
  at_eof-Advances group_chat c e = tt

  round_nil : (c : Client) → Advances c [] (round stack c [])
  unfolding round fgets
  round_nil c = at_eof-Advances c.mode c refl

  round_cons : (c : Client) (b : ℕ) (bs : List ℕ) → Advances c (b ∷ bs) (round stack c (b ∷ bs))
  unfolding round
  round_cons c b bs =
      let (line, rest) = read_line (input_size - 1) (b ∷ bs) in
      let got : fgets input_size (b ∷ bs) ≡ some (line, rest) = fgets-cons input_size b bs in
      let consumed = fgets-Consumes input_size (b ∷ bs) (omega arith) in
      let shorter : length rest < length (b ∷ bs) = rw got at consumed in
      let next = record c { input = typed line } in
      let fine =
        fine-Advances c (b ∷ bs) rest (act stack c.mode next rest) shorter
          (act-IsFine stack whole c.mode next rest) in
      rw (got, round) fine

  round-Advances : (c : Client) (stdin : List ℕ) → Advances c stdin (round stack c stdin)
  round-Advances c [] = round_nil c
  round-Advances c (b ∷ bs) = round_cons c b bs

  -- The terminal's input may be any bytes. Within two rounds for each of them, and one or two more, the
  -- program comes to its end, and each message that it has sent has a type of one byte and a size that the
  -- server accepts; or it comes to a password that is not there, whose array it reads unwritten.
  pub main-IsSettled :
      (fuel : ℕ) (c : Client) (stdin : List ℕ)
      → 2 * length stdin + to_leave c.mode < fuel
      → IsSettled (main stack fuel c stdin)
  unfolding main
  main-IsSettled zero c stdin h = elim h [ ]
  main-IsSettled (suc fuel) c stdin h =
      goes_on (round stack c stdin) refl (round-Advances c stdin)
        (λ c' rest less. main-IsSettled fuel c' rest less)
    where
      goes_on :
          (r : Round)
          → round stack c stdin ≡ r
          → Advances c stdin r
          → ((c' : Client) (rest : List ℕ)
              → 2 * length rest + to_leave c'.mode < fuel
              → IsSettled (main stack fuel c' rest))
          → IsSettled (main stack (suc fuel) c stdin)
      goes_on quit e advances later = rw (e, main) tt
      goes_on undefined e advances later = rw (e, main) tt
      goes_on (again c' rest requests) e advances later =
          let settled = later c' rest (omega (arith, h, advances.0)) in
          rw (e, main) (behind-IsSettled requests (main stack fuel c' rest) advances.1 settled)
