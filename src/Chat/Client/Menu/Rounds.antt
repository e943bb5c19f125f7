-- ===== src/Chat/Client/Menu/Rounds.antt =====
-- Each round of the menus of 局域网聊天/client.c takes input, and sends messages that the server accepts.
use learningproject.Common.{
  ℕ, zero, suc, ◌+◌, ◌-◌, ◌<◌, ◌≤◌, ◌≡◌, Bool, true, false, List, [], ◌∷◌, ◌++◌, Option, none, some,
  arith, length, length-append, Option-cases, inl, inr, if◌then◌else◌, ◌==◌,
}
use learningproject.Chat.Text.{utf8, str_eq, padded}
use learningproject.Chat.Text.Laws.{length-padded}
use learningproject.Chat.Wire.{header_size, recv_buf_size}
use learningproject.Chat.Disk.{max_username_len}
use learningproject.Chat.Kind
use learningproject.Chat.Server.Entering.{credentials}
use learningproject.Chat.Client.Menu.{
  read_line, fgets, input_size, max_password_len, Client, Request, Round, again, quit, undefined,
  ask, ask_password, login_round, with_name, request_user, typed,
}

length-read_line : (room : ℕ) (bytes : List ℕ) → length (read_line room bytes).1 ≤ length bytes
unfolding read_line
length-read_line zero bytes = omega arith
length-read_line (suc room) [] = omega arith
length-read_line (suc room) (b ∷ bs) = ground (arith, length-read_line room bs)

-- what is left after `fgets`
abbrev pub Consumes : List ℕ → Option (List ℕ × List ℕ) → Type 0
Consumes stdin none = Unit
Consumes stdin (some (line, rest)) = length rest < length stdin

pub fgets-Consumes : (size : ℕ) (stdin : List ℕ) → 1 < size → Consumes stdin (fgets size stdin)
unfolding fgets read_line
fgets-Consumes size [] h = tt
fgets-Consumes size (b ∷ bs) h =
    let room : size - 1 ≡ suc (size - 2) = omega arith in
    rw room (ground (arith, length-read_line (size - 2) bs))

length-ask : (input stdin : List ℕ) → length (ask input stdin).1 ≤ length stdin
unfolding ask
length-ask input stdin =
    let consumed = fgets-Consumes input_size stdin (omega arith) in
    elim (Option-cases (fgets input_size stdin)) [
      | inl end ↦ rw (end, ask) (omega arith)
      | inr ((line, rest), e) ↦
          rw (e, ask) (let shorter : length rest < length stdin = rw e at consumed in omega arith)
    ]

-- The server accepts a message of this type and body.
abbrev pub IsSmall : Request → Type 0
IsSmall (kind, body) = (kind < 256) × (header_size + length body ≤ recv_buf_size)

abbrev pub AllSmall : List Request → Type 0
AllSmall [] = Unit
AllSmall (r ∷ rs) = IsSmall r × AllSmall rs

pub AllSmall-append : (rs ss : List Request) → AllSmall rs → AllSmall ss → AllSmall (rs ++ ss)
AllSmall-append [] ss h k = k
AllSmall-append (r ∷ rs) ss h k = (h.0, AllSmall-append rs ss h.1 k)

-- no more input is left than there was, and what is sent can be received
abbrev pub IsFine : List ℕ → Round → Type 0
IsFine stdin (again c rest requests) = (length rest ≤ length stdin) × AllSmall requests
IsFine stdin quit = Unit
IsFine stdin undefined = Unit

length-credentials : (name password : List ℕ) → length (credentials name password) ≡ 128
length-credentials name password = omega (
  arith,
  length-append (padded name max_username_len) (padded password max_username_len),
  length-padded name max_username_len,
  length-padded password max_username_len,
)

ask_password-IsFine :
    (kind : ℕ) (name stdin : List ℕ) (c : Client)
    → kind < 256
    → IsFine stdin (ask_password kind name stdin c)
unfolding ask_password
ask_password-IsFine kind name stdin c small =
    let consumed = fgets-Consumes max_password_len stdin (omega arith) in
    elim (Option-cases (fgets max_password_len stdin)) [
      | inl end ↦ rw (end, ask_password) tt
      | inr ((line, rest), e) ↦
          let shorter : length rest < length stdin = rw e at consumed in
          rw (e, ask_password)
            (omega arith, ((small, omega (arith, length-credentials name (typed line))), tt))
    ]

pub if-IsFine :
    (b : Bool) (stdin : List ℕ) (x y : Round)
    → IsFine stdin x
    → IsFine stdin y
    → IsFine stdin (if b then x else y)
if-IsFine true stdin x y h k = h
if-IsFine false stdin x y h k = k

IsFine-mono :
    (rest stdin : List ℕ) (r : Round) → length rest ≤ length stdin → IsFine rest r → IsFine stdin r
IsFine-mono rest stdin (again c left requests) le h = (omega arith, h.1)
IsFine-mono rest stdin quit le h = tt
IsFine-mono rest stdin undefined le h = tt

pub idle-IsFine :
    (rest stdin : List ℕ) (c : Client) → length rest ≤ length stdin → IsFine stdin (again c rest [])
idle-IsFine rest stdin c le = (le, tt)

-- the two first choices of the first menu
account-IsFine :
    (kind : ℕ) (c : Client) (stdin : List ℕ) (asked after : Client)
    → kind < 256
    → let (name, rest) = ask c.input stdin in
      IsFine stdin
        (if length name == 0 then again asked rest [] else ask_password kind name rest after)
account-IsFine kind c stdin asked after small =
    let (name, rest) = ask c.input stdin in
    let le : length (ask c.input stdin).1 ≤ length stdin = length-ask c.input stdin in
    if-IsFine (length name == 0) stdin (again asked rest []) (ask_password kind name rest after)
      (idle-IsFine rest stdin asked le)
      (IsFine-mono rest stdin (ask_password kind name rest after) le
        (ask_password-IsFine kind name rest after small))

pub login_round-IsFine : (c : Client) (stdin : List ℕ) → IsFine stdin (login_round c stdin)
unfolding login_round
login_round-IsFine c stdin =
    if-IsFine (str_eq c.input (utf8 "1")) stdin _ _
      (account-IsFine Kind.register c stdin _ _ (omega arith))
      (if-IsFine (str_eq c.input (utf8 "2")) stdin _ _
        (account-IsFine Kind.login c stdin _ _ (omega arith))
        (if-IsFine (str_eq c.input (utf8 "3")) stdin quit (again c stdin []) tt
          (idle-IsFine stdin stdin c (omega arith))))

pub user-AllSmall : (kind : ℕ) (c : Client) → kind < 256 → AllSmall (request_user kind c)
user-AllSmall kind c small = ((small, omega (arith, length-padded c.input max_username_len)), tt)

pub with_name-IsFine :
    (c : Client) (stdin : List ℕ) (first : List Request) (requests : Client → List Request)
    (change : Client → Client)
    → AllSmall first
    → ((c' : Client) → AllSmall (requests c'))
    → IsFine stdin (with_name c stdin first requests change)
unfolding with_name
with_name-IsFine c stdin first requests change before all =
    let (name, rest) = ask c.input stdin in
    let le : length (ask c.input stdin).1 ≤ length stdin = length-ask c.input stdin in
    if-IsFine (length name == 0) stdin _ _ (le, before)
      (le, AllSmall-append first _ before (all (record c { input = name })))
