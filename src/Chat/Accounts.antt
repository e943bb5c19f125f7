-- ===== src/Chat/Accounts.antt =====
-- Accounts: user_exists, store_user and authenticate_user of 局域网聊天/server_tool.c, on users.txt.
-- A line of the file is `name:hash`. What store_user prints is left out.
pub mod Book
mod Lines
pub mod Login
pub mod Twice
pub mod Limits
use learningproject.Common.{
  ℕ, ◌+◌, Bool, true, false, ◌&&◌, ◌||◌, List, [], ◌∷◌, ◌++◌, Option, none, some, if◌then◌else◌,
  ◌==◌, leb, length, take, drop,
}
use learningproject.Chat.Text.{str_eq, before, simple_hash, utf8}
use learningproject.Chat.Disk.{
  Disk, find, text_of, append_text, create, fgets_all, some_line, users_path, friends_path,
  groups_path,
}

-- `sscanf(line, "%63[^:]", u)`: 63 bytes at most, up to a colon. It is 1 if there is one.
pub scan_name : List ℕ → Option (List ℕ)
scan_name line = let u = take 63 (before b':' line) in if length u == 0 then none else some u

is_space : ℕ → Bool
is_space c = c == 32 || (leb 9 c && leb c 13)

skip_space : List ℕ → List ℕ
skip_space [] = []
skip_space (c ∷ cs) = let rest = skip_space cs in if is_space c then rest else c ∷ cs

word : List ℕ → List ℕ
word [] = []
word (c ∷ cs) = if is_space c then [] else c ∷ word cs

-- `%63s`
scan_word : List ℕ → Option (List ℕ)
scan_word text = let w = take 63 (word (skip_space text)) in if length w == 0 then none else some w

-- the colon of the format, and `%63s`
pub scan_hash : List ℕ → Option (List ℕ)
scan_hash [] = none
scan_hash (c ∷ rest) = if c == b':' then scan_word rest else none

-- `sscanf(line, "%63[^:]:%63s", u, h) == 2`, and both compare equal
pub account_matches : List ℕ → List ℕ → List ℕ → Bool
account_matches username hash line = elim (scan_name line) [
  | none ↦ false
  | some u ↦ elim (scan_hash (drop (length u) line)) [
    | none ↦ false
    | some h ↦ str_eq u username && str_eq h hash
  ]
]

pub name_matches : List ℕ → List ℕ → Bool
name_matches username line = elim (scan_name line) [ none ↦ false | some u ↦ str_eq u username ]

pub user_exists : List ℕ → Disk → Bool
user_exists username d = elim (text_of users_path d) [
  | none ↦ false
  | some text ↦ some_line (name_matches username) (fgets_all 256 text)
]

pub store_user : List ℕ → List ℕ → Disk → Disk
store_user username password d =
    let d₁ = append_text users_path (username ++ b':' ∷ simple_hash password ++ 10 ∷ []) d in
    let d₂ = create (friends_path username) d₁ in create (groups_path username) d₂

pub authenticate_user : List ℕ → List ℕ → Disk → Bool
authenticate_user username password d = elim (text_of users_path d) [
  | none ↦ false
  | some text ↦ some_line (account_matches username (simple_hash password)) (fgets_all 256 text)
]
