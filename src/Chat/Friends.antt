-- ===== src/Chat/Friends.antt =====
-- Friends: is_friend, add_friend_both, remove_friend_both and load_friend_list of
-- 局域网聊天/server_tool.c. Each user has a file with a friend's name on each line.
pub mod Laws
pub mod Removing
pub mod Loading
use learningproject.Common.{
  ℕ, ◌+◌, Bool, true, false, List, [], ◌∷◌, ◌++◌, Option, none, some, ◌>>=◌, if◌then◌else◌, ◌==◌,
  leb, ltb, length,
}
use learningproject.Chat.Text.{str_eq, before}
use learningproject.Chat.Disk.{
  Disk, find, text_of, append_text, drop_line, lines_of, fgets_all, some_line, friends_path,
  max_username_len,
}

unfoldable pub is_friend : List ℕ → List ℕ → Disk → Bool
is_friend user target d = elim (text_of (friends_path user) d) [
  | none ↦ false
  | some text ↦ some_line (λ line. str_eq line target) (lines_of max_username_len text)
]

unfoldable pub add_friend_both : List ℕ → List ℕ → Disk → Disk
add_friend_both a b d =
    let d' = append_text (friends_path a) (b ++ 10 ∷ []) d in
    append_text (friends_path b) (a ++ 10 ∷ []) d'

pub remove_friend_both : List ℕ → List ℕ → Disk → Disk
remove_friend_both a b d =
    let d' = drop_line (friends_path a) max_username_len b d in
    drop_line (friends_path b) max_username_len a d'

-- MAX_FRIENDS of server_tool.h
abbrev pub max_friends : ℕ
max_friends = 200

-- The loop of load_friend_list and load_group_list over the lines that `fgets` returns, into an array of
-- `room` places, of which `count` are used: an empty line is skipped, and a line is stored before the
-- test of `count`, so with the array full it is stored behind the array (`none`).
unfoldable pub load_from : ℕ → ℕ → List (List ℕ) → Option (List (List ℕ))
load_from room count [] = some []
load_from room count (l ∷ ls) =
    let name = before 10 l in
    let blank = length name == 0 in
    let rest = load_from room (if blank then count else count + 1) ls in
    if leb room count then none else if blank then rest else (do names ← rest; some (name ∷ names))

pub load_friend_list : List ℕ → Disk → Option (List (List ℕ))
load_friend_list username d = elim (text_of (friends_path username) d) [
  | none ↦ some []
  | some text ↦ load_from max_friends 0 (fgets_all max_username_len text)
]
