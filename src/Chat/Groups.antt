-- ===== src/Chat/Groups.antt =====
-- Groups: group_exists, create_group, join_group, leave_group, is_in_group and load_group_list of
-- 局域网聊天/server_tool.c. A group has a file of its members, the creator first; a user has one of
-- groups.
pub mod Laws
use learningproject.Common.{Bool, true, false, ℕ, List, [], ◌∷◌, ◌++◌, Option, none, some}
use learningproject.Chat.Text.{str_eq}
use learningproject.Chat.Disk.{
  Disk, find, text_of, append_text, write_text, drop_line, lines_of, fgets_all, some_line,
  groups_path, group_path, max_username_len, max_group_name_len,
}
use learningproject.Chat.Friends.{load_from}

-- MAX_GROUPS of server_tool.h
abbrev pub max_groups : ℕ
max_groups = 50

-- `access(path, F_OK) == 0`
pub group_exists : List ℕ → Disk → Bool
group_exists groupname d = elim (text_of (group_path groupname) d) [
  | none ↦ false
  | some text ↦ true
]

pub create_group : List ℕ → List ℕ → Disk → Disk
create_group groupname creator d =
    let d' = write_text (group_path groupname) (creator ++ 10 ∷ []) d in
    append_text (groups_path creator) (groupname ++ 10 ∷ []) d'

pub join_group : List ℕ → List ℕ → Disk → Disk
join_group groupname username d =
    let d' = append_text (group_path groupname) (username ++ 10 ∷ []) d in
    append_text (groups_path username) (groupname ++ 10 ∷ []) d'

pub leave_group : List ℕ → List ℕ → Disk → Disk
leave_group groupname username d =
    let d' = drop_line (group_path groupname) max_username_len username d in
    drop_line (groups_path username) max_group_name_len groupname d'

pub is_in_group : List ℕ → List ℕ → Disk → Bool
is_in_group groupname username d = elim (text_of (group_path groupname) d) [
  | none ↦ false
  | some text ↦ some_line (λ line. str_eq line username) (lines_of max_username_len text)
]

pub load_group_list : List ℕ → Disk → Option (List (List ℕ))
load_group_list username d = elim (text_of (groups_path username) d) [
  | none ↦ some []
  | some text ↦ load_from max_groups 0 (fgets_all max_group_name_len text)
]
