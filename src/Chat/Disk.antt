-- ===== src/Chat/Disk.antt =====
-- The text files of the chat server, and the C library calls on them that 局域网聊天/server_tool.c makes
-- under `file_io_mutex`: fopen, fgets, fprintf, rename, access.
-- A file is its bytes. `may_write` says which paths can be opened for writing. A file that exists can be
-- read; no text holds a byte 0, since all is printed from C strings.
pub mod Lines
pub mod Paths
use learningproject.Common.{
  ℕ, ◌+◌, ◌-◌, Bool, true, false, not, ◌||◌, List, [], ◌∷◌, ◌++◌, Option, none, some, if◌then◌else◌,
  ◌==◌, leb, map, take,
}
use learningproject.Chat.Text.{str_eq, before, utf8}

pub record Disk : Type 0 where
  pub files : List (List ℕ × List ℕ)
  pub may_write : List ℕ → Bool

unfoldable pub find : List ℕ → List (List ℕ × List ℕ) → Option (List ℕ)
find path [] = none
find path ((p, text) ∷ fs) = if str_eq p path then some text else find path fs

unfoldable pub put : List ℕ → List ℕ → List (List ℕ × List ℕ) → List (List ℕ × List ℕ)
put path text [] = (path, text) ∷ []
put path text ((p, old) ∷ fs) =
    if str_eq p path then (p, text) ∷ fs else (p, old) ∷ put path text fs

unfoldable pub delete : List ℕ → List (List ℕ × List ℕ) → List (List ℕ × List ℕ)
delete path [] = []
delete path ((p, old) ∷ fs) =
    let rest = delete path fs in if str_eq p path then rest else (p, old) ∷ rest

-- `fopen(path, "r")`: the text that is read, or NULL
abbrev pub text_of : List ℕ → Disk → Option (List ℕ)
text_of path d = find path d.files

-- the text of a file, that is empty if there is none
abbrev pub or_empty : Option (List ℕ) → List ℕ
or_empty none = []
or_empty (some text) = text

-- `fopen(path, "a")`, and if that succeeds `fprintf` and `fclose`
unfoldable pub append_text : List ℕ → List ℕ → Disk → Disk
append_text path text d =
    if d.may_write path
    then record d { files = put path (or_empty (find path d.files) ++ text) d.files }
    else d

-- the same with "w"
unfoldable pub write_text : List ℕ → List ℕ → Disk → Disk
write_text path text d = if d.may_write path then record d { files = put path text d.files } else d

-- `close(open(path, O_CREAT | O_WRONLY, 0644))`
unfoldable pub create : List ℕ → Disk → Disk
create path d =
    if d.may_write path
    then record d { files = put path (or_empty (find path d.files)) d.files }
    else d

-- `rename` fails if there is no such file.
unfoldable pub rename : List ℕ → List ℕ → Disk → Disk
rename old new d = elim (find old d.files) [
  | none ↦ d
  | some text ↦ record d { files = put new text (delete old d.files) }
]

-- one more byte in front of what `fgets` returns next
abbrev pub extend : ℕ → List (List ℕ) → List (List ℕ)
extend b [] = (b ∷ []) ∷ []
extend b (c ∷ cs) = (b ∷ c) ∷ cs

-- The results of `fgets` up to the end of the file, with `full` bytes at most in each and `room` left in
-- the present one.
unfoldable pub fgets_from : ℕ → ℕ → List ℕ → List (List ℕ)
fgets_from full room [] = []
fgets_from full room (b ∷ bs) =
    let last = b == 10 || leb room 1 in
    let rest = fgets_from full (if last then full else room - 1) bs in
    if last then (b ∷ []) ∷ rest else extend b rest

-- `while (fgets(line, size, f))`
abbrev pub fgets_all : ℕ → List ℕ → List (List ℕ)
fgets_all size text = fgets_from (size - 1) (size - 1) text

-- the same, where each result loses its newline by `line[strcspn(line, "\n")] = 0`
abbrev pub lines_of : ℕ → List ℕ → List (List ℕ)
lines_of size text = map (before 10) (fgets_all size text)

-- a loop that stops at the first line with a property
unfoldable pub some_line : (List ℕ → Bool) → List (List ℕ) → Bool
some_line p [] = false
some_line p (l ∷ ls) = p l || some_line p ls

-- MAX_USERNAME_LEN, MAX_GROUP_NAME_LEN
abbrev pub max_username_len : ℕ
max_username_len = 64

abbrev pub max_group_name_len : ℕ
max_group_name_len = 32

-- `snprintf(path, 128, …)` keeps 127 bytes; that of `temp` has room for all.
abbrev pub clip : List ℕ → List ℕ
clip path = take 127 path

abbrev pub users_path : List ℕ
users_path = utf8 "users.txt"

abbrev pub friends_path : List ℕ → List ℕ
friends_path user = clip (user ++ utf8 "_friends.txt")

abbrev pub groups_path : List ℕ → List ℕ
groups_path user = clip (user ++ utf8 "_groups.txt")

abbrev pub group_path : List ℕ → List ℕ
group_path group = clip (utf8 "group_" ++ group ++ utf8 ".txt")

-- the lines other than `victim`, each with a newline
unfoldable pub print_without : List ℕ → List (List ℕ) → List ℕ
print_without victim [] = []
print_without victim (l ∷ ls) =
    (if str_eq l victim then [] else l ++ 10 ∷ []) ++ print_without victim ls

-- The block that remove_friend_both and leave_group have twice each: copy the file at `path` without the
-- lines that are `victim`, through a temporary file, that is then renamed.
unfoldable pub drop_line : List ℕ → ℕ → List ℕ → Disk → Disk
drop_line path size victim d = elim (find path d.files) [
  | none ↦ d
  | some text ↦
      let temp = path ++ utf8 ".tmp" in
      rename temp path (write_text temp (print_without victim (lines_of size text)) d)
]
