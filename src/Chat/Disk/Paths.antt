-- ===== src/Chat/Disk/Paths.antt =====
-- Files by their paths: what each call of 局域网聊天/server_tool.c changes, and that it changes no other.
use mathlib.Core.List.{append_cancel_right}
use learningproject.Common.{
  Option-cases, ◌≤◌, take_of_le, length-append, length-take, length, ℕ, ◌≡◌, ◌≢◌, refl, sym, ap,
  ◌∙◌, true, List, [], ◌∷◌, ◌++◌, none, some, arith, inl, inr, if◌then◌else◌,
}
use learningproject.Chat.Text.{str_eq, utf8}
use learningproject.Chat.Text.Laws.{str_eq_iff, str_eq_self, str_eq_ne}
use learningproject.Chat.Disk.{
  print_without, users_path, groups_path, friends_path, Disk, find, put, delete, text_of, or_empty,
  append_text, write_text, create, rename, drop_line, lines_of,
}
use learningproject.Chat.Disk.Lines.{
  print_lines, without, AllFit, lines_of-print_lines, print_without-lem,
}

pub find-put :
    (p q text : List ℕ) (fs : List (List ℕ × List ℕ))
    → find q (put p text fs) ≡ (if str_eq p q then some text else find q fs)
unfolding find put
find-put p q text [] = refl
find-put p q text ((r, old) ∷ fs) =
    ground (arith, str_eq_iff r p, str_eq_iff r q, str_eq_iff p q, find-put p q text fs)

pub find-delete :
    (p q : List ℕ) (fs : List (List ℕ × List ℕ))
    → find q (delete p fs) ≡ (if str_eq p q then none else find q fs)
unfolding find delete
find-delete p q [] = ground arith
find-delete p q ((r, old) ∷ fs) =
    ground (arith, str_eq_iff r p, str_eq_iff r q, str_eq_iff p q, find-delete p q fs)

pub text_of-append_text :
    (p q text : List ℕ) (d : Disk)
    → d.may_write p ≡ true
    → text_of q (append_text p text d)
      ≡ (if str_eq p q then some (or_empty (text_of p d) ++ text) else text_of q d)
unfolding append_text
text_of-append_text p q text d w = rw w (find-put p q (or_empty (find p d.files) ++ text) d.files)

-- `drop_line` on a file of names: the file holds the other names, and no other file than the temporary
-- one changes, which is gone.
pub drop_line_lem :
    (p q victim : List ℕ) (size : ℕ) (names : List (List ℕ)) (d : Disk)
    → d.may_write (p ++ utf8 ".tmp") ≡ true
    → AllFit size names
    → text_of p d ≡ some (print_lines names)
    → text_of q (drop_line p size victim d) ≡ (
        if str_eq p q
        then some (print_lines (without victim names))
        else if str_eq (p ++ utf8 ".tmp") q
        then none
        else text_of q d)
unfolding drop_line rename write_text
drop_line_lem p q victim size names d w fit e = ground (
  arith,
  w,
  e,
  lines_of-print_lines size names fit,
  print_without-lem victim names,
  find-put temp temp text d.files,
  find-put p q text (delete temp (put temp text d.files)),
  find-delete temp q (put temp text d.files),
  find-put temp q text d.files,
  str_eq_self temp,
)
  where
    temp : List ℕ
    temp = p ++ utf8 ".tmp"

    text : List ℕ
    text = print_lines (without victim names)

-- `create` changes no text, and the text of no other path.
pub text_of-create_ne : (p q : List ℕ) (d : Disk) → p ≢ q → text_of q (create p d) ≡ text_of q d
unfolding create
text_of-create_ne p q d ne =
    ground (arith, find-put p q (or_empty (find p d.files)) d.files, str_eq_iff p q)

pub ne_of_length : (p q : List ℕ) → length p ≢ length q → p ≢ q
ne_of_length p q ne e = ne (ap length e)

-- Paths that end in `_friends.txt` or `_groups.txt` are no `users.txt`.
pub friends-ne-users : (u : List ℕ) → friends_path u ≢ users_path
friends-ne-users u = ne_of_length (friends_path u) users_path (
    omega
      (arith, length-take 127 (u ++ utf8 "_friends.txt"), length-append u (utf8 "_friends.txt")))

pub groups-ne-users : (u : List ℕ) → groups_path u ≢ users_path
groups-ne-users u =
    ne_of_length (groups_path u) users_path (
      omega
        (arith, length-take 127 (u ++ utf8 "_groups.txt"), length-append u (utf8 "_groups.txt")))

-- the last byte of a text
last_byte : ℕ → List ℕ → ℕ
last_byte b [] = b
last_byte b (c ∷ cs) = last_byte c cs

last_byte-append : (b c : ℕ) (xs ys : List ℕ) → last_byte b (xs ++ c ∷ ys) ≡ last_byte c ys
unfolding last_byte
last_byte-append b c [] ys = refl
last_byte-append b c (x ∷ xs) ys = last_byte-append x c xs ys

-- A user name that leaves room for the longest suffix in a path of 127 bytes.
abbrev pub IsShort : List ℕ → Type 0
IsShort u = length u ≤ 115

friends_path-short : (u : List ℕ) → IsShort u → friends_path u ≡ u ++ utf8 "_friends.txt"
friends_path-short u h =
    take_of_le 127 (u ++ utf8 "_friends.txt") (omega (arith, length-append u (utf8 "_friends.txt")))

-- Different users have different files.
pub friends_path-ne :
    (a b : List ℕ) → IsShort a → IsShort b → a ≢ b → friends_path a ≢ friends_path b
friends_path-ne a b ha hb ne e = ne (
    append_cancel_right a b (utf8 "_friends.txt")
      (sym (friends_path-short a ha) ∙ e ∙ friends_path-short b hb))

-- The temporary file of one user is no other user's file.
pub temp-ne-friends : (p b : List ℕ) → IsShort b → p ++ utf8 ".tmp" ≢ friends_path b
unfolding last_byte
temp-ne-friends p b hb e = absurd (
    omega (
      arith,
      ap (last_byte 0) (e ∙ friends_path-short b hb),
      last_byte-append 0 b'.' p (utf8 "tmp"),
      last_byte-append 0 b'_' b (utf8 "friends.txt"),
    ))

-- `create` leaves each text, and a missing file counts as an empty one.
pub or_empty-create :
    (p q : List ℕ) (d : Disk) → or_empty (text_of q (create p d)) ≡ or_empty (text_of q d)
unfolding create
or_empty-create p q d =
    ground (arith, find-put p q (or_empty (find p d.files)) d.files, str_eq_iff p q)

-- `drop_line` touches no file but its own and the temporary one.
pub drop_line-frame :
    (p q victim : List ℕ) (size : ℕ) (d : Disk)
    → p ≢ q
    → p ++ utf8 ".tmp" ≢ q
    → text_of q (drop_line p size victim d) ≡ text_of q d
unfolding drop_line rename write_text
drop_line-frame p q victim size d ne ne' = elim (Option-cases (find p d.files)) [
  | inl missing ↦ rw (missing, drop_line) refl
  | inr (text, found) ↦ elim (Option-cases (find temp d.files)) [
    | inl no_temp ↦ ground (
      arith,
      found,
      no_temp,
      str_eq_self temp,
      str_eq_ne p q ne,
      str_eq_ne temp q ne',
      find-put temp temp (new text) d.files,
      find-put temp q (new text) d.files,
      find-put p q (new text) (delete temp (put temp (new text) d.files)),
      find-delete temp q (put temp (new text) d.files),
    )
    | inr (old, was) ↦ ground (
      arith,
      found,
      was,
      str_eq_self temp,
      str_eq_ne p q ne,
      str_eq_ne temp q ne',
      find-put temp temp (new text) d.files,
      find-put temp q (new text) d.files,
      find-put p q (new text) (delete temp (put temp (new text) d.files)),
      find-delete temp q (put temp (new text) d.files),
      stale old,
    )
  ]
]
  where
    temp : List ℕ
    temp = p ++ utf8 ".tmp"

    new : List ℕ → List ℕ
    new text = print_without victim (lines_of size text)

    stale : (text : List ℕ) → find q (put p text (delete temp d.files)) ≡ find q d.files
    stale text =
        find-put p q text (delete temp d.files)
        ∙ rw (str_eq_ne p q ne) (find-delete temp q d.files ∙ rw (str_eq_ne temp q ne') refl)
