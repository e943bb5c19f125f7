-- ===== src/Chat/Friends/Laws.antt =====
-- Friendship through the files: 局域网聊天/server_tool.c, is_friend, add_friend_both, remove_friend_both.
use learningproject.Common.{
  ℕ, ◌+◌, ◌≤◌, ◌≡◌, ◌≢◌, refl, sym, ap, ◌∙◌, Bool, true, List, [], ◌∷◌, ◌++◌, some, arith, length,
}
use learningproject.Chat.Text.{str_eq}
use learningproject.Chat.Text.Laws.{Without, str_eq_self, str_eq_ne}
use learningproject.Chat.Disk.{
  Disk, text_of, append_text, some_line, friends_path, max_username_len,
}
use learningproject.Chat.Disk.Lines.{
  print_lines, AllFit, lines_of-print_lines, print_lines-append, some_line-append, AllFit-append,
}
use learningproject.Chat.Disk.Paths.{text_of-append_text, IsShort, friends_path-ne}
use learningproject.Chat.Friends.{is_friend, add_friend_both}

-- A user's file holds these names, each of at most 62 bytes.
pub record HoldsFriends (u : List ℕ) (names : List (List ℕ)) (d : Disk) : Type 0 where
  pub text : text_of (friends_path u) d ≡ some (print_lines names)
  pub fit : AllFit max_username_len names
  pub short : IsShort u

-- whether a name is among them
abbrev pub among : List ℕ → List (List ℕ) → Bool
among t names = some_line (λ l. str_eq l t) names

-- `is_friend` says whether the name is in the file.
pub is_friend-among :
    (u t : List ℕ) (names : List (List ℕ)) (d : Disk)
    → HoldsFriends u names d
    → is_friend u t d ≡ among t names
unfolding is_friend
is_friend-among u t names d h =
    rw (h.text, is_friend) (ap (among t) (lines_of-print_lines max_username_len names h.fit))

-- A name that a file of names can hold.
abbrev pub Fits : List ℕ → Type 0
Fits n = Without 10 n × (length n + 2 ≤ max_username_len)

pub print-one :
    (n : List ℕ) (names : List (List ℕ))
    → some (print_lines names ++ (n ++ 10 ∷ [])) ≡ some (print_lines names ++ print_lines (n ∷ []))
unfolding print_lines
print-one n names = refl

append-Holds :
    (u n : List ℕ) (names : List (List ℕ)) (d : Disk)
    → d.may_write (friends_path u) ≡ true
    → Fits n
    → HoldsFriends u names d
    → HoldsFriends u (names ++ n ∷ []) (append_text (friends_path u) (n ++ 10 ∷ []) d)
append-Holds u n names d w f h = record {
  text =
      text_of-append_text (friends_path u) (friends_path u) (n ++ 10 ∷ []) d w
      ∙ rw (str_eq_self (friends_path u), h.text, print_lines-append) (print-one n names);
  fit = AllFit-append max_username_len names (n ∷ []) h.fit (f.0, f.1, tt);
  short = h.short;
}

append-frame :
    (u v n : List ℕ) (names : List (List ℕ)) (d : Disk)
    → d.may_write (friends_path u) ≡ true
    → IsShort u
    → u ≢ v
    → HoldsFriends v names d
    → HoldsFriends v names (append_text (friends_path u) (n ++ 10 ∷ []) d)
append-frame u v n names d w s ne h = record {
  text =
      text_of-append_text (friends_path u) (friends_path v) (n ++ 10 ∷ []) d w
      ∙ rw (str_eq_ne _ _ (friends_path-ne u v s h.short ne)) h.text;
  fit = h.fit;
  short = h.short;
}

may_write-append_text :
    (p text : List ℕ) (d : Disk) → (append_text p text d).may_write ≡ d.may_write
unfolding append_text
may_write-append_text p text d = ground arith

-- Two users' files and the names in them.
pub record Pair (a b : List ℕ) (xs ys : List (List ℕ)) (d : Disk) : Type 0 where
  pub left : HoldsFriends a xs d
  pub right : HoldsFriends b ys d
  pub apart : a ≢ b

pub add-Pair :
    (a b : List ℕ) (xs ys : List (List ℕ)) (d : Disk)
    → d.may_write (friends_path a) ≡ true
    → d.may_write (friends_path b) ≡ true
    → Fits a
    → Fits b
    → Pair a b xs ys d
    → Pair a b (xs ++ b ∷ []) (ys ++ a ∷ []) (add_friend_both a b d)
unfolding add_friend_both
add-Pair a b xs ys d wa wb fa fb pair =
    let middle = append-frame a b b ys d wa pair.left.short pair.apart pair.right in
    let one = append-Holds a b xs d wa fb pair.left in
    let still : (append_text (friends_path a) (b ++ 10 ∷ []) d).may_write (friends_path b) ≡ true =
      rw (may_write-append_text (friends_path a) (b ++ 10 ∷ []) d) wb in
    record {
      left =
          append-frame b a a (xs ++ b ∷ []) _ still pair.right.short (λ e. pair.apart (sym e)) one;
      right = append-Holds b a ys _ still fa middle;
      apart = pair.apart;
    }

pub added : (n : List ℕ) (ns : List (List ℕ)) → among n (ns ++ n ∷ []) ≡ true
unfolding some_line
added n ns = ground (arith, some_line-append (λ l. str_eq l n) ns (n ∷ []), str_eq_self n)

pub others : (n c : List ℕ) (ns : List (List ℕ)) → c ≢ n → among c (ns ++ n ∷ []) ≡ among c ns
unfolding some_line
others n c ns ne =
    ground (arith, some_line-append (λ l. str_eq l c) ns (n ∷ []), str_eq_ne n c (λ e. ne (sym e)))

-- After add_friend_both each of two users is a friend of the other, and every other friend of either is
-- one as before. The names have at most 62 bytes, and the friends files of both exist, hold names of
-- such a length and can be written.
pub is_friend-add_friend_both :
    (a b : List ℕ) (xs ys : List (List ℕ)) (d : Disk)
    → d.may_write (friends_path a) ≡ true
    → d.may_write (friends_path b) ≡ true
    → Fits a
    → Fits b
    → Pair a b xs ys d
    → let d' = add_friend_both a b d in
      (is_friend a b d' ≡ true)
      × (is_friend b a d' ≡ true)
      × ((c : List ℕ) → c ≢ b → is_friend a c d' ≡ is_friend a c d)
      × ((c : List ℕ) → c ≢ a → is_friend b c d' ≡ is_friend b c d)
is_friend-add_friend_both a b xs ys d wa wb fa fb pair =
    let after = add-Pair a b xs ys d wa wb fa fb pair in
    (
      is_friend-among a b _ _ after.left ∙ added b xs,
      is_friend-among b a _ _ after.right ∙ added a ys,
      λ c ne.
          is_friend-among a c _ _ after.left
          ∙ others b c xs ne
          ∙ sym (is_friend-among a c xs d pair.left),
      λ c ne.
          is_friend-among b c _ _ after.right
          ∙ others a c ys ne
          ∙ sym (is_friend-among b c ys d pair.right),
    )
