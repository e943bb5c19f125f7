-- ===== src/Chat/Friends/Removing.antt =====
-- Ending a friendship: 局域网聊天/server_tool.c, remove_friend_both.
use learningproject.Common.{ℕ, ◌≡◌, ◌≢◌, refl, sym, ◌∙◌, true, false, List, ◌++◌, arith}
use learningproject.Chat.Text.{utf8}
use learningproject.Chat.Text.Laws.{str_eq_self, str_eq_ne}
use learningproject.Chat.Disk.{write_text, rename, Disk, drop_line, friends_path, max_username_len}
use learningproject.Chat.Disk.Lines.{
  without, some_line-without, some_line-without_ne, AllFit-without,
}
use learningproject.Chat.Disk.Paths.{drop_line_lem, friends_path-ne, temp-ne-friends}
use learningproject.Chat.Friends.{is_friend, remove_friend_both}
use learningproject.Chat.Friends.Laws.{HoldsFriends, is_friend-among, Pair}

may_write-drop_line :
    (p v : List ℕ) (size : ℕ) (d : Disk) → (drop_line p size v d).may_write ≡ d.may_write
unfolding drop_line rename write_text
may_write-drop_line p v size d = ground arith

drop-Holds :
    (u n : List ℕ) (names : List (List ℕ)) (d : Disk)
    → d.may_write (friends_path u ++ utf8 ".tmp") ≡ true
    → HoldsFriends u names d
    → HoldsFriends u (without n names) (drop_line (friends_path u) max_username_len n d)
drop-Holds u n names d w h = record {
  text =
      drop_line_lem (friends_path u) (friends_path u) n max_username_len names d w h.fit h.text
      ∙ rw (str_eq_self (friends_path u)) refl;
  fit = AllFit-without max_username_len n names h.fit;
  short = h.short;
}

drop-frame :
    (u v n : List ℕ) (names others : List (List ℕ)) (d : Disk)
    → d.may_write (friends_path u ++ utf8 ".tmp") ≡ true
    → HoldsFriends u others d
    → u ≢ v
    → HoldsFriends v names d
    → HoldsFriends v names (drop_line (friends_path u) max_username_len n d)
drop-frame u v n names others d w hu ne h = record {
  text =
      drop_line_lem (friends_path u) (friends_path v) n max_username_len others d w hu.fit hu.text
      ∙ rw
          (
            str_eq_ne _ _ (friends_path-ne u v hu.short h.short ne),
            str_eq_ne _ _ (temp-ne-friends (friends_path u) v h.short),
          )
          h.text;
  fit = h.fit;
  short = h.short;
}

remove-Pair :
    (a b : List ℕ) (xs ys : List (List ℕ)) (d : Disk)
    → d.may_write (friends_path a ++ utf8 ".tmp") ≡ true
    → d.may_write (friends_path b ++ utf8 ".tmp") ≡ true
    → Pair a b xs ys d
    → Pair a b (without b xs) (without a ys) (remove_friend_both a b d)
unfolding remove_friend_both
remove-Pair a b xs ys d wa wb pair =
    let one = drop-Holds a b xs d wa pair.left in
    let middle = drop-frame a b b ys xs d wa pair.left pair.apart pair.right in
    let still : (drop_line (friends_path a) max_username_len b d).may_write
          (friends_path b ++ utf8 ".tmp")
        ≡ true =
      rw (may_write-drop_line (friends_path a) b max_username_len d) wb in
    record {
      left = drop-frame b a a (without b xs) ys _ still middle (λ e. pair.apart (sym e)) one;
      right = drop-Holds b a ys _ still middle;
      apart = pair.apart;
    }

-- After remove_friend_both neither of two users is a friend of the other, and every other friend of
-- either stays one. The friends files of both exist and hold names of at most 62 bytes, and their
-- temporary copies can be written; the users' own names have at most 115 bytes.
pub is_friend-remove_friend_both :
    (a b : List ℕ) (xs ys : List (List ℕ)) (d : Disk)
    → d.may_write (friends_path a ++ utf8 ".tmp") ≡ true
    → d.may_write (friends_path b ++ utf8 ".tmp") ≡ true
    → Pair a b xs ys d
    → let d' = remove_friend_both a b d in
      (is_friend a b d' ≡ false)
      × (is_friend b a d' ≡ false)
      × ((c : List ℕ) → c ≢ b → is_friend a c d' ≡ is_friend a c d)
      × ((c : List ℕ) → c ≢ a → is_friend b c d' ≡ is_friend b c d)
is_friend-remove_friend_both a b xs ys d wa wb pair =
    let after = remove-Pair a b xs ys d wa wb pair in
    (
      is_friend-among a b _ _ after.left ∙ some_line-without b xs,
      is_friend-among b a _ _ after.right ∙ some_line-without a ys,
      λ c ne.
          is_friend-among a c _ _ after.left
          ∙ some_line-without_ne b c xs (λ e. ne (sym e))
          ∙ sym (is_friend-among a c xs d pair.left),
      λ c ne.
          is_friend-among b c _ _ after.right
          ∙ some_line-without_ne a c ys (λ e. ne (sym e))
          ∙ sym (is_friend-among b c ys d pair.right),
    )
