-- ===== src/Chat/Tests/Files.antt =====
-- Accounts, friends, groups and the list of users at a small state: 局域网聊天/server_tool.c.
use learningproject.Common.{
  zero, suc, ℕ, ◌≡◌, ◌≢◌, refl, true, false, List, [], ◌∷◌, some, none, arith, replicate,
  length-replicate,
}
use learningproject.Chat.Text.{str_eq}
use learningproject.Chat.Disk.{Disk, find, group_path, groups_path, friends_path}
use learningproject.Chat.Disk.Lines.{print_lines, AllFit}
use learningproject.Chat.Accounts.{user_exists}
use learningproject.Chat.Accounts.Login.{user_exists-book}
use learningproject.Chat.Accounts.Book.{IsName, has_name}
use learningproject.Chat.Friends.{load_friend_list}
use learningproject.Chat.Friends.Laws.{HoldsFriends}
use learningproject.Chat.Friends.Loading.{load_friend_list-overflow, AllNamed}
use learningproject.Chat.Groups.{join_group, leave_group, is_in_group}
use learningproject.Chat.Groups.Laws.{join-leave}
use learningproject.Chat.Online.{find_online_fd, add_online, remove_online}
use learningproject.Chat.Online.Laws.{online-IsDistinct, IsDistinct, has_fd}
use learningproject.Chat.Fixture.{
  amy, cat, club, accounts, disk, server, disk-HoldsBook, disk-HoldsMembers, amy-Fits, cat-Fits,
}

amy-IsName : IsName amy
amy-IsName = record {
  some_byte = omega arith;
  fits = omega arith;
  no_colon = ground arith;
  no_newline = ground arith;
}

abbrev pw : List ℕ
pw = b'p' ∷ b'w' ∷ []

amy_free : user_exists amy disk ≡ false
unfolding has_name str_eq
amy_free = user_exists-book amy accounts disk disk-HoldsBook

copies_AllFit : (n : ℕ) → AllFit 64 (replicate n cat)
copies_AllFit zero = tt
copies_AllFit (suc n) = (cat-Fits.0, cat-Fits.1, copies_AllFit n)

copies_AllNamed : (n : ℕ) → AllNamed (replicate n cat)
copies_AllNamed zero = tt
copies_AllNamed (suc n) = (omega arith, copies_AllNamed n)

-- 201 friends
abbrev crowd : Disk
crowd = record disk { files = (friends_path amy, print_lines (replicate 201 cat)) ∷ [] }

crowd-HoldsFriends : HoldsFriends amy (replicate 201 cat) crowd
unfolding find str_eq
crowd-HoldsFriends = record { text = refl; fit = copies_AllFit 201; short = omega arith }

load_friend_list-overflow_example : load_friend_list amy crowd ≡ none
load_friend_list-overflow_example =
    load_friend_list-overflow amy (replicate 201 cat) crowd crowd-HoldsFriends (copies_AllNamed 201)
      (omega (arith, length-replicate {A = List ℕ} 201 cat))

apart_paths : group_path club ≢ groups_path amy
apart_paths e = ground (arith, e)

join-leave_example :
    (is_in_group club amy (join_group club amy disk) ≡ true)
    × (is_in_group club amy (leave_group club amy disk) ≡ false)
    × ((v : List ℕ)
        → v ≢ amy
        → is_in_group club v (join_group club amy disk) ≡ is_in_group club v disk)
    × ((v : List ℕ)
        → v ≢ amy
        → is_in_group club v (leave_group club amy disk) ≡ is_in_group club v disk)
join-leave_example =
    join-leave club amy (cat ∷ []) disk refl refl apart_paths (λ e. ground (arith, e)) amy-Fits
      disk-HoldsMembers

bob_alone : IsDistinct server.online
unfolding has_fd
bob_alone = (refl, tt)

online-IsDistinct_example :
    (has_fd 4 server.online ≡ false
      → IsDistinct (add_online 4 amy server.online)
        × (find_online_fd amy (add_online 4 amy server.online) ≡ some 4))
    × IsDistinct (remove_online 4 server.online)
    × ((v : List ℕ) → find_online_fd v (remove_online 4 server.online) ≢ some 4)
    × ((v : List ℕ) (k : ℕ)
        → find_online_fd v server.online ≡ some k
        → k ≢ 4
        → find_online_fd v (remove_online 4 server.online) ≡ some k)
online-IsDistinct_example = online-IsDistinct 4 amy server.online bob_alone (omega arith)
