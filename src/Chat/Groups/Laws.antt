-- ===== src/Chat/Groups/Laws.antt =====
-- Groups through the files: 局域网聊天/server_tool.c, create_group, join_group, leave_group, is_in_group.
use learningproject.Common.{
  if◌then◌else◌, ℕ, ◌≡◌, ◌≢◌, refl, sym, ap, ◌∙◌, true, false, List, [], ◌∷◌, ◌++◌, some, arith,
}
use learningproject.Chat.Text.{str_eq, utf8}
use learningproject.Chat.Text.Laws.{str_eq_iff, str_eq_self}
use learningproject.Chat.Disk.{
  friends_path, Disk, find, text_of, or_empty, append_text, write_text, some_line, group_path,
  groups_path, max_username_len, max_group_name_len,
}
use learningproject.Chat.Disk.Lines.{
  print_lines, some_line-without_ne, AllFit-append, AllFit-without, without, AllFit,
  lines_of-print_lines, print_lines-append, some_line-without,
}
use learningproject.Chat.Disk.Paths.{find-put, text_of-append_text, drop_line_lem, drop_line-frame}
use learningproject.Chat.Friends.Laws.{among, Fits, print-one, added, others}
use learningproject.Chat.Friends.{is_friend, add_friend_both}
use learningproject.Chat.Groups.{group_exists, create_group, join_group, leave_group, is_in_group}

-- A group's file holds these members.
pub record HoldsMembers (g : List ℕ) (names : List (List ℕ)) (d : Disk) : Type 0 where
  pub text : text_of (group_path g) d ≡ some (print_lines names)
  pub fit : AllFit max_username_len names

-- `is_in_group` says whether the name is in the file.
pub is_in_group-among :
    (g u : List ℕ) (names : List (List ℕ)) (d : Disk)
    → HoldsMembers g names d
    → is_in_group g u d ≡ among u names
unfolding is_in_group
is_in_group-among g u names d h =
    rw (h.text, is_in_group) (ap (among u) (lines_of-print_lines max_username_len names h.fit))

append-frame :
    (p q text : List ℕ) (d : Disk) → p ≢ q → text_of q (append_text p text d) ≡ text_of q d
unfolding append_text
append-frame p q text d ne =
    ground (arith, find-put p q (or_empty (find p d.files) ++ text) d.files, str_eq_iff p q)

text_of-write_text :
    (p q text : List ℕ) (d : Disk)
    → d.may_write p ≡ true
    → text_of q (write_text p text d) ≡ (if str_eq p q then some text else text_of q d)
unfolding write_text
text_of-write_text p q text d w = rw w (find-put p q text d.files)

one_name : (u v : List ℕ) → among v (u ∷ []) ≡ str_eq u v
unfolding some_line
one_name u v = ground arith

created :
    (g u : List ℕ) (d : Disk)
    → d.may_write (group_path g) ≡ true
    → group_path g ≢ groups_path u
    → Fits u
    → HoldsMembers g (u ∷ []) (create_group g u d)
unfolding create_group print_lines
created g u d w ne f = record {
  text =
      append-frame (groups_path u) (group_path g) (g ++ 10 ∷ []) _ (λ e. ne (sym e))
      ∙ text_of-write_text (group_path g) (group_path g) (u ++ 10 ∷ []) d w
      ∙ rw (str_eq_self (group_path g)) refl;
  fit = (f.0, f.1, tt);
}

exists_of_text :
    (g text : List ℕ) (d : Disk) → text_of (group_path g) d ≡ some text → group_exists g d ≡ true
unfolding group_exists
exists_of_text g text d e = ground (arith, e)

-- The group that create_group makes exists, and its creator is its only member. The creator's name has at
-- most 62 bytes, and the group's file can be written and has another path than the creator's list of
-- groups.
pub create_group-member :
    (g u v : List ℕ) (d : Disk)
    → d.may_write (group_path g) ≡ true
    → group_path g ≢ groups_path u
    → Fits u
    → let d' = create_group g u d in (group_exists g d' ≡ true) × (is_in_group g v d' ≡ str_eq u v)
create_group-member g u v d w ne f =
    let held = created g u d w ne f in
    (exists_of_text g _ _ held.text, is_in_group-among g v (u ∷ []) _ held ∙ one_name u v)

joined :
    (g u : List ℕ) (names : List (List ℕ)) (d : Disk)
    → d.may_write (group_path g) ≡ true
    → group_path g ≢ groups_path u
    → Fits u
    → HoldsMembers g names d
    → HoldsMembers g (names ++ u ∷ []) (join_group g u d)
unfolding join_group
joined g u names d w ne f h = record {
  text =
      append-frame (groups_path u) (group_path g) (g ++ 10 ∷ []) _ (λ e. ne (sym e))
      ∙ text_of-append_text (group_path g) (group_path g) (u ++ 10 ∷ []) d w
      ∙ rw (str_eq_self (group_path g), h.text, print_lines-append) (print-one u names);
  fit = AllFit-append max_username_len names (u ∷ []) h.fit (f.0, f.1, tt);
}

left :
    (g u : List ℕ) (names : List (List ℕ)) (d : Disk)
    → d.may_write (group_path g ++ utf8 ".tmp") ≡ true
    → group_path g ≢ groups_path u
    → groups_path u ++ utf8 ".tmp" ≢ group_path g
    → HoldsMembers g names d
    → HoldsMembers g (without u names) (leave_group g u d)
unfolding leave_group
left g u names d w ne ne' h = record {
  text =
      drop_line-frame (groups_path u) (group_path g) g max_group_name_len _ (λ e. ne (sym e)) ne'
      ∙ drop_line_lem (group_path g) (group_path g) u max_username_len names d w h.fit h.text
      ∙ rw (str_eq_self (group_path g)) refl;
  fit = AllFit-without max_username_len u names h.fit;
}

-- Joining a group makes a user a member, and leaving it ends that, however often the user is listed; the
-- membership of all others stays. The group's file holds names of at most 62 bytes, as is the user's, and
-- it and its temporary copy can be written. The paths of the group's file and of the user's list of groups, and
-- of its temporary copy, must differ.
pub join-leave :
    (g u : List ℕ) (names : List (List ℕ)) (d : Disk)
    → d.may_write (group_path g) ≡ true
    → d.may_write (group_path g ++ utf8 ".tmp") ≡ true
    → group_path g ≢ groups_path u
    → groups_path u ++ utf8 ".tmp" ≢ group_path g
    → Fits u
    → HoldsMembers g names d
    → (is_in_group g u (join_group g u d) ≡ true)
      × (is_in_group g u (leave_group g u d) ≡ false)
      × ((v : List ℕ) → v ≢ u → is_in_group g v (join_group g u d) ≡ is_in_group g v d)
      × ((v : List ℕ) → v ≢ u → is_in_group g v (leave_group g u d) ≡ is_in_group g v d)
join-leave g u names d w w' ne ne' f h =
    let after = joined g u names d w ne f h in
    let gone = left g u names d w' ne ne' h in
    (
      is_in_group-among g u _ _ after ∙ added u names,
      is_in_group-among g u _ _ gone ∙ some_line-without u names,
      λ v nv.
          is_in_group-among g v _ _ after
          ∙ others u v names nv
          ∙ sym (is_in_group-among g v names d h),
      λ v nv.
          is_in_group-among g v _ _ gone
          ∙ some_line-without_ne u v names (λ e. nv (sym e))
          ∙ sym (is_in_group-among g v names d h),
    )

exists-append_text :
    (g p text : List ℕ) (d : Disk)
    → group_exists g d ≡ true
    → group_exists g (append_text p text d) ≡ true
unfolding group_exists append_text
exists-append_text g p text d e =
    ground (arith, find-put p (group_path g) (or_empty (find p d.files) ++ text) d.files)

exists_append_text_self :
    (g text : List ℕ) (d : Disk)
    → d.may_write (group_path g) ≡ true
    → group_exists g (append_text (group_path g) text d) ≡ true
unfolding group_exists append_text
exists_append_text_self g text d w = ground (
  arith,
  w,
  str_eq_self (group_path g),
  find-put (group_path g) (group_path g) (or_empty (find (group_path g) d.files) ++ text) d.files,
)

-- The files of users and of groups share one folder: the friends of a user named `group` are the members
-- of a group named `friends`, and the first friend of that user makes that group.
friends-collision :
    (u v : List ℕ) (d : Disk)
    → d.may_write (group_path (utf8 "friends")) ≡ true
    → (is_in_group (utf8 "friends") v d ≡ is_friend (utf8 "group") v d)
      × (group_exists (utf8 "friends") (add_friend_both (utf8 "group") u d) ≡ true)
unfolding is_in_group is_friend add_friend_both
friends-collision u v d w = (
  refl,
  exists-append_text (utf8 "friends") (friends_path u) (utf8 "group" ++ 10 ∷ []) _
      (exists_append_text_self (utf8 "friends") (u ++ 10 ∷ []) d w),
)
