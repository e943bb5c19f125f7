-- ===== src/Chat/Accounts/Limits.antt =====
-- Names that users.txt cannot hold: 局域网聊天/server_tool.c, user_exists.
use learningproject.Common.{
  length-take, ℕ, ◌<◌, ◌≡◌, refl, Bool, false, List, [], ◌∷◌, arith, inl, inr, Option-cases, length,
}
use learningproject.Chat.Text.Laws.{str_eq_ne}
use learningproject.Chat.Disk.{Disk, text_of, some_line, users_path}
use learningproject.Chat.Disk.Paths.{ne_of_length}
use learningproject.Chat.Accounts.{
  before, take, name_matches, fgets_all, user_exists, name_matches, scan_name,
}
use learningproject.Chat.Accounts.Book.{line}

name_matches-long : (u line : List ℕ) → 63 < length u → name_matches u line ≡ false
unfolding name_matches scan_name
name_matches-long u line h = ground (
  arith,
  str_eq_ne (take 63 (before b':' line)) u
      (ne_of_length _ u (omega (arith, length-take 63 (before b':' line)))),
)

some_line-never :
    (p : List ℕ → Bool) (ls : List (List ℕ)) → ((l : List ℕ) → p l ≡ false) → some_line p ls ≡ false
unfolding some_line
some_line-never p [] h = refl
some_line-never p (l ∷ ls) h = rw (h l) (some_line-never p ls h)

-- A name of more than 63 bytes never exists, whatever users.txt holds: the scan of a line stops at 63
-- bytes. So registering such a name is never refused as a duplicate.
user_exists-long : (u : List ℕ) (d : Disk) → 63 < length u → user_exists u d ≡ false
unfolding user_exists
user_exists-long u d h = elim (Option-cases (text_of users_path d)) [
  | inl missing ↦ rw (missing, user_exists)
  | inr (text, found) ↦
      rw (found, user_exists)
        (some_line-never (name_matches u) (fgets_all 256 text) (λ l. name_matches-long u l h))
]
