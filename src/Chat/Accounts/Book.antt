-- ===== src/Chat/Accounts/Book.antt =====
-- users.txt as a list of accounts: 局域网聊天/server_tool.c, user_exists, store_user, authenticate_user.
use learningproject.Common.{ℕ, ◌≤◌, ◌<◌, ◌≡◌, Bool, false, ◌&&◌, ◌||◌, List, [], ◌∷◌, ◌++◌, length}
use learningproject.Chat.Text.{str_eq}
use learningproject.Chat.Text.Laws.{Without}
use learningproject.Chat.Text.Decimal.{IsDigits}
use learningproject.Chat.Disk.{Disk, text_of, or_empty, users_path}

pub record Entry : Type 0 where
  pub name : List ℕ
  pub hash : List ℕ

-- the line of an entry
abbrev pub line : Entry → List ℕ
line e = e.name ++ b':' ∷ e.hash

unfoldable pub print_book : List Entry → List ℕ
print_book [] = []
print_book (e ∷ es) = line e ++ 10 ∷ print_book es

-- A name that the file can hold.
pub record IsName (u : List ℕ) : Type 0 where
  pub some_byte : 0 < length u
  pub fits : length u ≤ 63
  pub no_colon : Without b':' u
  pub no_newline : Without 10 u

pub record IsEntry (e : Entry) : Type 0 where
  pub named : IsName e.name
  pub digits : IsDigits e.hash
  pub some_digit : 0 < length e.hash
  pub fits_hash : length e.hash ≤ 63

abbrev pub AllEntries : List Entry → Type 0
AllEntries [] = Unit
AllEntries (e ∷ es) = IsEntry e × AllEntries es

unfoldable pub has_name : List ℕ → List Entry → Bool
has_name u [] = false
has_name u (e ∷ es) = str_eq e.name u || has_name u es

unfoldable pub has_account : List ℕ → List ℕ → List Entry → Bool
has_account u h [] = false
has_account u h (e ∷ es) = (str_eq e.name u && str_eq e.hash h) || has_account u h es

-- users.txt holds these entries; with none it may be missing.
pub record HoldsBook (d : Disk) (es : List Entry) : Type 0 where
  pub text : or_empty (text_of users_path d) ≡ print_book es
  pub entries : AllEntries es
