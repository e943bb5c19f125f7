-- ===== src/Chat/Fixture.antt =====
-- A small state of the chat server of 局域网聊天, for tests.
use learningproject.Common.{ℕ, refl, true, List, [], ◌∷◌, arith}
use learningproject.Chat.Text.{str_eq}
use learningproject.Chat.Disk.{Disk, find, users_path, friends_path, group_path}
use learningproject.Chat.Disk.Lines.{print_lines}
use learningproject.Chat.Accounts.Book.{Entry, print_book, HoldsBook}
use learningproject.Chat.Friends.Laws.{Pair, Fits}
use learningproject.Chat.Groups.Laws.{HoldsMembers}
use learningproject.Chat.Server.{Server}

abbrev pub amy : List ℕ
amy = b'a' ∷ b'm' ∷ b'y' ∷ []

abbrev pub bob : List ℕ
bob = b'b' ∷ b'o' ∷ b'b' ∷ []

abbrev pub cat : List ℕ
cat = b'c' ∷ b'a' ∷ b't' ∷ []

-- the name of a group
abbrev pub club : List ℕ
club = b'g' ∷ b'1' ∷ []

abbrev pub accounts : List Entry
accounts = record { name = bob; hash = b'7' ∷ b'3' ∷ [] } ∷ []

abbrev pub disk : Disk
disk = record {
  files =
      (friends_path amy, print_lines (cat ∷ []))
      ∷ (friends_path bob, [])
      ∷ (users_path, print_book accounts)
      ∷ (group_path club, print_lines (cat ∷ []))
      ∷ [];
  may_write = λ path. true;
}

-- `bob` is online.
abbrev pub server : Server
server = record { disk = disk; online = record { fd = 5; username = bob } ∷ []; sent = [] }

pub disk-HoldsBook : HoldsBook disk accounts
unfolding find str_eq print_book
disk-HoldsBook = record {
  text = refl;
  entries = (
    record {
      named = record {
        some_byte = omega arith;
        fits = omega arith;
        no_colon = ground arith;
        no_newline = ground arith;
      };
      digits = ground arith;
      some_digit = omega arith;
      fits_hash = omega arith;
    },
    tt,
  );
}

pub cat-Fits : Fits cat
cat-Fits = (ground arith, omega arith)

pub amy-Fits : Fits amy
amy-Fits = (ground arith, omega arith)

pub bob-Fits : Fits bob
bob-Fits = (ground arith, omega arith)

pub disk-Pair : Pair amy bob (cat ∷ []) [] disk
unfolding find str_eq print_lines
disk-Pair = record {
  left = record { text = refl; fit = (cat-Fits.0, cat-Fits.1, tt); short = omega arith };
  right = record { text = refl; fit = tt; short = omega arith };
  apart = λ e. ground arith;
}

pub disk-HoldsMembers : HoldsMembers club (cat ∷ []) disk
unfolding find str_eq print_lines
disk-HoldsMembers = record { text = refl; fit = (cat-Fits.0, cat-Fits.1, tt) }
