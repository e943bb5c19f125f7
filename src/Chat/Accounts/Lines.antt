-- ===== src/Chat/Accounts/Lines.antt =====
-- Reading users.txt line by line: 局域网聊天/server_tool.c, the loops of user_exists and authenticate_user.
use mathlib.Core.List.{append_assoc}
use learningproject.Common.{
  ℕ, ◌≤◌, ◌<◌, ◌≡◌, refl, ap, ap₂, ◌∙◌, Bool, ◌&&◌, ◌||◌, List, [], ◌∷◌, ◌++◌, some, arith, length,
  take_of_le, drop-append, length-append,
}
use learningproject.Chat.Text.{str_eq}
use learningproject.Chat.Text.Laws.{Without, before-append}
use learningproject.Chat.Text.Decimal.{IsDigits}
use learningproject.Chat.Disk.{fgets_from, fgets_all, some_line}
use learningproject.Chat.Disk.Lines.{fgets-line}
use learningproject.Chat.Accounts.{
  scan_name, scan_hash, scan_word, skip_space, is_space, word, account_matches, name_matches,
}
use learningproject.Chat.Accounts.Book.{
  Entry, line, print_book, IsEntry, AllEntries, has_name, has_account,
}

digits-Without : (ds : List ℕ) → IsDigits ds → Without 10 ds
digits-Without [] h = tt
digits-Without (d ∷ ds) h = (omega (arith, h.0), digits-Without ds h.2)

Without-append :
    (stop : ℕ) (xs ys : List ℕ) → Without stop xs → Without stop ys → Without stop (xs ++ ys)
Without-append stop [] ys hx hy = hy
Without-append stop (x ∷ xs) ys hx hy = (hx.0, Without-append stop xs ys hx.1 hy)

scan_name-line : (e : Entry) → IsEntry e → scan_name (line e ++ 10 ∷ []) ≡ some e.name
unfolding scan_name
scan_name-line e h =
    rw
      (
        append_assoc e.name (b':' ∷ e.hash) (10 ∷ []),
        before-append b':' e.name (e.hash ++ 10 ∷ []) h.named.no_colon,
        take_of_le 63 e.name h.named.fits,
      )
      (ground (arith, h.named.some_byte))

word-digits : (ds : List ℕ) → IsDigits ds → word (ds ++ 10 ∷ []) ≡ ds
unfolding word is_space
word-digits [] h = refl
word-digits (d ∷ ds) h = ground (arith, word-digits ds h.2)

scan_word-digits :
    (ds : List ℕ)
    → IsDigits ds
    → 0 < length ds
    → length ds ≤ 63
    → scan_word (ds ++ 10 ∷ []) ≡ some ds
unfolding scan_word skip_space is_space
scan_word-digits [] h p le = absurd (omega arith)
scan_word-digits (d ∷ ds) h p le = ground (arith, word-digits (d ∷ ds) h, take_of_le 63 (d ∷ ds) le)

scan_hash-line : (e : Entry) → IsEntry e → scan_hash (b':' ∷ e.hash ++ 10 ∷ []) ≡ some e.hash
unfolding scan_hash
scan_hash-line e h = scan_word-digits e.hash h.digits h.some_digit h.fits_hash

name_matches-line :
    (u : List ℕ) (e : Entry) → IsEntry e → name_matches u (line e ++ 10 ∷ []) ≡ str_eq e.name u
unfolding name_matches
name_matches-line u e h = ground (arith, scan_name-line e h)

account_matches-line :
    (u hash : List ℕ) (e : Entry)
    → IsEntry e
    → account_matches u hash (line e ++ 10 ∷ []) ≡ (str_eq e.name u && str_eq e.hash hash)
unfolding account_matches
account_matches-line u hash e h = ground (
  arith,
  scan_name-line e h,
  scan_hash-line e h,
  append_assoc e.name (b':' ∷ e.hash) (10 ∷ []),
  drop-append e.name (b':' ∷ e.hash ++ 10 ∷ []),
)

fgets-book :
    (e : Entry) (es : List Entry)
    → IsEntry e
    → fgets_all 256 (print_book (e ∷ es)) ≡ (line e ++ 10 ∷ []) ∷ fgets_all 256 (print_book es)
unfolding print_book
fgets-book e es h =
    fgets-line 255 255 (line e) (print_book es)
      (Without-append 10 e.name (b':' ∷ e.hash) h.named.no_newline
        (omega arith, digits-Without e.hash h.digits))
      (omega (arith, length-append e.name (b':' ∷ e.hash), h.named.fits, h.fits_hash))

-- A loop over the lines of the file is one over the entries.
some-book :
    (p : List ℕ → Bool) (e : Entry) (es : List Entry)
    → IsEntry e
    → some_line p (fgets_all 256 (print_book (e ∷ es)))
      ≡ (p (line e ++ 10 ∷ []) || some_line p (fgets_all 256 (print_book es)))
unfolding some_line
some-book p e es h = ap (some_line p) (fgets-book e es h)

pub some_name :
    (u : List ℕ) (es : List Entry)
    → AllEntries es
    → some_line (name_matches u) (fgets_all 256 (print_book es)) ≡ has_name u es
unfolding some_line has_name print_book fgets_from
some_name u [] h = refl
some_name u (e ∷ es) h =
    some-book (name_matches u) e es h.0 ∙ ap₂ ◌||◌ (name_matches-line u e h.0) (some_name u es h.1)

pub some_account :
    (u hash : List ℕ) (es : List Entry)
    → AllEntries es
    → some_line (account_matches u hash) (fgets_all 256 (print_book es)) ≡ has_account u hash es
unfolding some_line has_account print_book fgets_from
some_account u hash [] h = refl
some_account u hash (e ∷ es) h =
    some-book (account_matches u hash) e es h.0
    ∙ ap₂ ◌||◌ (account_matches-line u hash e h.0) (some_account u hash es h.1)
