-- ===== src/Chat/Accounts/Login.antt =====
-- What registering an account means for later logins: 局域网聊天/server_tool.c, store_user,
-- user_exists and authenticate_user, in terms of the list of accounts.
use mathlib.Core.List.{append_assoc}
use learningproject.Common.{
  ℕ, ◌≡◌, ◌≢◌, refl, sym, ap, ◌∙◌, Bool, true, false, ◌||◌, List, [], ◌∷◌, ◌++◌, none, some, arith,
  inl, inr, Option-cases,
}
use learningproject.Chat.Text.{hash_from, str_eq, simple_hash}
use learningproject.Chat.Text.Laws.{str_eq_self, str_eq_ne}
use learningproject.Chat.Text.Decimal.{length-decimal, decimal_pos, decimal-IsDigits}
use learningproject.Chat.Disk.{
  fgets_from, Disk, text_of, or_empty, append_text, create, some_line, users_path, friends_path,
  groups_path,
}
use learningproject.Chat.Disk.Paths.{
  or_empty-create, text_of-append_text, text_of-create_ne, friends-ne-users, groups-ne-users,
}
use learningproject.Chat.Accounts.{
  name_matches, account_matches, fgets_all, user_exists, store_user, authenticate_user,
  name_matches,
}
use learningproject.Chat.Accounts.Book.{
  Entry, line, print_book, IsName, IsEntry, AllEntries, has_name, has_account, HoldsBook,
}
use learningproject.Chat.Accounts.Lines.{some_name, some_account}

-- a loop over users.txt, that is empty if it is missing
over_book :
    (p : List ℕ → Bool) (es : List Entry) (d : Disk)
    → HoldsBook d es
    → (elim (text_of users_path d) [ none ↦ false | some text ↦ some_line p (fgets_all 256 text) ])
      ≡ some_line p (fgets_all 256 (print_book es))
unfolding some_line fgets_from
over_book p es d b = elim (Option-cases (text_of users_path d)) [
  | inl missing ↦
      let empty : [] ≡ print_book es = rw missing at b.text in rw (missing, ← empty) refl
  | inr (text, found) ↦
      let same : text ≡ print_book es = rw found at b.text in rw (found, same) refl
]

-- `user_exists` says whether an account has the name.
pub user_exists-book :
    (u : List ℕ) (es : List Entry) (d : Disk) → HoldsBook d es → user_exists u d ≡ has_name u es
unfolding user_exists
user_exists-book u es d b = over_book (name_matches u) es d b ∙ some_name u es b.entries

-- `authenticate_user` says whether an account has the name and the hash of the password.
pub authenticate-book :
    (u p : List ℕ) (es : List Entry) (d : Disk)
    → HoldsBook d es
    → authenticate_user u p d ≡ has_account u (simple_hash p) es
unfolding authenticate_user
authenticate-book u p es d b =
    over_book (account_matches u (simple_hash p)) es d b
    ∙ some_account u (simple_hash p) es b.entries

hash-IsEntry : (u p : List ℕ) → IsName u → IsEntry (record { name = u; hash = simple_hash p })
unfolding simple_hash
hash-IsEntry u p n = record {
  named = n;
  digits = decimal-IsDigits 20 (hash_from 5381 p);
  some_digit = decimal_pos 20 (hash_from 5381 p) (omega arith);
  fits_hash = omega (arith, length-decimal 20 (hash_from 5381 p));
}

print_book-append : (xs ys : List Entry) → print_book (xs ++ ys) ≡ print_book xs ++ print_book ys
unfolding print_book
print_book-append [] ys = refl
print_book-append (x ∷ xs) ys =
    rw (print_book-append xs ys) (sym (append_assoc (line x) (10 ∷ print_book xs) (print_book ys)))

AllEntries-append : (xs ys : List Entry) → AllEntries xs → AllEntries ys → AllEntries (xs ++ ys)
AllEntries-append [] ys hx hy = hy
AllEntries-append (x ∷ xs) ys hx hy = (hx.0, AllEntries-append xs ys hx.1 hy)

abbrev pub account : List ℕ → List ℕ → Entry
account u p = record { name = u; hash = simple_hash p }

print-one : (u p : List ℕ) → u ++ b':' ∷ simple_hash p ++ 10 ∷ [] ≡ print_book (account u p ∷ [])
unfolding print_book
print-one u p = refl

-- `store_user` adds one account, with the hash of its password, behind the others.
pub store-book :
    (u p : List ℕ) (es : List Entry) (d : Disk)
    → d.may_write users_path ≡ true
    → IsName u
    → HoldsBook d es
    → HoldsBook (store_user u p d) (es ++ account u p ∷ [])
unfolding store_user
store-book u p es d w n b = record {
  text = ap or_empty held ∙ ap (λ t. t ++ (u ++ b':' ∷ simple_hash p ++ 10 ∷ [])) b.text ∙ shape;
  entries = AllEntries-append es (account u p ∷ []) b.entries (hash-IsEntry u p n, tt);
}
  where
    added : Disk
    added = append_text users_path (u ++ b':' ∷ simple_hash p ++ 10 ∷ []) d

    held :
        text_of users_path (store_user u p d)
        ≡ some (or_empty (text_of users_path d) ++ (u ++ b':' ∷ simple_hash p ++ 10 ∷ []))
    held =
        text_of-create_ne (groups_path u) users_path (create (friends_path u) added)
          (groups-ne-users u)
        ∙ text_of-create_ne (friends_path u) users_path added (friends-ne-users u)
        ∙ text_of-append_text users_path users_path (u ++ b':' ∷ simple_hash p ++ 10 ∷ []) d w
        ∙ rw (str_eq_self users_path)

    shape :
        print_book es ++ (u ++ b':' ∷ simple_hash p ++ 10 ∷ [])
        ≡ print_book (es ++ account u p ∷ [])
    shape =
        rw (print_book-append es (account u p ∷ [])) (ap (λ t. print_book es ++ t) (print-one u p))

has_name-append :
    (v : List ℕ) (xs ys : List Entry) → has_name v (xs ++ ys) ≡ (has_name v xs || has_name v ys)
unfolding has_name
has_name-append v [] ys = refl
has_name-append v (x ∷ xs) ys = ground (arith, has_name-append v xs ys)

pub has_account-append :
    (v h : List ℕ) (xs ys : List Entry)
    → has_account v h (xs ++ ys) ≡ (has_account v h xs || has_account v h ys)
unfolding has_account
has_account-append v h [] ys = refl
has_account-append v h (x ∷ xs) ys = ground (arith, has_account-append v h xs ys)

pub has_account-unknown :
    (v h : List ℕ) (es : List Entry) → has_name v es ≡ false → has_account v h es ≡ false
unfolding has_name has_account
has_account-unknown v h [] e = refl
has_account-unknown v h (x ∷ xs) e = ground (arith, has_account-unknown v h xs)

-- Storing a user adds nothing to a friends file.
pub or_empty-store_user :
    (u p v : List ℕ) (d : Disk)
    → d.may_write users_path ≡ true
    → or_empty (text_of (friends_path v) (store_user u p d)) ≡ or_empty (text_of (friends_path v) d)
unfolding store_user
or_empty-store_user u p v d w =
    or_empty-create (groups_path u) (friends_path v) (create (friends_path u) added)
    ∙ or_empty-create (friends_path u) (friends_path v) added
    ∙ ap or_empty unchanged
  where
    added : Disk
    added = append_text users_path (u ++ b':' ∷ simple_hash p ++ 10 ∷ []) d

    unchanged : text_of (friends_path v) added ≡ text_of (friends_path v) d
    unchanged =
        text_of-append_text users_path (friends_path v) (u ++ b':' ∷ simple_hash p ++ 10 ∷ []) d w
        ∙ rw (str_eq_ne users_path (friends_path v) (λ e. friends-ne-users v (sym e)))

-- With a well-formed users.txt that can be written, and a name of 1 to 63 bytes without a colon or a
-- newline, registering under the name when it is free makes it exist, and lets exactly those passwords log in
-- that have the hash of the one registered; every other account exists and logs in as before.
pub register-login :
    (u p : List ℕ) (es : List Entry) (d : Disk)
    → d.may_write users_path ≡ true
    → IsName u
    → HoldsBook d es
    → user_exists u d ≡ false
    → let d' = store_user u p d in
      (user_exists u d' ≡ true)
      × ((q : List ℕ) → authenticate_user u q d' ≡ str_eq (simple_hash p) (simple_hash q))
      × ((v : List ℕ) → v ≢ u → user_exists v d' ≡ user_exists v d)
      × ((v q : List ℕ) → v ≢ u → authenticate_user v q d' ≡ authenticate_user v q d)
unfolding has_name has_account
register-login u p es d w n b free = (
  user_exists-book u after _ kept
      ∙ ground (arith, has_name-append u es (account u p ∷ []), str_eq_self u),
  λ q.
      authenticate-book u q after _ kept
      ∙ ground (
        arith,
        has_account-append u (simple_hash q) es (account u p ∷ []),
        has_account-unknown u (simple_hash q) es (sym (user_exists-book u es d b) ∙ free),
        str_eq_self u,
      ),
  λ v ne.
      user_exists-book v after _ kept
      ∙ ground (
        arith,
        has_name-append v es (account u p ∷ []),
        user_exists-book v es d b,
        str_eq_ne u v (λ e. ne (sym e)),
      ),
  λ v q ne.
      authenticate-book v q after _ kept
      ∙ ground (
        arith,
        has_account-append v (simple_hash q) es (account u p ∷ []),
        authenticate-book v q es d b,
        str_eq_ne u v (λ e. ne (sym e)),
      ),
)
  where
    after : List Entry
    after = es ++ account u p ∷ []

    kept : HoldsBook (store_user u p d) after
    kept = store-book u p es d w n b
