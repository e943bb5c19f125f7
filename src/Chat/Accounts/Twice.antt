-- ===== src/Chat/Accounts/Twice.antt =====
-- One name with two accounts: store_user and authenticate_user of 局域网聊天/server_tool.c.
use learningproject.Common.{ℕ, ◌≡◌, sym, ◌∙◌, true, false, ◌||◌, List, [], ◌∷◌, ◌++◌, arith}
use learningproject.Chat.Text.{str_eq, simple_hash}
use learningproject.Chat.Text.Laws.{str_eq_self}
use learningproject.Chat.Disk.{Disk, users_path, friends_path, groups_path, append_text, create}
use learningproject.Chat.Accounts.{user_exists, store_user, authenticate_user}
use learningproject.Chat.Accounts.Book.{Entry, IsName, HoldsBook, has_account}
use learningproject.Chat.Accounts.Login.{
  user_exists-book, authenticate-book, store-book, account, has_account-append, has_account-unknown,
}

may_write-append_text :
    (at text path : List ℕ) (d : Disk) → (append_text at text d).may_write path ≡ d.may_write path
unfolding append_text
may_write-append_text at text path d = ground arith

may_write-create : (at path : List ℕ) (d : Disk) → (create at d).may_write path ≡ d.may_write path
unfolding create
may_write-create at path d = ground arith

may_write-store_user :
    (u p path : List ℕ) (d : Disk) → (store_user u p d).may_write path ≡ d.may_write path
unfolding store_user
may_write-store_user u p path d =
    let line = u ++ b':' ∷ simple_hash p ++ 10 ∷ [] in
    let added = append_text users_path line d in
    may_write-create (groups_path u) path (create (friends_path u) added)
    ∙ may_write-create (friends_path u) path added
    ∙ may_write-append_text users_path line path d

-- Either password then opens the account.
pub authenticate-stored_twice :
    (u p q r : List ℕ) (es : List Entry) (d : Disk)
    → d.may_write users_path ≡ true
    → IsName u
    → HoldsBook d es
    → user_exists u d ≡ false
    → authenticate_user u r (store_user u q (store_user u p d))
      ≡ (str_eq (simple_hash p) (simple_hash r) || str_eq (simple_hash q) (simple_hash r))
unfolding has_account
authenticate-stored_twice u p q r es d w n b free =
    let h = simple_hash r in
    let d' = store_user u p d in
    let once = store-book u p es d w n b in
    let w' = may_write-store_user u p users_path d ∙ w in
    let twice = store-book u q (es ++ account u p ∷ []) d' w' n once in
    authenticate-book u r ((es ++ account u p ∷ []) ++ account u q ∷ []) (store_user u q d') twice
    ∙ ground (
      arith,
      has_account-append u h (es ++ account u p ∷ []) (account u q ∷ []),
      has_account-append u h es (account u p ∷ []),
      has_account-unknown u h es (sym (user_exists-book u es d b) ∙ free),
      str_eq_self u,
    )
