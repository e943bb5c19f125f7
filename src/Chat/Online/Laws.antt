-- ===== src/Chat/Online/Laws.antt =====
-- The list of online users: 局域网聊天/server_tool.c, find_online_fd, add_online, remove_online.
use learningproject.Common.{
  inr, inl, ◌==◌, ◌||◌, Bool-cases, ◌∙◌, ==_self, true, false, Bool-cases, Bool, ℕ, ◌<◌, ◌≡◌, ◌≢◌,
  refl, List, [], ◌∷◌, some, arith, length, if◌then◌else◌,
}
use learningproject.Chat.Text.{str_eq}
use learningproject.Chat.Text.Laws.{str_eq_self, safe_strcpy_of_lt}
use learningproject.Chat.Disk.{max_username_len}
use learningproject.Chat.Online.{ClientNode, find_online_fd, add_online, remove_online}

-- A user that comes online, with a name that fits, is found at its descriptor; others are found as
-- before.
pub find_online_fd-add_online :
    (fd : ℕ) (u v : List ℕ) (ns : List ClientNode)
    → length u < max_username_len
    → find_online_fd v (add_online fd u ns) ≡ (if str_eq u v then some fd else find_online_fd v ns)
unfolding find_online_fd add_online
find_online_fd-add_online fd u v ns h = rw (safe_strcpy_of_lt u max_username_len h) refl

-- remove_online undoes add_online of the same descriptor. It removes one node only: after two logins on
-- one descriptor the first user stays listed.
remove_online-add_online :
    (fd : ℕ) (u v : List ℕ) (ns : List ClientNode)
    → (remove_online fd (add_online fd u ns) ≡ ns)
      × (remove_online fd (add_online fd v (add_online fd u ns)) ≡ add_online fd u ns)
unfolding remove_online add_online
remove_online-add_online fd u v ns = ground (arith)

-- A user that is found at a descriptor other than the one removed is still found there.
pub find-remove_ne :
    (fd k : ℕ) (u : List ℕ) (ns : List ClientNode)
    → find_online_fd u ns ≡ some k
    → k ≢ fd
    → find_online_fd u (remove_online fd ns) ≡ some k
unfolding find_online_fd remove_online
find-remove_ne fd k u [] e ne = cc
find-remove_ne fd k u (n ∷ ns) e ne = ground (arith, find-remove_ne fd k u ns)

-- No two nodes have the same descriptor.
unfoldable pub has_fd : ℕ → List ClientNode → Bool
has_fd fd [] = false
has_fd fd (p ∷ next) = p.fd == fd || has_fd fd next

abbrev pub IsDistinct : List ClientNode → Type 0
IsDistinct [] = Unit
IsDistinct (p ∷ next) = (has_fd p.fd next ≡ false) × IsDistinct next

has_fd-remove_online :
    (fd k : ℕ) (ns : List ClientNode) → has_fd k ns ≡ false → has_fd k (remove_online fd ns) ≡ false
unfolding has_fd remove_online
has_fd-remove_online fd k [] e = refl
has_fd-remove_online fd k (p ∷ next) e = ground (arith, has_fd-remove_online fd k next)

remove_online-IsDistinct :
    (fd : ℕ) (ns : List ClientNode) → IsDistinct ns → IsDistinct (remove_online fd ns)
unfolding remove_online
remove_online-IsDistinct fd [] h = tt
remove_online-IsDistinct fd (p ∷ next) h = elim (Bool-cases (p.fd == fd)) [
  | inl same ↦ rw same h.1
  | inr other ↦
      rw other (has_fd-remove_online fd p.fd next h.0, remove_online-IsDistinct fd next h.1)
]

has_fd-removed :
    (fd : ℕ) (ns : List ClientNode) → IsDistinct ns → has_fd fd (remove_online fd ns) ≡ false
unfolding has_fd remove_online
has_fd-removed fd [] h = refl
has_fd-removed fd (p ∷ next) h = ground (arith, h, has_fd-removed fd next h.1)

find-has_fd :
    (u : List ℕ) (k : ℕ) (ns : List ClientNode) → find_online_fd u ns ≡ some k → has_fd k ns ≡ true
unfolding find_online_fd has_fd
find-has_fd u k [] e = cc
find-has_fd u k (p ∷ next) e = ground (arith, find-has_fd u k next, ==_self p.fd)

-- As long as each connection logs in once, so that the descriptors of the list differ, a login under a
-- new descriptor, with a name of at most 63 bytes, and a close keep it so; the login's name leads to its descriptor; after a close no name
-- leads to the descriptor that was closed, and every name that led to another one still does.
pub online-IsDistinct :
    (fd : ℕ) (u : List ℕ) (ns : List ClientNode)
    → IsDistinct ns
    → length u < max_username_len
    → (has_fd fd ns ≡ false
        → IsDistinct (add_online fd u ns) × (find_online_fd u (add_online fd u ns) ≡ some fd))
      × IsDistinct (remove_online fd ns)
      × ((v : List ℕ) → find_online_fd v (remove_online fd ns) ≢ some fd)
      × ((v : List ℕ) (k : ℕ)
          → find_online_fd v ns ≡ some k
          → k ≢ fd
          → find_online_fd v (remove_online fd ns) ≡ some k)
unfolding add_online
online-IsDistinct fd u ns h short = (
  λ fresh. ((fresh, h), find_online_fd-add_online fd u u ns short ∙ rw (str_eq_self u) refl),
  remove_online-IsDistinct fd ns h,
  λ v e. ground (arith, find-has_fd v fd (remove_online fd ns) e, has_fd-removed fd ns h),
  λ v k e ne. find-remove_ne fd k v ns e ne,
)
