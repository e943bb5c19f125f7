-- ===== src/Chat/Online.antt =====
-- The list of users that are online: find_online_fd, add_online and remove_online of
-- 局域网聊天/server_tool.c, each a step under `online_mutex`. The linked list is a list of its nodes; what
-- is printed is left out.
pub mod Laws
use learningproject.Common.{ℕ, List, [], ◌∷◌, Option, none, some, if◌then◌else◌, ◌==◌}
use learningproject.Chat.Text.{str_eq, safe_strcpy}
use learningproject.Chat.Disk.{max_username_len}

-- `ClientNode`
pub record ClientNode : Type 0 where
  pub fd : ℕ
  pub username : List ℕ

-- `none` is -1.
unfoldable pub find_online_fd : List ℕ → List ClientNode → Option ℕ
find_online_fd username [] = none
find_online_fd username (p ∷ next) =
    if str_eq p.username username then some p.fd else find_online_fd username next

unfoldable pub add_online : ℕ → List ℕ → List ClientNode → List ClientNode
add_online fd username online_list =
    record { fd = fd; username = safe_strcpy username max_username_len } ∷ online_list

-- Only the first node of the descriptor is unlinked.
unfoldable pub remove_online : ℕ → List ClientNode → List ClientNode
remove_online fd [] = []
remove_online fd (p ∷ next) = if p.fd == fd then next else p ∷ remove_online fd next
