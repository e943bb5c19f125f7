-- ===== src/Chat/Server/Faults.antt =====
-- Requests that make the server read outside a block:
-- 局域网聊天/server.c with server_tool.c.
use learningproject.Common.{ℕ, ◌≡◌, List, none, arith}
use learningproject.Chat.Text.Laws.{Without, c_string-none}
use learningproject.Chat.Server.{Server}
use learningproject.Chat.Server.Requests.{on_register, on_login}

-- The length of a body is not checked against its type: a REGISTER or LOGIN message whose body has no
-- zero byte, an empty body for one, makes the server read behind the message.
short_body-fault :
    (fd : ℕ) (username body : List ℕ) (s : Server)
    → Without 0 body
    → (on_register fd body s ≡ none) × (on_login fd username body s ≡ none)
unfolding on_register on_login
short_body-fault fd username body s w = ground (arith, c_string-none body w)
