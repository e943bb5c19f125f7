-- ===== src/Chat/Resp.antt =====
-- The answers of 局域网聊天/protocol.h, RESP_OK and so on.
use learningproject.Common.{ℕ}

abbrev pub ok : ℕ
ok = 0

abbrev pub err_unknown : ℕ
err_unknown = 1

abbrev pub err_user_exist : ℕ
err_user_exist = 2

abbrev pub err_user_not_exist : ℕ
err_user_not_exist = 3

abbrev pub err_password : ℕ
err_password = 4

abbrev pub err_already_friend : ℕ
err_already_friend = 5

abbrev pub err_target_offline : ℕ
err_target_offline = 6

abbrev pub err_group_exist : ℕ
err_group_exist = 7

abbrev pub err_group_not_exist : ℕ
err_group_not_exist = 8

abbrev pub err_already_in_group : ℕ
err_already_in_group = 9
